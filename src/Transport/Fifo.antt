-- ===== src/Transport/Fifo.antt =====
-- The messages on the way between the two ends of src/acmp/transport.py.
use sdk_reference.Prelude.{
  ◌≡◌, ◌⊎◌, refl, sym, ap, ◌∙◌, Bool, true, false, Option, none, some, List, [], ◌∷◌, ◌++◌, map,
  Bool-cases, inl, inr,
}
use mathlib.Core.Path.{subst}
use sdk_reference.Prelude.Sets.{append_assoc, append_nil}
use sdk_reference.Json.{Object}
use sdk_reference.Transport.{
  send, receive_from, receive, close, Wire, buyer_end, provider_end, with_buyer, with_provider,
}
use sdk_reference.Transport.Calls.{
  Call, buyer_sends, provider_sends, buyer_receives, provider_receives, buyer_closes,
  provider_closes, Run, log_sent, log_received, call, calls, fresh, send-open, send-closed,
  close-open, close-closed, inbound-send, inbound-close, out-receive_from,
}

abbrev sentinel : Bool → List (Option Object)
sentinel true = none ∷ []
sentinel false = []

-- What is on the way: the messages that were sent and not received, and then the sentinel.
record IsOpen (r : Run) : Type 0 where
  way : List Object
  queue : r.wire.a_to_b ≡ map some way ++ sentinel r.wire.a_closed
  sent_all : r.sent ≡ r.received ++ way
  untold : r.told ≡ false

-- After the sentinel nothing is on the way.
record IsOver (r : Run) : Type 0 where
  closed : r.wire.a_closed ≡ true
  nothing : r.wire.a_to_b ≡ []
  sent_all : r.sent ≡ r.received
  told : r.told ≡ true

map-append : {A B : Type 0} (f : A → B) (xs ys : List A) → map f (xs ++ ys) ≡ map f xs ++ map f ys
map-append f [] ys = refl
map-append f (x ∷ xs) ys = ap (λ r. f x ∷ r) (map-append f xs ys)

grow :
    (q : List (Option Object)) (way : List Object) (m : Object) (closed : Bool)
    → q ≡ map some way ++ sentinel closed
    → closed ≡ false
    → q ++ some m ∷ [] ≡ map some (way ++ m ∷ []) ++ sentinel closed
grow q way m true h c = cc
grow q way m false h c =
    ap (λ x. x ++ some m ∷ []) (h ∙ append_nil (map some way))
    ∙ sym (append_nil (map some (way ++ m ∷ [])) ∙ map-append some way (m ∷ []))

finishing :
    (q : List (Option Object)) (way : List Object) (closed : Bool)
    → q ≡ map some way ++ sentinel closed
    → closed ≡ false
    → q ++ none ∷ [] ≡ map some way ++ sentinel true
finishing q way true h c = cc
finishing q way false h c = ap (λ x. x ++ none ∷ []) (h ∙ append_nil (map some way))

abbrev IsKept : Run → Type 0
IsKept r = IsOpen r ⊎ IsOver r

-- A run with the same messages from the buyer's end.
same-IsKept :
    (r : Run) (w : Wire)
    → w.a_to_b ≡ r.wire.a_to_b
    → w.a_closed ≡ r.wire.a_closed
    → IsKept r
    → IsKept (record r { wire = w })
same-IsKept r w q c (inl p) = inl (record {
  way = p.way;
  queue = q ∙ p.queue ∙ ap (λ b. map some p.way ++ sentinel b) (sym c);
  sent_all = p.sent_all;
  untold = p.untold;
})
same-IsKept r w q c (inr p) = inr (record {
  closed = c ∙ p.closed;
  nothing = q ∙ p.nothing;
  sent_all = p.sent_all;
  told = p.told;
})

buyer_sends-IsKept :
    (m : Object) (r : Run) → IsKept r → IsKept (log_sent m (send m (buyer_end r.wire)) r)
buyer_sends-IsKept m r k = elim (Bool-cases r.wire.a_closed) [
  | inl h ↦ rw (send-closed m (buyer_end r.wire) h) k
  | inr h ↦ rw (send-open m (buyer_end r.wire) h) (elim k [
    | inl p ↦ inl (record {
      way = p.way ++ m ∷ [];
      queue = grow r.wire.a_to_b p.way m r.wire.a_closed p.queue h;
      sent_all = ap (λ x. x ++ m ∷ []) p.sent_all ∙ append_assoc r.received p.way (m ∷ []);
      untold = p.untold;
    })
    | inr p ↦ cc (h, p.closed)
  ])
]

buyer_closes-IsKept :
    (r : Run) → IsKept r → IsKept (record r { wire = with_buyer (close (buyer_end r.wire)) r.wire })
buyer_closes-IsKept r k = elim (Bool-cases r.wire.a_closed) [
  | inl h ↦ rw (close-closed (buyer_end r.wire) h) k
  | inr h ↦ rw (close-open (buyer_end r.wire) h) (elim k [
    | inl p ↦ inl (record {
      way = p.way;
      queue = finishing r.wire.a_to_b p.way r.wire.a_closed p.queue h;
      sent_all = p.sent_all;
      untold = p.untold;
    })
    | inr p ↦ cc (h, p.closed)
  ])
]

received-open :
    (r : Run) (way : List Object) (closed : Bool)
    → r.wire.a_closed ≡ closed
    → r.sent ≡ r.received ++ way
    → IsKept r
    → r.told ≡ false
    → IsKept (log_received (receive_from (map some way ++ sentinel closed) (provider_end r.wire)) r)
received-open r (m ∷ ms) closed c s k u = inl (record {
  way = ms;
  queue = ap (λ b. map some ms ++ sentinel b) (sym c);
  sent_all = s ∙ sym (append_assoc r.received (m ∷ []) ms);
  untold = u;
})
received-open r [] true c s k u =
    inr (record { closed = c; nothing = refl; sent_all = s ∙ append_nil r.received; told = refl })
received-open r [] false c s k u = k

provider_receives-IsKept :
    (r : Run)
    → IsKept r
    → IsKept (log_received (receive_from r.wire.a_to_b (provider_end r.wire)) r)
provider_receives-IsKept r (inl p) =
    subst (λ q. IsKept (log_received (receive_from q (provider_end r.wire)) r)) (sym p.queue)
      (received-open r p.way r.wire.a_closed refl p.sent_all (inl p) p.untold)
provider_receives-IsKept r (inr p) =
    subst (λ q. IsKept (log_received (receive_from q (provider_end r.wire)) r)) (sym p.nothing)
      (inr p)

call-IsKept : (c : Call) (r : Run) → IsKept r → IsKept (call c r)
unfolding call receive
call-IsKept (buyer_sends m) r k = buyer_sends-IsKept m r k
call-IsKept (provider_sends m) r k =
    same-IsKept r (with_provider (send m (provider_end r.wire)).1 r.wire)
      (inbound-send m (provider_end r.wire)) refl k
call-IsKept buyer_receives r k =
    same-IsKept r (with_buyer (receive_from r.wire.b_to_a (buyer_end r.wire)).1 r.wire)
      (out-receive_from r.wire.b_to_a (buyer_end r.wire)).0
      (out-receive_from r.wire.b_to_a (buyer_end r.wire)).1 k
call-IsKept provider_receives r k = provider_receives-IsKept r k
call-IsKept buyer_closes r k = buyer_closes-IsKept r k
call-IsKept provider_closes r k =
    same-IsKept r (with_provider (close (provider_end r.wire)) r.wire)
      (inbound-close (provider_end r.wire)) refl k

calls-IsKept : (cs : List Call) (r : Run) → IsKept r → IsKept (calls cs r)
unfolding calls
calls-IsKept [] r k = k
calls-IsKept (c ∷ cs) r k = calls-IsKept cs (call c r) (call-IsKept c r k)

-- What the provider's end has received, of a run.
abbrev pub IsDelivered : Run → Type 0
IsDelivered r =
    ((rest : List Object) × (r.sent ≡ r.received ++ rest)) × (r.told ≡ true → r.sent ≡ r.received)

IsDelivered-from : (r : Run) → IsKept r → IsDelivered r
IsDelivered-from r (inl p) = ((p.way, p.sent_all), λ t. cc (p.untold, t))
IsDelivered-from r (inr p) = (([], p.sent_all ∙ sym (append_nil r.received)), λ t. p.sent_all)

-- In every interleaving of calls of the two ends of a fresh pair, what the provider's end has
-- received is what the buyer's end has sent first, in order and once; and once the provider's end is
-- told of the closure, it has received all that was sent.
pub calls-IsDelivered : (cs : List Call) → IsDelivered (calls cs fresh)
calls-IsDelivered cs = IsDelivered-from (calls cs fresh) (
    calls-IsKept cs fresh (inl (record { way = []; queue = refl; sent_all = refl; untold = refl })))

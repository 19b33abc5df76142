-- ===== src/Transport/Calls.antt =====
-- Runs of the pair: calls of the two ends in any order, with what was sent and received.
use sdk_reference.Prelude.{
  ◌≡◌, refl, ap, Bool, true, false, Option, none, some, List, [], ◌∷◌, ◌++◌, if◌then◌else◌,
  Bool-cases, inl, inr,
}
use sdk_reference.Json.{Object}
use sdk_reference.Transport.{
  Endpoint, Answer, returns, transport_closed, waits, send, receive_from, receive, close, Wire,
  create_pair, buyer_end, provider_end, with_buyer, with_provider,
}

-- A call of either end.
pub data Call : Type 0 where
  buyer_sends provider_sends : Object → Call
  buyer_receives provider_receives buyer_closes provider_closes : Call

-- The pair, with what the buyer's end has sent and the provider's end has received, and whether
-- the provider's end has been told of the closure.
pub record Run : Type 0 where
  pub wire : Wire
  pub sent : List Object
  pub received : List Object
  pub told : Bool

abbrev pub log_sent : Object → Answer (Unit {0}) × Endpoint → Run → Run
log_sent m (returns u, e) r = record r { wire = with_buyer e r.wire; sent = r.sent ++ m ∷ [] }
log_sent m (transport_closed, e) r = record r { wire = with_buyer e r.wire }
log_sent m (waits, e) r = record r { wire = with_buyer e r.wire }

abbrev pub log_received : Answer Object × Endpoint → Run → Run
log_received (returns m, e) r = record r {
  wire = with_provider e r.wire;
  received = r.received ++ m ∷ [];
}
log_received (transport_closed, e) r = record r { wire = with_provider e r.wire; told = true }
log_received (waits, e) r = record r { wire = with_provider e r.wire }

unfoldable pub call : Call → Run → Run
call (buyer_sends m) r = log_sent m (send m (buyer_end r.wire)) r
call (provider_sends m) r = record r {
  wire = with_provider (send m (provider_end r.wire)).1 r.wire;
}
call buyer_receives r = record r { wire = with_buyer (receive (buyer_end r.wire)).1 r.wire }
call provider_receives r = log_received (receive (provider_end r.wire)) r
call buyer_closes r = record r { wire = with_buyer (close (buyer_end r.wire)) r.wire }
call provider_closes r = record r { wire = with_provider (close (provider_end r.wire)) r.wire }

unfoldable pub calls : List Call → Run → Run
calls [] r = r
calls (c ∷ cs) r = calls cs (call c r)

abbrev pub fresh : Run
fresh = record { wire = create_pair; sent = []; received = []; told = false }

pub send-open :
    (m : Object) (e : Endpoint)
    → e.closed ≡ false
    → send m e ≡ (returns tt, record e { outbound = e.outbound ++ some m ∷ [] })
unfolding send
send-open m e h =
    ap
      (λ b.
        if b
        then (transport_closed, e)
        else (returns tt, record e { outbound = e.outbound ++ some m ∷ [] }))
      h

pub send-closed : (m : Object) (e : Endpoint) → e.closed ≡ true → send m e ≡ (transport_closed, e)
unfolding send
send-closed m e h =
    ap
      (λ b.
        if b
        then (transport_closed, e)
        else (returns tt, record e { outbound = e.outbound ++ some m ∷ [] }))
      h

pub close-open :
    (e : Endpoint)
    → e.closed ≡ false
    → close e ≡ record e { outbound = e.outbound ++ none ∷ []; closed = true }
unfolding close
close-open e h =
    ap (λ b. if b then e else record e { outbound = e.outbound ++ none ∷ []; closed = true }) h

pub close-closed : (e : Endpoint) → e.closed ≡ true → close e ≡ e
unfolding close
close-closed e h =
    ap (λ b. if b then e else record e { outbound = e.outbound ++ none ∷ []; closed = true }) h

-- Sending and closing leave the other direction alone, and so does receiving.
pub inbound-send : (m : Object) (e : Endpoint) → (send m e).1.inbound ≡ e.inbound
inbound-send m e = elim (Bool-cases e.closed) [
  | inl h ↦ ap (λ x. x.1.inbound) (send-closed m e h)
  | inr h ↦ ap (λ x. x.1.inbound) (send-open m e h)
]

pub inbound-close : (e : Endpoint) → (close e).inbound ≡ e.inbound
inbound-close e = elim (Bool-cases e.closed) [
  | inl h ↦ ap (λ x. x.inbound) (close-closed e h)
  | inr h ↦ ap (λ x. x.inbound) (close-open e h)
]

pub out-receive_from :
    (q : List (Option Object)) (e : Endpoint)
    → ((receive_from q e).1.outbound ≡ e.outbound) × ((receive_from q e).1.closed ≡ e.closed)
out-receive_from [] e = (refl, refl)
out-receive_from (none ∷ rest) e = (refl, refl)
out-receive_from (some m ∷ rest) e = (refl, refl)

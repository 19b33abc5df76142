-- ===== src/Buyer/Reader.antt =====
-- The reader loop of src/acmp/buyer.py, seen from one request.
use sdk_reference.Prelude.{
  String, ◌≡◌, refl, sym, ap, ◌∙◌, inl, inr, Bool, true, false, not, ◌&&◌, Option, none, some, List,
  [], ◌∷◌, ◌==◌, eq_iff, eq_refl, if◌then◌else◌, arith, Bool-cases,
}
use mathlib.Core.Path.{subst}
use sdk_reference.Prelude.Dict.{lookup, lookup-insert}
use sdk_reference.Prelude.Sets.{has, discard, has-discard}
use sdk_reference.Json.{Json, null, bool, num, str, arr, obj, nil, cons, end, field, Object}
use sdk_reference.Exec.{ok-inj, bind-ok, ok, bind}
use sdk_reference.Buyer.{
  Future, waiting, resolved, Buyer, Called, settle, settle_at, resolve, response_id, resolve_id,
  dispatch_notification, is_some, read_message, read_all,
}

-- Whether the id of a message is the text of a request.
abbrev pub answers : String → Option Json → Bool
answers id (some (str s)) = s == id
answers id _ = false

-- The first message that carries an id.
unfoldable pub first_answer : String → List Object → Option Object
first_answer id [] = none
first_answer id (m ∷ ms) =
    let later = first_answer id ms in if answers id (lookup "id" m) then some m else later

abbrev pub awaited : Option Object → Future
awaited none = waiting
awaited (some m) = resolved m

abbrev is_key : Option String → String → Bool
is_key none id = false
is_key (some k) id = k == id

key-text :
    (s id : String) (oid : Option String) (b : Bool)
    → (id == "") ≡ false
    → (s == "") ≡ b
    → (if b then ok none else ok (some s)) ≡ ok oid
    → is_key oid id ≡ (s == id)
key-text s id oid true given empty h =
    ap (λ o. is_key o id) (sym (ok-inj h)) ∙ ground (arith, eq_iff s "", eq_iff s id, eq_iff id "")
key-text s id oid false given full h = ap (λ o. is_key o id) (sym (ok-inj h))

key-answers :
    (v : Option Json) (id : String) (oid : Option String)
    → (id == "") ≡ false
    → response_id v ≡ ok oid
    → is_key oid id ≡ answers id v
key-answers none id oid given h = ap (λ o. is_key o id) (sym (ok-inj h))
key-answers (some (str s)) id oid given h = key-text s id oid (s == "") given refl h
key-answers (some null) id oid given h = ap (λ o. is_key o id) (sym (ok-inj h))
key-answers (some (bool b)) id oid given h = ap (λ o. is_key o id) (sym (ok-inj h))
key-answers (some (num n)) id oid given h = ap (λ o. is_key o id) (sym (ok-inj h))
key-answers (some (arr nil)) id oid given h = ap (λ o. is_key o id) (sym (ok-inj h))
key-answers (some (arr (cons v vs))) id oid given h = cc
key-answers (some (obj end)) id oid given h = ap (λ o. is_key o id) (sym (ok-inj h))
key-answers (some (obj (field k v d))) id oid given h = cc

absent-answers : (v : Option Json) (id : String) → is_some v ≡ false → false ≡ answers id v
absent-answers none id h = refl
absent-answers (some v) id h = cc

-- What one message makes of the buyer, seen from one id.
abbrev Turns : String → Object → Buyer → Buyer → Type 0
Turns id m b b1 =
    (oid : Option String) × (b1 ≡ resolve_id oid m b) × (is_key oid id ≡ answers id (lookup "id" m))

turn-from :
    (id : String) (m : Object) (b b1 : Buyer) (called : List Called) (note : Bool)
    → (id == "") ≡ false
    → (not (is_some (lookup "id" m)) && is_some (lookup "method" m)) ≡ note
    → (if note
        then bind {B = List Called × Buyer} (dispatch_notification m b) (λ c. ok (c, b))
        else bind {B = List Called × Buyer}
            (response_id (lookup "id" m))
            (λ k. ok ([], resolve_id k m b)))
      ≡ ok (called, b1)
    → Turns id m b b1
turn-from id m b b1 called true given is_note h =
    let (c, done, same) = bind-ok (dispatch_notification m b) _ (called, b1) h in
    (none, sym (ap (λ x. x.1) (ok-inj same)), absent-answers (lookup "id" m) id (ground arith))
turn-from id m b b1 called false given is_note h =
    let (oid, read, same) = bind-ok (response_id (lookup "id" m)) _ (called, b1) h in
    (oid, sym (ap (λ x. x.1) (ok-inj same)), key-answers (lookup "id" m) id oid given read)

read_message-Turns :
    (id : String) (m : Object) (b b1 : Buyer) (called : List Called)
    → (id == "") ≡ false
    → read_message m b ≡ ok (called, b1)
    → Turns id m b b1
unfolding read_message
read_message-Turns id m b b1 called given h =
    turn-from id m b b1 called (not (is_some (lookup "id" m)) && is_some (lookup "method" m)) given
      refl h

-- The future of a request, and whether its id is in the table.
record Stands (id : String) (f : Future) (there : Bool) (b : Buyer) : Type 0 where
  future : lookup id b.futures ≡ some f
  entry : has id b.pending ≡ there

settle_at-other :
    (k id : String) (f : Future) (o : Option Future) (b : Buyer)
    → (k == id) ≡ false
    → (lookup id (settle_at k f o b).futures ≡ lookup id b.futures)
      × ((settle_at k f o b).pending ≡ b.pending)
settle_at-other k id f none b h = (refl, refl)
settle_at-other k id f (some g) b h = (lookup-insert k id (settle g f) b.futures ∙ rw h refl, refl)

resolve-other :
    (k id : String) (m : Object) (b : Buyer) (f : Future) (there : Bool)
    → (k == id) ≡ false
    → Stands id f there b
    → Stands id f there (resolve k m b)
unfolding resolve
resolve-other k id m b f there h p = elim (Bool-cases (has k b.pending)) [
  | inr absent ↦ rw absent p
  | inl present ↦
      let b' : Buyer = record b { pending = discard k b.pending } in
      let kept = settle_at-other k id (resolved m) (lookup k b.futures) b' h in
      rw present (record {
        future = kept.0 ∙ p.future;
        entry = ap (has id) kept.1 ∙ ground (arith, has-discard k id b.pending, p.entry);
      })
]

resolve-here :
    (id : String) (m : Object) (b : Buyer)
    → Stands id waiting true b
    → Stands id (resolved m) false (resolve id m b)
unfolding resolve
resolve-here id m b p = rw p.entry (
    rw p.future (record {
      future = lookup-insert id id (resolved m) b.futures ∙ rw (eq_refl id) refl;
      entry = ground (arith, has-discard id id b.pending, eq_refl id);
    }))

resolve-absent :
    (id : String) (m : Object) (b : Buyer) (f : Future)
    → Stands id f false b
    → Stands id f false (resolve id m b)
unfolding resolve
resolve-absent id m b f p = subst (Stands id f false) (sym (stays b _ p.entry)) p
  where
    stays : (b c : Buyer) → has id b.pending ≡ false → (if has id b.pending then c else b) ≡ b
    stays b c h = rw h refl

resolve-done :
    (k id : String) (m : Object) (b : Buyer) (f : Future)
    → Stands id f false b
    → Stands id f false (resolve k m b)
resolve-done k id m b f p = elim (Bool-cases (k == id)) [
  | inr other ↦ resolve-other k id m b f false other p
  | inl same ↦
      subst (λ x. Stands id f false (resolve x m b)) (sym ((eq_iff k id).0 same))
        (resolve-absent id m b f p)
]

resolve_id-done :
    (oid : Option String) (id : String) (m : Object) (b : Buyer) (f : Future)
    → Stands id f false b
    → Stands id f false (resolve_id oid m b)
resolve_id-done none id m b f p = p
resolve_id-done (some k) id m b f p = resolve-done k id m b f p

resolve_id-other :
    (oid : Option String) (id : String) (m : Object) (b : Buyer) (f : Future) (there : Bool)
    → is_key oid id ≡ false
    → Stands id f there b
    → Stands id f there (resolve_id oid m b)
resolve_id-other none id m b f there h p = p
resolve_id-other (some k) id m b f there h p = resolve-other k id m b f there h p

resolve_id-here :
    (oid : Option String) (id : String) (m : Object) (b : Buyer)
    → is_key oid id ≡ true
    → Stands id waiting true b
    → Stands id (resolved m) false (resolve_id oid m b)
resolve_id-here none id m b h p = cc
resolve_id-here (some k) id m b h p =
    subst (λ x. Stands id (resolved m) false (resolve x m b)) (sym ((eq_iff k id).0 h))
      (resolve-here id m b p)

read_all-done :
    (id : String) (ms : List Object) (b b' : Buyer) (called : List Called) (f : Future)
    → (id == "") ≡ false
    → read_all ms b ≡ ok (called, b')
    → Stands id f false b
    → Stands id f false b'
unfolding read_all
read_all-done id [] b b' called f given h p = subst (Stands id f false) (ap (λ x. x.1) (ok-inj h)) p
read_all-done id (m ∷ ms) b b' called f given h p =
    let ((c, b1), first, rest) = bind-ok (read_message m b) _ (called, b') h in
    let ((d, b2), later, last) = bind-ok (read_all ms b1) _ (called, b') rest in
    let (oid, same, k) = read_message-Turns id m b b1 c given first in
    let p1 : Stands id f false b1 =
      subst (Stands id f false) (sym same) (resolve_id-done oid id m b f p) in
    subst (Stands id f false) (ap (λ x. x.1) (ok-inj last))
      (read_all-done id ms b1 b2 d f given later p1)

abbrev is_none : Option Object → Bool
is_none none = true
is_none (some m) = false

read_all-Stands :
    (id : String) (ms : List Object) (b b' : Buyer) (called : List Called)
    → (id == "") ≡ false
    → read_all ms b ≡ ok (called, b')
    → Stands id waiting true b
    → Stands id (awaited (first_answer id ms)) (is_none (first_answer id ms)) b'
unfolding read_all first_answer
read_all-Stands id [] b b' called given h p =
    subst (Stands id waiting true) (ap (λ x. x.1) (ok-inj h)) p
read_all-Stands id (m ∷ ms) b b' called given h p =
    let ((c, b1), first, rest) = bind-ok (read_message m b) _ (called, b') h in
    let ((d, b2), later, last) = bind-ok (read_all ms b1) _ (called, b') rest in
    let (oid, same, k) = read_message-Turns id m b b1 c given first in
    let end : b2 ≡ b' = ap (λ x. x.1) (ok-inj last) in
    elim (Bool-cases (answers id (lookup "id" m))) [
      | inl mine ↦ rw mine (
          subst (Stands id (resolved m) false) end (
            read_all-done id ms b1 b2 d (resolved m) given later (
              subst (Stands id (resolved m) false) (sym same)
                (resolve_id-here oid id m b (k ∙ mine) p))))
      | inr other ↦ rw other (
          subst (Stands id (awaited (first_answer id ms)) (is_none (first_answer id ms))) end (
            read_all-Stands id ms b1 b2 d given later (
              subst (Stands id waiting true) (sym same)
                (resolve_id-other oid id m b waiting true (k ∙ other) p))))
    ]

-- While the reader loop is not stopped by a malformed message, the future of a request that waits
-- under a non-empty id is resolved with the first message that carries this id, and by no other
-- message, however many requests wait; without such a message it still waits.
pub read_all-first_answer :
    (id : String) (ms : List Object) (b b' : Buyer) (called : List Called)
    → (id == "") ≡ false
    → has id b.pending ≡ true
    → lookup id b.futures ≡ some waiting
    → read_all ms b ≡ ok (called, b')
    → lookup id b'.futures ≡ some (awaited (first_answer id ms))
read_all-first_answer id ms b b' called given there w h =
    (read_all-Stands id ms b b' called given h (record { future = w; entry = there })).future

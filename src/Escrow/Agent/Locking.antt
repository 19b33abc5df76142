-- ===== src/Escrow/Agent/Locking.antt =====
-- `escrowLock` of src/acmp/escrow.py: what it takes and opens, and its retries.
use sdk_reference.Prelude.{
  String, ◌≡◌, refl, Bool, true, false, Option, some, ◌==◌, ◌⊎◌, inl, inr, if◌then◌else◌,
}
use sdk_reference.Prelude.Int.{ℤ, pos, ◌-ℤ◌, ◌≤ℤ◌, ◌<ℤ◌, ltb_ℤ}
use sdk_reference.Prelude.Dict.{lookup, lookup-insert}
use sdk_reference.Json.{Object}
use sdk_reference.Exec.{ok, raised}
use sdk_reference.Exec.Worded.{Worded, Worded-ok, Worded-continue, Worded-raised}
use sdk_reference.Access.{as_str, item_as}
use sdk_reference.Errors.{EscrowErrorCode}
use sdk_reference.Escrow.{new_escrow}
use sdk_reference.Escrow.Ledger.{Ledger, balance, debit, escrow_error}
use sdk_reference.Escrow.Ledger.Laws.{debit_ok, balance-debit}
use sdk_reference.Escrow.Cell.{Moment, require_positive_amount}
use sdk_reference.Escrow.Operations.Worded.{
  message-escrow_error, Worded-guard, Worded-get, Worded-as_num, Worded-as_str, Worded-item_num,
}
use sdk_reference.Prelude.{List}
use sdk_reference.Prelude.Sets.{Each-any}
use sdk_reference.Exec.{lift-keeps}
use sdk_reference.Escrow.{Cached}
use sdk_reference.Escrow.Operations.Mutation.{operation}
use sdk_reference.Escrow.Agent.{Agent, lock_cache, replay, do_lock, handle_lock}
use sdk_reference.Escrow.Agent.Dispatch.{Printing, Arrival, serve}
use sdk_reference.Escrow.Agent.Handling.{
  IsFunded, lock_in, do_lock-keeps, handle_op-keeps, handle_status-keeps,
}
use sdk_reference.Escrow.Agent.Serving.{AllKeep, serve-keeps}
use sdk_reference.Escrow.Agent.Caching.{
  Settled, Repeats, Recalled, run_cached-Recalled, run_cached-lookup, run_cached-found,
}

-- A lock that went through.
pub record Opened (id party : String) (a b : Agent) : Type 0 where
  pub amount : ℤ
  pub until : ℤ
  pub window : ℤ
  pub payee : Option String
  pub positive : pos 0 <ℤ amount
  pub covered : amount ≤ℤ balance a.ledger party
  pub taken :
      (x : String)
      → balance b.ledger x
        ≡ (if party == x then balance a.ledger party -ℤ amount else balance a.ledger x)
  pub opened :
      (x : String)
      → lookup x b.escrows ≡ (
          if id == x
          then some (new_escrow id party amount until window payee)
          else lookup x a.escrows)
  pub same_cache : b.lock_ops ≡ a.lock_ops

lock_in-Opened :
    (at : Moment) (party : String) (a : Agent) (amount until window : ℤ) (payee : Option String)
    (l : Ledger)
    → IsFunded party amount a.ledger l
    → Opened at.fresh_id party a
        (lock_in at.fresh_id (new_escrow at.fresh_id party amount until window payee) l a)
lock_in-Opened at party a amount until window payee l f = record {
  amount = amount;
  until = until;
  window = window;
  payee = payee;
  positive = f.positive;
  covered = (debit_ok party amount a.ledger f.debited).0;
  taken = λ x. balance-debit party amount a.ledger x f.debited;
  opened = λ x.
      lookup-insert at.fresh_id x (new_escrow at.fresh_id party amount until window payee)
        a.escrows;
  same_cache = refl;
}

-- Whatever the request, a lock either leaves the agent as it was or takes a positive amount, covered
-- by the party's balance, from that party's account and from no other, and opens under the new id an
-- escrow of exactly that amount for that buyer, touching no escrow under another id.
pub do_lock-Opened :
    (at : Moment) (party : String) (params : Object) (a : Agent)
    → let b = (do_lock at party params a).1 in (b ≡ a) ⊎ Opened at.fresh_id party a b
do_lock-Opened at party params a =
    do_lock-keeps (λ b. (b ≡ a) ⊎ Opened at.fresh_id party a b) at party params a (inl refl)
      (λ amount until window payee l f.
        inr (lock_in-Opened at party a amount until window payee l f))

Worded-if :
    {A : Type 0} (b : Bool) (code : EscrowErrorCode) (d : Object) (v : A)
    → Worded (if b then raised (escrow_error code d) else ok v)
Worded-if true code d v = Worded-raised (escrow_error code d) (message-escrow_error code d)
Worded-if false code d v = Worded-ok v

Worded-debit : (account : String) (n : ℤ) (l : Ledger) → Worded (debit account n l)
unfolding debit
Worded-debit account n l = Worded-if (ltb_ℤ (balance l account) n) _ _ _

ruleset lock_rules = (
  Worded-ok, Worded-continue, Worded-guard, Worded-item_num, Worded-get, Worded-as_num,
  Worded-as_str, Worded-debit,
)

do_lock-Worded :
    (at : Moment) (party : String) (params : Object) (a : Agent)
    → Worded (do_lock at party params a).0
unfolding do_lock require_positive_amount
do_lock-Worded at party params a = search lock_rules depth 20

-- The outcome of a lock, in the agent's cache.
module _ (op_ref : String) (c : Cached) where
  abbrev KeepsLock : Agent → Type 0
  KeepsLock a = lookup op_ref a.lock_ops ≡ some c

  handle_lock-KeepsLock :
      (at : Moment) (party : String) (params : Object) (a : Agent)
      → KeepsLock a
      → KeepsLock (handle_lock at party params a).1
  unfolding handle_lock
  handle_lock-KeepsLock at party params a h =
      lift-keeps KeepsLock (item_as as_str params "op_ref") _ a h λ key _.
        run_cached-lookup lock_cache (λ d s. refl) key (do_lock at party params) a
          (do_lock-keeps (λ b. b.lock_ops ≡ a.lock_ops) at party params a refl
            (λ amount until window payee l f. refl))
          op_ref c h

  handlers-KeepsLock : (at : Moment) (party : String) → AllKeep KeepsLock at party
  handlers-KeepsLock at party = record {
    lock = handle_lock-KeepsLock at party;
    mutate = λ m params a h.
        handle_op-keeps KeepsLock a h (operation m at party params) params (λ id e found. h);
    status = λ params a h. handle_status-keeps KeepsLock at party params a h (λ id e found. h);
  }

  -- The reply to a lock request whose outcome is there.
  handle_lock-found :
      (at : Moment) (party : String) (params : Object) (a : Agent)
      → item_as as_str params "op_ref" ≡ ok op_ref
      → KeepsLock a
      → handle_lock at party params a ≡ (replay c, a)
  unfolding handle_lock
  handle_lock-found at party params a named h =
      rw named (run_cached-found lock_cache op_ref (do_lock at party params) a c h)

module _ (at : Moment) (party op_ref : String) (params : Object) (a : Agent)
    (named : item_as as_str params "op_ref" ≡ ok op_ref) where
  handle_lock-Recalled :
      let r = handle_lock at party params a in
      Settled r.0 → Recalled r.0 (lookup op_ref r.1.lock_ops)
  unfolding handle_lock
  handle_lock-Recalled = rw named (
      run_cached-Recalled lock_cache (λ d s. refl) op_ref (do_lock at party params) a
        (do_lock-Worded at party params a))

-- A lock request that ended with a result or an `AcmpError` is settled for good: after whatever
-- further arrivals, a request with the same `op_ref`, whoever sends it, whenever, and whatever else
-- it says, gets the same result or error object and leaves the agent exactly as it finds it, so that
-- it neither opens an escrow nor debits an account.
pub handle_lock-again :
    (print : Printing) (at at' : Moment) (party party' op_ref : String) (params params' : Object)
    → item_as as_str params "op_ref" ≡ ok op_ref
    → item_as as_str params' "op_ref" ≡ ok op_ref
    → (a : Agent)
    → let r = handle_lock at party params a in
      Settled r.0
      → (ms : List Arrival)
      → let a' = (serve print ms r.1).1 in Repeats (r.0, a') (handle_lock at' party' params' a')
handle_lock-again print at at' party party' op_ref params params' named named' a settled ms =
    let r = handle_lock at party params a in
    let seen = handle_lock-Recalled at party op_ref params a named settled in
    let kept =
      serve-keeps (KeepsLock op_ref seen.cached) print (λ m. Unit)
        (λ m _. handlers-KeepsLock op_ref seen.cached m.at m.party) ms (Each-any ms) r.1
        seen.there in
    rw (handle_lock-found op_ref seen.cached at' party' params' (serve print ms r.1).1 named' kept)
      (record { answer = seen.answer; state = refl })

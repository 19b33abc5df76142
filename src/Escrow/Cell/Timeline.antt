-- ===== src/Escrow/Cell/Timeline.antt =====
-- `_effective_state` as a function of the clock: when it acts, and what it pays.
use Prim.Native.String.{◌++◌}
use sdk_reference.Prelude.{
  String, ◌≡◌, ◌≢◌, refl, ap, true, false, Option, none, some, ◌==◌, if◌then◌else◌, arith,
  Bool-cases, inl, inr, ◌∷◌,
}
use sdk_reference.Prelude.Int.{ℤ, pos, ◌+ℤ◌, ◌≤ℤ◌, ◌<ℤ◌, int_laws, leb_ℤ, ltb_ℤ}
use sdk_reference.Exec.{ok}
use sdk_reference.Escrow.{
  EscrowState, is_closed, opened, claimed, disputed, closed, Claim, Escrow, remaining,
}
use sdk_reference.Escrow.Ledger.{Ledger, balance, was_paid, payout}
use sdk_reference.Escrow.Ledger.Laws.{balance-credit, payout_again}
use sdk_reference.Escrow.Cell.{
  Cell, window_over, settled_state, release_funds, auto_release, auto_reclaim_expiry, resolve_claim,
  resolve_expiry, effective_state,
}
use sdk_reference.Escrow.Cell.Sound.{IsSound, resolve_claim_ok, resolve_claim-IsSound}
use sdk_reference.Escrow.Cell.Steps.{IsDue}
use sdk_reference.Escrow.Cell.Worth.{FreshExpiry, remaining-release_funds}

-- No transition is due: an open escrow before its expiry, a claimed one inside its window.
abbrev pub Quiet : EscrowState → Option Claim → ℤ → ℤ → Type 0
Quiet opened k valid_until now = now <ℤ valid_until
Quiet claimed none valid_until now = Unit
Quiet claimed (some k) valid_until now = now <ℤ k.window_ends_ms
Quiet disputed k valid_until now = Unit
Quiet closed k valid_until now = Unit

abbrev pub IsQuiet : ℤ → Escrow → Type 0
IsQuiet now e = Quiet e.state e.claim e.valid_until_ms now

-- While nothing is due, time does nothing: a pending claim inside its window or a dispute holds the
-- escrow even past its expiry.
pub effective_state_quiet :
    (now : ℤ) (c : Cell) → IsQuiet now c.esc → effective_state now c ≡ (ok tt, c)
unfolding effective_state resolve_claim resolve_expiry
effective_state_quiet now c q = ground (arith, q)

-- A claim that the first step leaves is inside its window.
NotDue : ℤ → Escrow → Type 0
NotDue now e = e.state ≡ claimed → window_over now e.claim ≡ false

resolve_claim-NotDue : (now : ℤ) (c : Cell) → IsSound c.esc → NotDue now (resolve_claim now c).1.esc
unfolding NotDue resolve_claim auto_release release_funds
resolve_claim-NotDue now c s h = ground (arith, s.shape)

resolve_expiry-IsQuiet :
    (now : ℤ) (c : Cell)
    → IsSound c.esc
    → NotDue now c.esc
    → IsQuiet now (resolve_expiry now c).1.esc
unfolding NotDue resolve_expiry auto_reclaim_expiry
resolve_expiry-IsQuiet now c s h = ground (arith, s.shape)

-- Once time is resolved, nothing more is due at the same reading of the clock.
pub effective_state-IsQuiet :
    (now : ℤ) (c : Cell) → IsSound c.esc → IsQuiet now (effective_state now c).1.esc
unfolding effective_state
effective_state-IsQuiet now c s = elim (Bool-cases (is_closed c.esc.state)) [
  | inl w ↦ rw w (ground arith)
  | inr w ↦
      rw (w, resolve_claim_ok now c s)
        (resolve_expiry-IsQuiet now (resolve_claim now c).1 (resolve_claim-IsSound now c s)
          (resolve_claim-NotDue now c s))
]

-- On a sound escrow, resolving time twice at the same reading of the clock is the same as once.
pub effective_state-again :
    (now : ℤ) (c : Cell)
    → IsSound c.esc
    → let c' = (effective_state now c).1 in effective_state now c' ≡ (ok tt, c')
effective_state-again now c s =
    effective_state_quiet now (effective_state now c).1 (effective_state-IsQuiet now c s)

-- What a new payout does to each account.
balance-payout :
    (id key account : String) (n : ℤ) (l : Ledger) (a : String)
    → was_paid id key l.paid ≡ false
    → balance (payout id key account n l).0 a
      ≡ (if account == a then balance l account +ℤ n else balance l a)
unfolding payout balance
balance-payout id key account n l a fresh =
    rw fresh (unfold balance in balance-credit account n (record l { paid = (id, key) ∷ l.paid }) a)

-- What remains of an escrow once a pending claim is taken off.
abbrev pub state_with : ℤ → EscrowState
state_with rest = if leb_ℤ rest (pos 0) then closed else opened

-- The payee's side of a due claim.
pub record Settles (k : Claim) (payee : String) (c d : Cell) : Type 0 where
  pub paid :
      (a : String)
      → balance d.ledger a
        ≡ (if payee == a then balance c.ledger payee +ℤ k.amount_cu else balance c.ledger a)
  pub taken : remaining d.esc +ℤ k.amount_cu ≡ remaining c.esc
  pub resolved : d.esc.claim ≡ none
  pub in_state : d.esc.state ≡ state_with (remaining d.esc)

-- A due claim before the expiry is released and nothing else happens.
effective_state_due :
    (now : ℤ) (c : Cell) (k : Claim) (payee : String)
    → IsDue now c.esc k payee
    → now <ℤ c.esc.valid_until_ms
    → (effective_state now c).1 ≡ (auto_release (some k) (some payee) c).1
unfolding effective_state resolve_claim resolve_expiry auto_release release_funds settled_state
effective_state_due now c k payee due early =
    rw (due.in_state, due.pending, due.bound) (ground (arith, due.over))

effective_state_overdue :
    (now : ℤ) (c : Cell)
    → IsSound c.esc
    → c.esc.state ≡ opened
    → c.esc.valid_until_ms ≤ℤ now
    → (effective_state now c).1 ≡ (auto_reclaim_expiry c).1
unfolding effective_state resolve_claim resolve_expiry auto_reclaim_expiry
effective_state_overdue now c s h over = ground (arith, s.shape)

-- When a pending claim is covered and its window is over, before the escrow's expiry and with the
-- claim's task id not yet paid out automatically, the resolution of time pays the payee exactly the
-- claimed amount and no one else anything, takes it off the remainder, drops the claim, and leaves
-- the escrow open if something remains, else closed.
pub effective_state-Settles :
    (now : ℤ) (c : Cell) (k : Claim) (payee : String)
    → IsDue now c.esc k payee
    → now <ℤ c.esc.valid_until_ms
    → was_paid c.esc.escrow_id ("auto_release:" ++ k.task_id) c.ledger.paid ≡ false
    → Settles k payee c (effective_state now c).1
unfolding auto_release release_funds remaining
effective_state-Settles now c k payee due early fresh =
    rw (effective_state_due now c k payee due early) (record {
      paid = λ a.
          balance-payout c.esc.escrow_id ("auto_release:" ++ k.task_id) payee k.amount_cu c.ledger a
            fresh;
      taken = remaining-release_funds k.amount_cu c.esc none c.esc.payee_id;
      resolved = refl;
      in_state = unfold settled_state in refl;
    })

-- The buyer's side of an expiry.
pub record Refunds (c d : Cell) : Type 0 where
  pub paid :
      (a : String)
      → balance d.ledger a ≡ (
          if c.esc.buyer_id == a
          then balance c.ledger c.esc.buyer_id +ℤ remaining c.esc
          else balance c.ledger a)
  pub nothing_left : remaining d.esc ≡ pos 0
  pub in_state : d.esc.state ≡ closed
  pub marked : d.esc.expired ≡ true

left_over :
    (c : Cell) → IsSound c.esc → c.esc.state ≡ opened → ltb_ℤ (pos 0) (remaining c.esc) ≡ true
left_over c s h = ground (arith, s.shape)

-- On a sound open escrow past its expiry, with the expiry's payout not yet made, the resolution of
-- time gives the buyer exactly the remainder and no one else anything, and closes the escrow as
-- expired with nothing remaining.
pub effective_state-Refunds :
    (now : ℤ) (c : Cell)
    → IsSound c.esc
    → c.esc.state ≡ opened
    → c.esc.valid_until_ms ≤ℤ now
    → FreshExpiry c
    → Refunds c (effective_state now c).1
unfolding auto_reclaim_expiry
effective_state-Refunds now c s h over fresh = rw (effective_state_overdue now c s h over) (record {
  paid = λ a. rw (left_over c s h) (
      balance-payout c.esc.escrow_id "expiry_reclaim" c.esc.buyer_id (remaining c.esc) c.ledger a
        fresh);
  nothing_left = unfold remaining in grind int_laws;
  in_state = refl;
  marked = refl;
})

-- A second claim under a task id that was already paid out automatically: when its window is over,
-- before the expiry, the amount leaves the escrow's remainder and no account receives it.
pub effective_state_lost :
    (now : ℤ) (c : Cell) (k : Claim) (payee : String)
    → IsDue now c.esc k payee
    → now <ℤ c.esc.valid_until_ms
    → was_paid c.esc.escrow_id ("auto_release:" ++ k.task_id) c.ledger.paid ≡ true
    → let d = (effective_state now c).1 in
      (d.ledger ≡ c.ledger) × (remaining d.esc +ℤ k.amount_cu ≡ remaining c.esc)
unfolding auto_release
effective_state_lost now c k payee due early paid =
    rw (effective_state_due now c k payee due early) (
      ap (λ r. r.0)
          (payout_again c.esc.escrow_id ("auto_release:" ++ k.task_id) payee k.amount_cu c.ledger
            paid),
      remaining-release_funds k.amount_cu c.esc none c.esc.payee_id,
    )

-- After its window a claim is gone, whatever else happened.
resolve_claim_past_window :
    (now : ℤ) (c : Cell) (k : Claim)
    → IsSound c.esc
    → c.esc.claim ≡ some k
    → k.window_ends_ms ≤ℤ now
    → (resolve_claim now c).1.esc.state ≢ claimed
unfolding resolve_claim auto_release release_funds settled_state
resolve_claim_past_window now c k s pending over h = ground (arith, s.shape)

resolve_expiry-state :
    (now : ℤ) (c : Cell) → c.esc.state ≢ claimed → (resolve_expiry now c).1.esc.state ≢ claimed
unfolding resolve_expiry auto_reclaim_expiry
resolve_expiry-state now c n h = ground arith

pub effective_state_past_window :
    (now : ℤ) (c : Cell) (k : Claim)
    → IsSound c.esc
    → c.esc.claim ≡ some k
    → k.window_ends_ms ≤ℤ now
    → (effective_state now c).1.esc.state ≢ claimed
unfolding effective_state
effective_state_past_window now c k s pending over = elim (Bool-cases (is_closed c.esc.state)) [
  | inl w ↦ rw w (λ h. ground arith)
  | inr w ↦
      rw (w, resolve_claim_ok now c s)
        (resolve_expiry-state now (resolve_claim now c).1
          (resolve_claim_past_window now c k s pending over))
]

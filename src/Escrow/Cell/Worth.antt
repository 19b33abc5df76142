-- ===== src/Escrow/Cell/Worth.antt =====
-- The money that one escrow and the ledger hold together, while time is resolved.
use Prim.Native.String.{◌++◌}
use sdk_reference.Prelude.{
  String, ◌≡◌, refl, true, false, Option, none, some, List, eq_iff, ◌∙◌, arith,
}
use sdk_reference.Prelude.Int.{ℤ, pos, ◌+ℤ◌, ◌≤ℤ◌, ◌<ℤ◌, int_laws}
use sdk_reference.Escrow.{Claim, Escrow, remaining}
use sdk_reference.Escrow.Ledger.{Ledger, was_paid, payout}
use sdk_reference.Escrow.Ledger.Laws.{
  total_balance, payout_bound, payout_fresh, payout_again, was_paid-payout,
}
use sdk_reference.Prelude.Text.{auto_release-ne-expiry}
use sdk_reference.Escrow.Cell.{
  Cell, release_funds, auto_release, auto_reclaim_expiry, resolve_claim, effective_state,
}
use sdk_reference.Escrow.Cell.Sound.{IsSound}
use sdk_reference.Escrow.Cell.Steps.{resolve_claim-keeps, effective_state-keeps}

-- The accounts and the undistributed remainder.
unfoldable pub worth : Cell → ℤ
worth c = total_balance c.ledger +ℤ remaining c.esc

-- A release takes its amount off the remainder, whatever it does to the claim and the payee.
pub remaining-release_funds :
    (n : ℤ) (e : Escrow) (k : Option Claim) (payee : Option String)
    → remaining (release_funds n (record e { claim = k; payee_id = payee })) +ℤ n ≡ remaining e
unfolding remaining release_funds
remaining-release_funds n e k payee = grind int_laws

module _ (k : Claim) (payee : String) (c : Cell) where
  abbrev auto_paid : Ledger
  auto_paid = (payout c.esc.escrow_id ("auto_release:" ++ k.task_id) payee k.amount_cu c.ledger).0

  -- The escrow's remainder falls by the claim; what the ledger gains decides the rest.
  worth-auto_release :
      worth (auto_release (some k) (some payee) c).1 +ℤ total_balance c.ledger +ℤ k.amount_cu
      ≡ worth c +ℤ total_balance auto_paid
  unfolding worth auto_release
  worth-auto_release =
      grind (int_laws, remaining-release_funds k.amount_cu c.esc none c.esc.payee_id)

  auto_release-worth_le :
      pos 0 <ℤ k.amount_cu → worth (auto_release (some k) (some payee) c).1 ≤ℤ worth c
  auto_release-worth_le h = grind (
    int_laws,
    worth-auto_release,
    payout_bound c.esc.escrow_id ("auto_release:" ++ k.task_id) payee k.amount_cu c.ledger,
  )

  auto_release-worth :
      was_paid c.esc.escrow_id ("auto_release:" ++ k.task_id) c.ledger.paid ≡ false
      → worth (auto_release (some k) (some payee) c).1 ≡ worth c
  auto_release-worth fresh = grind (
    int_laws,
    worth-auto_release,
    payout_fresh c.esc.escrow_id ("auto_release:" ++ k.task_id) payee k.amount_cu c.ledger fresh,
  )

  -- A second automatic release under one task id pays nobody.
  auto_release-worth_lost :
      was_paid c.esc.escrow_id ("auto_release:" ++ k.task_id) c.ledger.paid ≡ true
      → worth (auto_release (some k) (some payee) c).1 +ℤ k.amount_cu ≡ worth c
  auto_release-worth_lost again = grind (
    int_laws,
    worth-auto_release,
    payout_again c.esc.escrow_id ("auto_release:" ++ k.task_id) payee k.amount_cu c.ledger again,
  )

-- No claim of this escrow under the pending claim's task id has been released automatically.
abbrev pub FreshTask : Option Claim → String → List (String × String) → Type 0
FreshTask none id paid = Unit
FreshTask (some k) id paid = was_paid id ("auto_release:" ++ k.task_id) paid ≡ false

abbrev pub FreshExpiry : Cell → Type 0
FreshExpiry c = was_paid c.esc.escrow_id "expiry_reclaim" c.ledger.paid ≡ false

module _ (c : Cell) where
  auto_reclaim_expiry-worth_le :
      pos 0 <ℤ remaining c.esc → worth (auto_reclaim_expiry c).1 ≤ℤ worth c
  unfolding auto_reclaim_expiry worth remaining
  auto_reclaim_expiry-worth_le h = grind (
    int_laws,
    payout_bound c.esc.escrow_id "expiry_reclaim" c.esc.buyer_id (remaining c.esc) c.ledger,
  )

  auto_reclaim_expiry-worth :
      pos 0 <ℤ remaining c.esc → FreshExpiry c → worth (auto_reclaim_expiry c).1 ≡ worth c
  unfolding auto_reclaim_expiry worth remaining
  auto_reclaim_expiry-worth h fresh = grind (
    int_laws,
    payout_fresh c.esc.escrow_id "expiry_reclaim" c.esc.buyer_id (remaining c.esc) c.ledger fresh,
  )

-- An automatic release leaves the expiry's payout open.
auto_release-FreshExpiry :
    (k : Claim) (payee : String) (c : Cell)
    → FreshExpiry c
    → FreshExpiry (auto_release (some k) (some payee) c).1
unfolding auto_release release_funds
auto_release-FreshExpiry k payee c h = rw was_paid-payout (
    ground (
      arith,
      eq_iff ("auto_release:" ++ k.task_id) "expiry_reclaim",
      auto_release-ne-expiry k.task_id,
    ))

module _ (now : ℤ) (c : Cell) (s : IsSound c.esc) where
  -- Time never creates money.
  pub effective_state-worth_le : worth (effective_state now c).1 ≤ℤ worth c
  effective_state-worth_le =
      effective_state-keeps now c s (λ d. worth d ≤ℤ worth c) (omega arith)
        (λ k payee due. auto_release-worth_le k payee c due.positive)
        (λ d e p sd over. omega (arith, auto_reclaim_expiry-worth_le d over.positive))

  -- Nor does it lose any, if both payouts are new.
  pub effective_state-worth :
      FreshTask c.esc.claim c.esc.escrow_id c.ledger.paid
      → FreshExpiry c
      → worth (effective_state now c).1 ≡ worth c
  effective_state-worth task expiry =
      effective_state-keeps now c s (λ d. worth d ≡ worth c) refl
        (λ k payee due. auto_release-worth k payee c (rw due.pending at task))
        (λ d e p sd over. auto_reclaim_expiry-worth d over.positive (rw e still_fresh) ∙ p)
    where
      still_fresh : FreshExpiry (resolve_claim now c).1
      still_fresh =
          resolve_claim-keeps now c s FreshExpiry expiry
            (λ k payee due. auto_release-FreshExpiry k payee c expiry)

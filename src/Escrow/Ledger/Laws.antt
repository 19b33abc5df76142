-- ===== src/Escrow/Ledger/Laws.antt =====
-- The ledger as a sum of money: what a credit, a debit and a payout change.
use sdk_reference.Prelude.{
  ◌&&◌, ◌||◌, eq_iff, String, ◌≡◌, true, false, ◌∷◌, ◌==◌, arith, Bool-cases, inl, inr,
  if◌then◌else◌,
}
use sdk_reference.Prelude.Int.{ℤ, pos, ◌+ℤ◌, ◌-ℤ◌, ◌≤ℤ◌, int_laws}
use sdk_reference.Prelude.Dict.{lookup, insert, lookup-insert, total, total-insert_any}
use sdk_reference.Exec.{ok}
use sdk_reference.Escrow.Ledger.{Ledger, or_zero, balance, credit, debit, was_paid, payout}

abbrev itself : ℤ → ℤ
itself n = n

-- The money in all accounts.
unfoldable pub total_balance : Ledger → ℤ
total_balance l = total itself l.balances

-- No account is overdrawn.
pub record IsSolvent (l : Ledger) : Type 0 where
  pub at_account : (a : String) → pos 0 ≤ℤ balance l a

pub balance-credit :
    (account : String) (n : ℤ) (l : Ledger) (a : String)
    → balance (credit account n l) a
      ≡ (if account == a then balance l account +ℤ n else balance l a)
unfolding balance credit
balance-credit account n l a = rw lookup-insert (ground arith)

pub total_balance-credit :
    (account : String) (n : ℤ) (l : Ledger)
    → total_balance (credit account n l) ≡ total_balance l +ℤ n
unfolding total_balance credit balance
total_balance-credit account n l = grind (
  int_laws,
  total-insert_any itself account (or_zero (lookup account l.balances) +ℤ n) l.balances,
)

-- A debit goes through only if the account covers it.
pub debit_ok :
    (account : String) (n : ℤ) (l : Ledger) {l' : Ledger}
    → debit account n l ≡ ok l'
    → (n ≤ℤ balance l account)
      × (l' ≡ record l { balances = insert account (balance l account -ℤ n) l.balances })
unfolding debit
debit_ok account n l h = ground arith

pub total_balance-debit :
    (account : String) (n : ℤ) (l : Ledger) {l' : Ledger}
    → debit account n l ≡ ok l'
    → total_balance l' +ℤ n ≡ total_balance l
unfolding total_balance balance
total_balance-debit account n l h = rw (debit_ok account n l h).1 (
    grind (
      int_laws,
      total-insert_any itself account (or_zero (lookup account l.balances) -ℤ n) l.balances,
    ))

pub balance-debit :
    (account : String) (n : ℤ) (l : Ledger) {l' : Ledger} (a : String)
    → debit account n l ≡ ok l'
    → balance l' a ≡ (if account == a then balance l account -ℤ n else balance l a)
unfolding balance
balance-debit account n l a h = rw ((debit_ok account n l h).1, lookup-insert) (ground arith)

pub debit-IsSolvent :
    (account : String) (n : ℤ) (l : Ledger) {l' : Ledger}
    → debit account n l ≡ ok l'
    → IsSolvent l
    → IsSolvent l'
debit-IsSolvent account n l h s = record {
  at_account = λ a.
      rw (balance-debit account n l a h)
        (grind (int_laws, (debit_ok account n l h).0, s.at_account a));
}

pub credit-IsSolvent :
    (account : String) (n : ℤ) (l : Ledger)
    → pos 0 ≤ℤ n
    → IsSolvent l
    → IsSolvent (credit account n l)
credit-IsSolvent account n l h s = record {
  at_account = λ a. rw balance-credit (grind (int_laws, s.at_account account, s.at_account a));
}

pub payout_fresh :
    (id transition account : String) (n : ℤ) (l : Ledger)
    → was_paid id transition l.paid ≡ false
    → total_balance (payout id transition account n l).0 ≡ total_balance l +ℤ n
unfolding payout total_balance
payout_fresh id transition account n l h =
    rw h (total_balance-credit account n (record l { paid = (id, transition) ∷ l.paid }))

pub payout_again :
    (id transition account : String) (n : ℤ) (l : Ledger)
    → was_paid id transition l.paid ≡ true
    → payout id transition account n l ≡ (l, false)
unfolding payout
payout_again id transition account n l h = rw h

pub payout-IsSolvent :
    (id transition account : String) (n : ℤ) (l : Ledger)
    → pos 0 ≤ℤ n
    → IsSolvent l
    → IsSolvent (payout id transition account n l).0
unfolding payout
payout-IsSolvent id transition account n l h s = elim (Bool-cases (was_paid id transition l.paid)) [
  | inl again ↦ rw again s
  | inr fresh ↦ rw fresh (
      credit-IsSolvent account n (record l { paid = (id, transition) ∷ l.paid }) h
        (record { at_account = λ a. unfold balance in s.at_account a }))
]

-- A payout moves the amount or nothing.
pub payout_bound :
    (id transition account : String) (n : ℤ) (l : Ledger)
    → pos 0 ≤ℤ n
    → total_balance (payout id transition account n l).0 ≤ℤ total_balance l +ℤ n
payout_bound id transition account n l h = elim (Bool-cases (was_paid id transition l.paid)) [
  | inl again ↦ rw (payout_again id transition account n l again) (grind int_laws)
  | inr fresh ↦ rw (payout_fresh id transition account n l fresh) (grind int_laws)
]

-- Afterwards exactly one more transition counts as paid, if it did not before.
pub was_paid-payout :
    (id transition account : String) (n : ℤ) (l : Ledger) (i t : String)
    → was_paid i t (payout id transition account n l).0.paid
      ≡ ((id == i && transition == t) || was_paid i t l.paid)
unfolding payout was_paid credit
was_paid-payout id transition account n l i t =
    ground (arith, eq_iff id i, eq_iff transition t, same_pair)
  where
    same_pair :
        was_paid id transition l.paid ≡ true → id ≡ i → transition ≡ t → was_paid i t l.paid ≡ true
    same_pair h p q = rw (← p, ← q) h

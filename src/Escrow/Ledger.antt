-- ===== src/Escrow/Ledger.antt =====
-- `CreditLedger` of src/acmp/escrow.py: account balances, and the payouts made so far.
pub mod Laws
use sdk_reference.Prelude.{
  String, Bool, true, false, Option, none, some, List, [], ◌∷◌, ◌==◌, ◌&&◌, ◌||◌, if◌then◌else◌,
}
use sdk_reference.Prelude.Int.{ℤ, pos, ◌+ℤ◌, ◌-ℤ◌, ltb_ℤ}
use sdk_reference.Prelude.Dict.{Dict, lookup, insert}
use sdk_reference.Json.{num, str, Object}
use sdk_reference.Errors.{AcmpError, acmp_error, escrow, EscrowErrorCode}
use sdk_reference.Exec.{Outcome, ok, raised}

pub record Ledger : Type 0 where
  pub balances : Dict ℤ
  pub paid : List (String × String)

abbrev pub no_ledger : Ledger
no_ledger = record { balances = []; paid = [] }

-- An `AcmpError` of the escrow table with a `data` object.
abbrev pub escrow_error : EscrowErrorCode → Object → AcmpError
escrow_error code details = acmp_error (escrow code) none (some details)

abbrev pub or_zero : Option ℤ → ℤ
or_zero none = pos 0
or_zero (some n) = n

unfoldable pub balance : Ledger → String → ℤ
balance l account = or_zero (lookup account l.balances)

unfoldable pub credit : String → ℤ → Ledger → Ledger
credit account amount l = record l {
  balances = insert account (balance l account +ℤ amount) l.balances;
}

unfoldable pub debit : String → ℤ → Ledger → Outcome Ledger
debit account amount l =
    if ltb_ℤ (balance l account) amount
    then raised (
        escrow_error EscrowErrorCode.insufficient_funds
          (("account_id", str account) ∷ ("amount_cu", num amount) ∷ []))
    else ok (record l { balances = insert account (balance l account -ℤ amount) l.balances })

-- `key in self._paid`
unfoldable pub was_paid : String → String → List (String × String) → Bool
was_paid id transition [] = false
was_paid id transition ((i, t) ∷ rest) = (i == id && t == transition) || was_paid id transition rest

-- Returns whether value moved.
unfoldable pub payout : String → String → String → ℤ → Ledger → Ledger × Bool
payout id transition account amount l =
    if was_paid id transition l.paid
    then (l, false)
    else (credit account amount (record l { paid = (id, transition) ∷ l.paid }), true)

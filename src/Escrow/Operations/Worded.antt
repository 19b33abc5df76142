-- ===== src/Escrow/Operations/Worded.antt =====
-- The messages of the errors that an operation raises.
use sdk_reference.Prelude.{
  String, ◌≢◌, refl, ◌&&◌, Bool, true, false, if◌then◌else◌, Option, none, some, arith,
}
use sdk_reference.Prelude.Int.{ℤ}
use sdk_reference.Json.{Json, null, bool, num, str, arr, obj, Object}
use sdk_reference.Errors.{EscrowErrorCode, acmp_error, default_message}
use sdk_reference.Exec.{Outcome, ok, type_error, assertion_error, key_error, bind, raise_if, ◌>>◌}
use sdk_reference.Exec.Worded.{
  Worded, Worded-ok, Worded-fault, Worded-raise_if, Worded-bind, Worded-continue,
}
use sdk_reference.Access.{as_num, as_str, item, present, item_as, get_as, optional}
use sdk_reference.Prelude.Dict.{lookup}
use sdk_reference.Prelude.Text.{text_ne}
use sdk_reference.Escrow.{Escrow, Claim, is_claimed, is_closed, remaining}
use sdk_reference.Escrow.Ledger.{escrow_error}
use sdk_reference.Escrow.Cell.{
  Cell, Moment, escrow_data, window_over, auto_release, auto_reclaim_expiry, resolve_claim,
  resolve_expiry, effective_state, resolve_and_require_active, require_buyer, require_payee,
  require_positive_amount,
}
use sdk_reference.Escrow.Operations.{
  bind_checks, release_checks, undercut, below_claim, reclaim_amount, reclaim_checks, claim_checks,
  dispute_checks, bind_op, release_op, reclaim_op, claim_op, dispute_op,
}

pub message-escrow_error :
    (code : EscrowErrorCode) (d : Object) → (escrow_error code d).message ≢ ""
unfolding acmp_error default_message
message-escrow_error EscrowErrorCode.escrow_not_found d = text_ne _ _ refl
message-escrow_error _ d = text_ne _ _ refl

-- `if b: raise AcmpError(code, data=d)`
pub Worded-guard :
    (b : Bool) (code : EscrowErrorCode) (d : Object) → Worded (raise_if b (escrow_error code d))
Worded-guard b code d = Worded-raise_if b _ (message-escrow_error code d)

pub Worded-as_num : (v : Json) → Worded (as_num v)
unfolding as_num
Worded-as_num (num n) = Worded-ok n
Worded-as_num _ = Worded-fault type_error

pub Worded-as_str : (v : Json) → Worded (as_str v)
unfolding as_str
Worded-as_str (str s) = Worded-ok s
Worded-as_str _ = Worded-fault type_error

Worded-item : (d : Object) (k : String) → Worded (item d k)
unfolding item
Worded-item d k = go (lookup k d)
  where
    go : (o : Option Json) → Worded (present o k)
    go none = Worded-fault (key_error k)
    go (some v) = Worded-ok v

pub Worded-item_num : (d : Object) (k : String) → Worded (item_as as_num d k)
unfolding item_as
Worded-item_num d k = Worded-bind (item d k) as_num (Worded-item d k) Worded-as_num

pub Worded-item_str : (d : Object) (k : String) → Worded (item_as as_str d k)
unfolding item_as
Worded-item_str d k = Worded-bind (item d k) as_str (Worded-item d k) Worded-as_str

pub Worded-get :
    {A : Type 0} (read : Json → Outcome A) (d : Object) (k : String)
    → ((v : Json) → Worded (read v))
    → Worded (get_as read d k)
unfolding get_as
Worded-get {A} read d k h = go (lookup k d)
  where
    found : (v : Json) → Worded (bind (read v) (λ a. ok (some a)))
    found v = Worded-bind (read v) (λ a. ok (some a)) (h v) (λ a. Worded-ok (some a))

    go : (o : Option Json) → Worded (optional read o)
    go none = Worded-ok none
    go (some null) = Worded-ok none
    go (some (bool b)) = found (bool b)
    go (some (num n)) = found (num n)
    go (some (str s)) = found (str s)
    go (some (arr vs)) = found (arr vs)
    go (some (obj vs)) = found (obj vs)

module _ (party : String) (params : Object) (e : Escrow) where
  Worded-require_buyer : Worded (require_buyer e party)
  unfolding require_buyer
  Worded-require_buyer = Worded-guard _ _ _

  Worded-positive : (n : ℤ) → Worded (require_positive_amount n)
  unfolding require_positive_amount
  Worded-positive n = Worded-guard _ _ _

  Worded-undercut : (n : ℤ) → Worded (undercut n e)
  unfolding undercut
  Worded-undercut n = go (is_claimed e.state) e.claim
    where
      go : (b : Bool) (k : Option Claim) → Worded (if b then below_claim n e k else ok tt)
      go true none = Worded-fault assertion_error
      go true (some k) = Worded-guard _ _ _
      go false k = Worded-ok tt

  ruleset check_rules = (
    Worded-ok, Worded-bind, Worded-guard, Worded-item, Worded-item_num, Worded-item_str, Worded-get,
    Worded-as_num, Worded-require_buyer, Worded-positive, Worded-undercut,
  )

  pub bind_checks-Worded : Worded (bind_checks party params e)
  unfolding bind_checks
  bind_checks-Worded = search check_rules depth 20

  pub release_checks-Worded : Worded (release_checks party params e)
  unfolding release_checks
  release_checks-Worded = search check_rules depth 20

  reclaim_amount-Worded : (requested : Option ℤ) → Worded (reclaim_amount e requested)
  unfolding reclaim_amount
  reclaim_amount-Worded none = Worded-ok (remaining e)
  reclaim_amount-Worded (some n) = search check_rules depth 20

  pub reclaim_checks-Worded : Worded (reclaim_checks party params e)
  unfolding reclaim_checks
  reclaim_checks-Worded = search (check_rules, reclaim_amount-Worded) depth 20

  pub claim_checks-Worded : (at : Moment) → Worded (claim_checks at party params e)
  unfolding claim_checks require_payee
  claim_checks-Worded at = search check_rules depth 20

  pub dispute_checks-Worded : Worded (dispute_checks party params e)
  unfolding dispute_checks
  dispute_checks-Worded = search check_rules depth 20

Worded-resolve_claim : (now : ℤ) (c : Cell) → Worded (resolve_claim now c).0
unfolding resolve_claim
Worded-resolve_claim now c =
    go (is_claimed c.esc.state && window_over now c.esc.claim) c.esc.claim c.esc.payee_id
  where
    go :
        (b : Bool) (k : Option Claim) (payee : Option String)
        → Worded (if b then auto_release k payee c else (ok tt, c)).0
    go true none payee = unfold auto_release in Worded-fault assertion_error
    go true (some k) none = unfold auto_release in Worded-fault assertion_error
    go true (some k) (some payee) = unfold auto_release in Worded-ok tt
    go false k payee = Worded-ok tt

Worded-resolve_expiry : (now : ℤ) (c : Cell) → Worded (resolve_expiry now c).0
unfolding resolve_expiry auto_reclaim_expiry
Worded-resolve_expiry now c = record { at_error = λ e h. ground arith }

Worded-effective_state : (now : ℤ) (c : Cell) → Worded (effective_state now c).0
unfolding effective_state
Worded-effective_state now c = go (is_closed c.esc.state)
  where
    go :
        (b : Bool)
        → Worded (if b then (ok tt, c) else (resolve_claim now >> resolve_expiry now) c).0
    go true = Worded-ok tt
    go false =
        Worded-continue (resolve_claim now c).0 _ (resolve_claim now c).1
          (Worded-resolve_claim now c) (λ _. Worded-resolve_expiry now (resolve_claim now c).1)

Worded-resolve_and_require_active :
    (now : ℤ) (c : Cell) → Worded (resolve_and_require_active now c).0
unfolding resolve_and_require_active
Worded-resolve_and_require_active now c =
    let d = (effective_state now c).1 in
    Worded-continue (effective_state now c).0 _ d (Worded-effective_state now c)
      (λ _. Worded-guard d.esc.expired EscrowErrorCode.escrow_expired (escrow_data d.esc))

module _ (at : Moment) (party : String) (params : Object) (c : Cell) where
  ruleset op_rules = (
    Worded-ok, Worded-continue, Worded-resolve_and_require_active, bind_checks-Worded,
    release_checks-Worded, reclaim_checks-Worded, claim_checks-Worded, dispute_checks-Worded,
  )

  pub bind_op-Worded : Worded (bind_op at party params c).0
  unfolding bind_op
  bind_op-Worded = search op_rules depth 20

  pub release_op-Worded : (op_ref : String) → Worded (release_op at party op_ref params c).0
  unfolding release_op
  release_op-Worded op_ref = search op_rules depth 20

  pub reclaim_op-Worded : (op_ref : String) → Worded (reclaim_op at party op_ref params c).0
  unfolding reclaim_op
  reclaim_op-Worded op_ref = search op_rules depth 20

  pub claim_op-Worded : Worded (claim_op at party params c).0
  unfolding claim_op
  claim_op-Worded = search op_rules depth 20

  pub dispute_op-Worded : Worded (dispute_op at party params c).0
  unfolding dispute_op
  dispute_op-Worded = search op_rules depth 20

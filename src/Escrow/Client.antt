-- ===== src/Escrow/Client.antt =====
-- The result types of src/acmp/escrow.py and `EscrowClient`, over the `request` method of the buyer
-- that the client is built on.
pub mod Replies
pub mod Remote
use sdk_reference.Prelude.{String, Bool, false, Option, none, some, [], ◌∷◌, ◌==◌, if◌then◌else◌}
use sdk_reference.Prelude.Int.{ℤ, leb_ℤ}
use sdk_reference.Json.{num, str, Object}
use sdk_reference.Errors.{Code, escrow, EscrowErrorCode, AcmpError, int_value}
use sdk_reference.Prelude.Int.{eqb_ℤ}
use sdk_reference.Exec.{Outcome, ok, raised, fault, bind, Exec, ◌>>=◌, lift}
use sdk_reference.Access.{as_num, as_str, as_obj, item_as, get_as}
use sdk_reference.Access.Optional.{put, attribute, object}

pub record LockResult : Type 0 where
  pub escrow_id : String
  pub state : String
  pub amount_cu : ℤ
  pub valid_until_ms : ℤ

unfoldable pub lock_from_dict : Object → Outcome LockResult
lock_from_dict d = bind (item_as as_str d "escrow_id") λ escrow_id.
    bind (item_as as_str d "state") λ state. bind (item_as as_num d "amount_cu") λ amount_cu.
      bind (item_as as_num d "valid_until_ms") λ valid_until_ms. ok (record {
        escrow_id = escrow_id;
        state = state;
        amount_cu = amount_cu;
        valid_until_ms = valid_until_ms;
      })

pub record ReleaseResult : Type 0 where
  pub escrow_id : String
  pub released_cu : ℤ
  pub remaining_cu : ℤ
  pub state : String

unfoldable pub release_from_dict : Object → Outcome ReleaseResult
release_from_dict d = bind (item_as as_str d "escrow_id") λ escrow_id.
    bind (item_as as_num d "released_cu") λ released_cu.
      bind (item_as as_num d "remaining_cu") λ remaining_cu.
        bind (item_as as_str d "state") λ state. ok (record {
          escrow_id = escrow_id;
          released_cu = released_cu;
          remaining_cu = remaining_cu;
          state = state;
        })

pub record ReclaimResult : Type 0 where
  pub escrow_id : String
  pub reclaimed_cu : ℤ
  pub remaining_cu : ℤ
  pub state : String

unfoldable pub reclaim_from_dict : Object → Outcome ReclaimResult
reclaim_from_dict d = bind (item_as as_str d "escrow_id") λ escrow_id.
    bind (item_as as_num d "reclaimed_cu") λ reclaimed_cu.
      bind (item_as as_num d "remaining_cu") λ remaining_cu.
        bind (item_as as_str d "state") λ state. ok (record {
          escrow_id = escrow_id;
          reclaimed_cu = reclaimed_cu;
          remaining_cu = remaining_cu;
          state = state;
        })

pub record ClaimResult : Type 0 where
  pub escrow_id : String
  pub state : String
  pub claim : Object

unfoldable pub claim_from_dict : Object → Outcome ClaimResult
claim_from_dict d = bind (item_as as_str d "escrow_id") λ escrow_id.
    bind (item_as as_str d "state") λ state.
      bind (item_as as_obj d "claim")
        λ claim. ok (record { escrow_id = escrow_id; state = state; claim = claim })

pub record StatusResult : Type 0 where
  pub escrow_id : String
  pub state : String
  pub locked_cu : ℤ
  pub released_cu : ℤ
  pub reclaimed_cu : ℤ
  pub remaining_cu : ℤ
  pub payee_id : Option String
  pub valid_until_ms : ℤ
  pub claim : Option Object
  pub dispute : Option Object

unfoldable pub status_from_dict : Object → Outcome StatusResult
status_from_dict d = bind (item_as as_str d "escrow_id") λ escrow_id.
    bind (item_as as_str d "state") λ state. bind (item_as as_num d "locked_cu") λ locked_cu.
      bind (item_as as_num d "released_cu") λ released_cu.
        bind (item_as as_num d "reclaimed_cu") λ reclaimed_cu.
          bind (item_as as_num d "remaining_cu") λ remaining_cu.
            bind (get_as as_str d "payee_id") λ payee_id.
              bind (item_as as_num d "valid_until_ms") λ valid_until_ms.
                bind (get_as as_obj d "claim") λ claim. bind (get_as as_obj d "dispute") λ dispute.
                  ok (record {
                    escrow_id = escrow_id;
                    state = state;
                    locked_cu = locked_cu;
                    released_cu = released_cu;
                    reclaimed_cu = reclaimed_cu;
                    remaining_cu = remaining_cu;
                    payee_id = payee_id;
                    valid_until_ms = valid_until_ms;
                    claim = claim;
                    dispute = dispute;
                  })

-- `op_ref or new_op_ref()`: an empty text counts as no `op_ref` at all.
unfoldable pub or_new_op_ref : Option String → String → String
or_new_op_ref none fresh = fresh
or_new_op_ref (some op_ref) fresh = if op_ref == "" then fresh else op_ref

-- An unknown escrow covers nothing; other errors pass through.
unfoldable pub covered_by : ℤ → Outcome StatusResult → Outcome Bool
covered_by amount_cu (ok s) = ok (leb_ℤ amount_cu s.remaining_cu)
covered_by amount_cu (raised e) =
    if eqb_ℤ (int_value e.code) (int_value (escrow EscrowErrorCode.escrow_not_found))
    then ok false
    else raised e
covered_by amount_cu (fault x) = fault x

-- `fresh` is what `new_op_ref()` would return.
module _ {S : Type 0} (request : String → Object → Exec S Object) (fresh : String) where
  unfoldable pub lock :
      ℤ → ℤ → Option String → Option String → Option ℤ → Option String → Exec S LockResult
  lock amount_cu valid_until_ms tier payee_id challenge_window_ms op_ref = do
    result ← request "acmp/escrowLock" (
        put "challenge_window_ms" (attribute num challenge_window_ms) (
          put "payee_id" (attribute str payee_id) (
            put "tier" (attribute str tier) (
              ("op_ref", str (or_new_op_ref op_ref fresh))
              ∷ ("amount_cu", num amount_cu)
              ∷ ("valid_until_ms", num valid_until_ms)
              ∷ []))))
    lift (lock_from_dict result)

  unfoldable pub bind_escrow : String → String → Option ℤ → Option String → Exec S Object
  bind_escrow escrow_id payee_id challenge_window_ms op_ref = request "acmp/escrowBind" (
      put "challenge_window_ms" (attribute num challenge_window_ms) (
        ("op_ref", str (or_new_op_ref op_ref fresh))
        ∷ ("escrow_id", str escrow_id)
        ∷ ("payee_id", str payee_id)
        ∷ []))

  unfoldable pub release :
      String → ℤ → String → Option String → Option Object → Option String → Exec S ReleaseResult
  release escrow_id amount_cu payee_id task_id proof op_ref = do
    result ← request "acmp/escrowRelease" (
        put "proof" (attribute object proof) (
          put "task_id" (attribute str task_id) (
            ("op_ref", str (or_new_op_ref op_ref fresh))
            ∷ ("escrow_id", str escrow_id)
            ∷ ("amount_cu", num amount_cu)
            ∷ ("payee_id", str payee_id)
            ∷ [])))
    lift (release_from_dict result)

  unfoldable pub reclaim : String → Option ℤ → Option String → Exec S ReclaimResult
  reclaim escrow_id amount_cu op_ref = do
    result ← request "acmp/escrowReclaim" (
        put "amount_cu" (attribute num amount_cu)
          (("op_ref", str (or_new_op_ref op_ref fresh)) ∷ ("escrow_id", str escrow_id) ∷ []))
    lift (reclaim_from_dict result)

  unfoldable pub claim : String → ℤ → String → Object → Option String → Exec S ClaimResult
  claim escrow_id amount_cu task_id proof op_ref = do
    result ← request "acmp/escrowClaim" (
        ("op_ref", str (or_new_op_ref op_ref fresh))
        ∷ ("escrow_id", str escrow_id)
        ∷ ("amount_cu", num amount_cu)
        ∷ ("task_id", str task_id)
        ∷ ("proof", object proof)
        ∷ [])
    lift (claim_from_dict result)

  unfoldable pub dispute : String → String → Option Object → Option String → Exec S Object
  dispute escrow_id reason evidence op_ref = request "acmp/escrowDispute" (
      put "evidence" (attribute object evidence) (
        ("op_ref", str (or_new_op_ref op_ref fresh))
        ∷ ("escrow_id", str escrow_id)
        ∷ ("reason", str reason)
        ∷ []))

  unfoldable pub status : String → Exec S StatusResult
  status escrow_id = do
    result ← request "acmp/escrowStatus" (("escrow_id", str escrow_id) ∷ [])
    lift (status_from_dict result)

  unfoldable pub covers : String → ℤ → Exec S Bool
  unfolding covered_by
  covers escrow_id amount_cu s = let (r, s') = status escrow_id s in (covered_by amount_cu r, s')

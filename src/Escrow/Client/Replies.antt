-- ===== src/Escrow/Client/Replies.antt =====
-- What the client reads from the replies of the agent.
use sdk_reference.Prelude.{String, ◌≡◌, refl, Option, none, some}
use sdk_reference.Prelude.Int.{ℤ}
use sdk_reference.Prelude.Dict.{lookup}
use sdk_reference.Json.{entries-fields}
use sdk_reference.Exec.{ok}
use sdk_reference.Access.{as_num, as_str, as_obj, item, item_as, get_as, optional}
use sdk_reference.Escrow.{state_value, Claim, claim_dict, Dispute, dispute_dict, Escrow, remaining}
use sdk_reference.Escrow.Operations.{release_reply, reclaim_reply, claim_reply}
use sdk_reference.Escrow.Agent.{claim_json, dispute_json, text_json, status_reply}
use sdk_reference.Escrow.Client.{
  release_from_dict, reclaim_from_dict, claim_from_dict, StatusResult, status_from_dict,
}

abbrev pub map_option : {A B : Type 0} → (A → B) → Option A → Option B
map_option f none = none
map_option f (some a) = some (f a)

-- An escrow as `escrowStatus` shows it: of the claim its amount and its window, of the dispute its
-- reason and evidence.
abbrev pub view : Escrow → StatusResult
view e = record {
  escrow_id = e.escrow_id;
  state = state_value e.state;
  locked_cu = e.locked_cu;
  released_cu = e.released_cu;
  reclaimed_cu = e.reclaimed_cu;
  remaining_cu = remaining e;
  payee_id = e.payee_id;
  valid_until_ms = e.valid_until_ms;
  claim = map_option claim_dict e.claim;
  dispute = map_option dispute_dict e.dispute;
}

optional-text : (o : Option String) → optional as_str (some (text_json o)) ≡ ok o
unfolding as_str
optional-text none = refl
optional-text (some s) = refl

optional-claim :
    (o : Option Claim) → optional as_obj (some (claim_json o)) ≡ ok (map_option claim_dict o)
unfolding as_obj
optional-claim none = refl
optional-claim (some k) = λ i. ok (some (entries-fields (claim_dict k) i))

optional-dispute :
    (o : Option Dispute) → optional as_obj (some (dispute_json o)) ≡ ok (map_option dispute_dict o)
unfolding as_obj
optional-dispute none = refl
optional-dispute (some d) = λ i. ok (some (entries-fields (dispute_dict d) i))

-- Whatever the escrow, the client reads from the status reply exactly the escrow's fields: of a
-- claim its amount and its window, of a dispute its reason and its evidence.
pub status_from_dict-status_reply : (e : Escrow) → status_from_dict (status_reply e) ≡ ok (view e)
unfolding status_from_dict status_reply item_as item get_as lookup as_str as_num
status_from_dict-status_reply e = simp (optional-text, optional-claim, optional-dispute) refl

-- The client reads from the replies to a release, a reclaim and a claim what they were made of.
pub replies_lem :
    (e : Escrow) (n : ℤ) (payee : String) (k : Claim)
    → (release_from_dict (release_reply (n, payee) e)
        ≡ ok (record {
          escrow_id = e.escrow_id;
          released_cu = n;
          remaining_cu = remaining e;
          state = state_value e.state;
        }))
      × (reclaim_from_dict (reclaim_reply n e)
          ≡ ok (record {
            escrow_id = e.escrow_id;
            reclaimed_cu = n;
            remaining_cu = remaining e;
            state = state_value e.state;
          }))
      × (claim_from_dict (claim_reply k e)
          ≡ ok (record {
            escrow_id = e.escrow_id;
            state = state_value e.state;
            claim = claim_dict k;
          }))
unfolding release_from_dict release_reply reclaim_from_dict reclaim_reply claim_from_dict
    claim_reply item_as item lookup as_str as_num as_obj
replies_lem e n payee k = (refl, refl, simp entries-fields refl)

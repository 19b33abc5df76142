-- ===== src/Escrow/Operations/Contract.antt =====
-- What the agent relies on of an operation on one escrow, and the five operations as
-- implementations of it.
use sdk_reference.Prelude.{String}
use sdk_reference.Prelude.Int.{◌≤ℤ◌}
use sdk_reference.Json.{Object}
use sdk_reference.Exec.{Exec}
use sdk_reference.Escrow.Ledger.Laws.{IsSolvent}
use sdk_reference.Escrow.Cell.{Cell, Moment}
use sdk_reference.Escrow.Cell.Sound.{IsSound}
use sdk_reference.Escrow.Cell.Worth.{worth}
use sdk_reference.Escrow.Operations.{bind_op, release_op, reclaim_op, claim_op, dispute_op}
use sdk_reference.Escrow.Operations.Sound.{
  bind_op-IsSound, release_op-IsSound, reclaim_op-IsSound, claim_op-IsSound, dispute_op-IsSound,
}
use sdk_reference.Escrow.Operations.Worth.{
  bind_op-worth_le, release_op-worth_le, reclaim_op-worth_le, claim_op-worth_le,
  dispute_op-worth_le,
}
use sdk_reference.Escrow.Operations.Solvent.{
  bind_op-IsSolvent, release_op-IsSolvent, reclaim_op-IsSolvent, claim_op-IsSolvent,
  dispute_op-IsSolvent,
}

pub record IsGood (c : Cell) : Type 0 where
  pub sound : IsSound c.esc
  pub solvent : IsSolvent c.ledger

-- Before `c`, after `d`.
pub record IsFair (c d : Cell) : Type 0 where
  pub good : IsGood d
  pub no_gain : worth d ≤ℤ worth c

pub record Contract (op : String → Exec Cell Object) : Type 0 where
  pub fair : (op_ref : String) (c : Cell) → IsGood c → IsFair c (op op_ref c).1

module _ (at : Moment) (party : String) (params : Object) where
  pub bind_op-Contract : Contract (λ _. bind_op at party params)
  bind_op-Contract = record {
    fair = λ op_ref c g. record {
      good = record {
        sound = bind_op-IsSound at party params c g.sound;
        solvent = bind_op-IsSolvent at party params c g.sound g.solvent;
      };
      no_gain = bind_op-worth_le at party params c g.sound;
    };
  }

  pub release_op-Contract : Contract (λ op_ref. release_op at party op_ref params)
  release_op-Contract = record {
    fair = λ op_ref c g. record {
      good = record {
        sound = release_op-IsSound at party params c g.sound op_ref;
        solvent = release_op-IsSolvent at party params c g.sound g.solvent op_ref;
      };
      no_gain = release_op-worth_le at party params c g.sound op_ref;
    };
  }

  pub reclaim_op-Contract : Contract (λ op_ref. reclaim_op at party op_ref params)
  reclaim_op-Contract = record {
    fair = λ op_ref c g. record {
      good = record {
        sound = reclaim_op-IsSound at party params c g.sound op_ref;
        solvent = reclaim_op-IsSolvent at party params c g.sound g.solvent op_ref;
      };
      no_gain = reclaim_op-worth_le at party params c g.sound op_ref;
    };
  }

  pub claim_op-Contract : Contract (λ _. claim_op at party params)
  claim_op-Contract = record {
    fair = λ op_ref c g. record {
      good = record {
        sound = claim_op-IsSound at party params c g.sound;
        solvent = claim_op-IsSolvent at party params c g.sound g.solvent;
      };
      no_gain = claim_op-worth_le at party params c g.sound;
    };
  }

  pub dispute_op-Contract : Contract (λ _. dispute_op at party params)
  dispute_op-Contract = record {
    fair = λ op_ref c g. record {
      good = record {
        sound = dispute_op-IsSound at party params c g.sound;
        solvent = dispute_op-IsSolvent at party params c g.sound g.solvent;
      };
      no_gain = dispute_op-worth_le at party params c g.sound;
    };
  }

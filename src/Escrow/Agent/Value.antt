-- ===== src/Escrow/Agent/Value.antt =====
-- The agent as a whole: its soundness, and the money in its accounts and escrows together.
use sdk_reference.Prelude.{String, ◌≡◌, refl, Option, some, inl, inr, Option-cases, arith}
use sdk_reference.Prelude.Int.{ℤ, pos, ◌+ℤ◌, ◌≤ℤ◌, ◌<ℤ◌, int_laws}
use sdk_reference.Prelude.Dict.{
  Dict, lookup, lookup-insert, total, total-insert, total-insert_any, measure_of,
}
use sdk_reference.Json.{Object}
use sdk_reference.Exec.{Exec}
use sdk_reference.Escrow.{Escrow, Cached, remaining, new_escrow}
use sdk_reference.Escrow.Ledger.{Ledger}
use sdk_reference.Escrow.Ledger.Laws.{
  total_balance, total_balance-debit, IsSolvent, debit-IsSolvent,
}
use sdk_reference.Escrow.Cell.{Cell, Moment, effective_state}
use sdk_reference.Escrow.Cell.Sound.{IsSound, remaining_nonneg, effective_state-IsSound}
use sdk_reference.Escrow.Cell.Worth.{worth, effective_state-worth_le}
use sdk_reference.Escrow.Operations.Solvent.{effective_state-IsSolvent}
use sdk_reference.Escrow.Operations.Contract.{IsGood, IsFair, Contract}
use sdk_reference.Escrow.Agent.{Agent, handle_op, handle_lock, handle_status}
use sdk_reference.Escrow.Agent.Handling.{
  store, lock_in, handle_op-keeps, cached_op-keeps, handle_lock-keeps, handle_status-keeps,
  with_cache, IsFunded,
}

pub record IsSoundAgent (a : Agent) : Type 0 where
  pub solvent : IsSolvent a.ledger
  pub sound : (id : String) (e : Escrow) → lookup id a.escrows ≡ some e → IsSound e

-- The money in the agent's care.
unfoldable pub value : Agent → ℤ
value a = total_balance a.ledger +ℤ total remaining a.escrows

-- The cell of an escrow in the agent.
abbrev pub cell : Escrow → Agent → Cell
cell e a = record { esc = e; ledger = a.ledger }

-- Storing a cell changes the agent's value as the cell's worth changed.
pub value-store :
    (id : String) (e : Escrow) (c : Cell) (a : Agent)
    → lookup id a.escrows ≡ some e
    → value (store id c a) +ℤ worth (cell e a) ≡ value a +ℤ worth c
unfolding value worth
value-store id e c a found = grind (int_laws, total-insert remaining id c.esc e a.escrows found)

pub store-IsSoundAgent :
    (id : String) (c : Cell) (a : Agent) → IsGood c → IsSoundAgent a → IsSoundAgent (store id c a)
store-IsSoundAgent id c a g s = record {
  solvent = g.solvent;
  sound = λ j e h. ground (arith, g.sound, s.sound j e, lookup-insert id j c.esc a.escrows);
}

-- A sound agent whose value is at most `v`.
pub record IsBacked (v : ℤ) (a : Agent) : Type 0 where
  pub agent : IsSoundAgent a
  pub within : value a ≤ℤ v

store-IsBacked :
    (v : ℤ) (id : String) (e : Escrow) (c : Cell) (a : Agent)
    → lookup id a.escrows ≡ some e
    → IsFair (cell e a) c
    → IsBacked v a
    → IsBacked v (store id c a)
store-IsBacked v id e c a found f b = record {
  agent = store-IsSoundAgent id c a f.good b.agent;
  within = grind (int_laws, value-store id e c a found, f.no_gain, b.within);
}

-- Writing the cache of outcomes is fair.
with_cache-IsFair :
    (c : Cell) (d : Dict Cached) (c' : Cell) → IsFair c c' → IsFair c (with_cache d c')
unfolding worth remaining
with_cache-IsFair c d c' f = record {
  good = record {
    sound = record {
      released = f.good.sound.released;
      reclaimed = f.good.sound.reclaimed;
      unsettled = f.good.sound.unsettled;
      shape = f.good.sound.shape;
    };
    solvent = f.good.solvent;
  };
  no_gain = f.no_gain;
}

module _ (v : ℤ) (a : Agent) (b : IsBacked v a) where
  cell-IsGood : (id : String) (e : Escrow) → lookup id a.escrows ≡ some e → IsGood (cell e a)
  cell-IsGood id e found = record { sound = b.agent.sound id e found; solvent = b.agent.solvent }

  pub handle_op-IsBacked :
      (op : String → Exec Cell Object) (params : Object)
      → Contract op
      → IsBacked v (handle_op op params a).1
  handle_op-IsBacked op params k = handle_op-keeps (IsBacked v) a b op params λ id e found.
      let g = cell-IsGood id e found in
      store-IsBacked v id e _ a found
        (cached_op-keeps (IsFair (cell e a)) (with_cache-IsFair (cell e a)) op params (cell e a)
          (record { good = g; no_gain = omega arith }) (λ op_ref _. k.fair op_ref (cell e a) g))
        b

  pub effective_state-IsFair :
      (now : ℤ) (id : String) (e : Escrow)
      → lookup id a.escrows ≡ some e
      → IsFair (cell e a) (effective_state now (cell e a)).1
  effective_state-IsFair now id e found =
      let g = cell-IsGood id e found in
      record {
        good = record {
          sound = effective_state-IsSound now (cell e a) g.sound;
          solvent = effective_state-IsSolvent now (cell e a) g.sound g.solvent;
        };
        no_gain = effective_state-worth_le now (cell e a) g.sound;
      }

-- A new escrow is well formed, and holds what was locked.
new_escrow-IsSound :
    (id party : String) (amount until window : ℤ) (payee : Option String)
    → pos 0 <ℤ amount
    → IsSound (new_escrow id party amount until window payee)
unfolding new_escrow remaining
new_escrow-IsSound id party amount until window payee h = record {
  released = omega arith;
  reclaimed = omega arith;
  unsettled = λ _. refl;
  shape = grind int_laws;
}

remaining-new_escrow :
    (id party : String) (amount until window : ℤ) (payee : Option String)
    → remaining (new_escrow id party amount until window payee) ≡ amount
unfolding new_escrow remaining
remaining-new_escrow id party amount until window payee = grind int_laws

-- The remainders that are overwritten by a second escrow under one id are not negative.
measure_nonneg :
    (id : String) (a : Agent) → IsSoundAgent a → pos 0 ≤ℤ measure_of remaining (lookup id a.escrows)
measure_nonneg id a s = elim (Option-cases (lookup id a.escrows)) [
  | inl absent ↦ rw absent (omega arith)
  | inr (e, found) ↦ rw found (remaining_nonneg e (s.sound id e found))
]

module _ (v : ℤ) (at : Moment) (party : String) (params : Object) (a : Agent)
    (b : IsBacked v a) where
  lock_in-IsBacked :
      (amount until window : ℤ) (payee : Option String) (l : Ledger)
      → IsFunded party amount a.ledger l
      → IsBacked v
          (lock_in at.fresh_id (new_escrow at.fresh_id party amount until window payee) l a)
  lock_in-IsBacked amount until window payee l f =
      let id = at.fresh_id in
      let e = new_escrow id party amount until window payee in
      record {
        agent = record {
          solvent = debit-IsSolvent party amount a.ledger f.debited b.agent.solvent;
          sound = λ j d h. ground (
            arith,
            new_escrow-IsSound id party amount until window payee f.positive,
            b.agent.sound j d,
            lookup-insert id j e a.escrows,
          );
        };
        within =
            unfold value in
            grind (
              int_laws,
              b.within,
              measure_nonneg id a b.agent,
              total_balance-debit party amount a.ledger f.debited,
              total-insert_any remaining id e a.escrows,
              remaining-new_escrow id party amount until window payee,
            );
      }

  pub handle_lock-IsBacked : IsBacked v (handle_lock at party params a).1
  handle_lock-IsBacked =
      handle_lock-keeps (IsBacked v) at party params a b lock_in-IsBacked (λ d b' held. record {
        agent = record { solvent = held.agent.solvent; sound = held.agent.sound };
        within = unfold value in held.within;
      })

  pub handle_status-IsBacked : IsBacked v (handle_status at party params a).1
  handle_status-IsBacked = handle_status-keeps (IsBacked v) at party params a b (λ id e found.
      store-IsBacked v id e _ a found (effective_state-IsFair v a b at.now id e found) b)

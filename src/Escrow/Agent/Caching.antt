-- ===== src/Escrow/Agent/Caching.antt =====
-- `_run_cached` as a rule: what a run keeps, and that a second run repeats the first.
use sdk_reference.Prelude.{
  String, ◌≡◌, ◌≢◌, refl, Option, none, some, Option-cases, inl, inr, eq_iff, eq_refl, arith,
}
use sdk_reference.Prelude.Dict.{Dict, lookup, lookup-insert}
use sdk_reference.Json.{Object, entries-fields}
use sdk_reference.Errors.{AcmpError, acmp_error, int_value, to_jsonrpc}
use sdk_reference.Exec.{Outcome, ok, raised, fault, Exec}
use sdk_reference.Exec.Worded.{Worded}
use sdk_reference.Access.{as_num, as_str, as_obj, item, item_as, get_as}
use sdk_reference.Escrow.{Cached, error, result}
use sdk_reference.Escrow.Agent.{Cache, replay, replay_error, remember, run_cached}

module _ {S : Type 0} (cache : Cache S) (op_ref : String) (op : Exec S Object) where
  -- A property that the cache does not show holds after the call if it holds after the operation.
  pub run_cached-keeps :
      (P : S → Type 0)
      → ((d : Dict Cached) (s : S) → P s → P (cache.write d s))
      → (s : S) → P s
      → (lookup op_ref (cache.read s) ≡ none → P (op s).1)
      → P (run_cached cache op_ref op s).1
  unfolding run_cached remember
  run_cached-keeps P stable s h k = elim (Option-cases (lookup op_ref (cache.read s))) [
    | inl absent ↦ rw absent (kept (op s) (k absent))
    | inr (old, found) ↦ rw found h
  ]
    where
      kept : (r : Outcome Object × S) → P r.1 → P (remember cache op_ref r).1
      kept (ok v, s') p = stable _ s' p
      kept (raised e, s') p = stable _ s' p
      kept (fault x, s') p = p

-- Whether the run ended with a reply or an `AcmpError`; other exceptions are not remembered.
abbrev pub Settled : Outcome Object → Type 0
Settled (ok _) = Unit
Settled (raised _) = Unit
Settled (fault _) = ⊥

-- What the outcome puts into a response: a result or an error object.
abbrev pub on_wire : Outcome Object → Option Cached
on_wire (ok r) = some (result r)
on_wire (raised e) = some (error (to_jsonrpc e))
on_wire (fault _) = none

-- A rebuilt error has the error object that it was rebuilt from.
replay_error-to_jsonrpc :
    (e : AcmpError)
    → e.message ≢ ""
    → on_wire (replay_error (to_jsonrpc e)) ≡ some (error (to_jsonrpc e))
unfolding replay_error to_jsonrpc acmp_error int_value item_as item get_as lookup as_num as_str
    as_obj
replay_error-to_jsonrpc e h = simp (entries-fields) (ground (arith, eq_iff e.message ""))

-- The second of two runs: what it answers and the state that it leaves, beside the first's.
pub record Repeats {S : Type 0} (first second : Outcome Object × S) : Type 0 where
  pub answer : on_wire second.0 ≡ on_wire first.0
  pub state : second.1 ≡ first.1

-- An outcome as the cache holds it.
pub record Recalled (o : Outcome Object) (found : Option Cached) : Type 0 where
  pub cached : Cached
  pub there : found ≡ some cached
  pub answer : on_wire (replay cached) ≡ on_wire o

module _ {S : Type 0} (cache : Cache S)
    (read-write : (d : Dict Cached) (s : S) → cache.read (cache.write d s) ≡ d)
    (op_ref : String) where
  remember-Recalled :
      (r : Outcome Object × S)
      → Worded r.0
      → let r' = remember cache op_ref r in
        Settled r'.0 → Recalled r'.0 (lookup op_ref (cache.read r'.1))
  unfolding remember replay
  remember-Recalled (ok v, s) w h = record {
    cached = result v;
    there = rw (read-write, lookup-insert, eq_refl) refl;
    answer = refl;
  }
  remember-Recalled (raised e, s) w h = record {
    cached = error (to_jsonrpc e);
    there = rw (read-write, lookup-insert, eq_refl) refl;
    answer = replay_error-to_jsonrpc e (w.at_error e refl);
  }
  remember-Recalled (fault x, s) w h = absurd h

  -- A settled run leaves its outcome in the cache.
  pub run_cached-Recalled :
      (op : Exec S Object) (s : S)
      → Worded (op s).0
      → let r = run_cached cache op_ref op s in
        Settled r.0 → Recalled r.0 (lookup op_ref (cache.read r.1))
  unfolding run_cached
  run_cached-Recalled op s w = elim (Option-cases (lookup op_ref (cache.read s))) [
    | inl absent ↦ rw absent (remember-Recalled (op s) w)
    | inr (old, found) ↦ rw (found, found) λ _. record { cached = old; there = refl; answer = refl }
  ]

  remember-lookup :
      (k : String) (c : Cached) (d : Dict Cached)
      → lookup op_ref d ≡ none
      → lookup k d ≡ some c
      → (r : Outcome Object × S) → cache.read r.1 ≡ d
      → lookup k (cache.read (remember cache op_ref r).1) ≡ some c
  unfolding remember
  remember-lookup k c d absent found (ok v, s) same =
      rw (read-write, lookup-insert, same) (ground (arith, eq_iff op_ref k))
  remember-lookup k c d absent found (raised e, s) same =
      rw (read-write, lookup-insert, same) (ground (arith, eq_iff op_ref k))
  remember-lookup k c d absent found (fault x, s) same = rw same found

  -- No run drops or changes an outcome that is there, under its own key or another.
  pub run_cached-lookup :
      (op : Exec S Object) (s : S)
      → cache.read (op s).1 ≡ cache.read s
      → (k : String) (c : Cached) → lookup k (cache.read s) ≡ some c
      → lookup k (cache.read (run_cached cache op_ref op s).1) ≡ some c
  unfolding run_cached
  run_cached-lookup op s same k c h = elim (Option-cases (lookup op_ref (cache.read s))) [
    | inl absent ↦ rw absent (remember-lookup k c (cache.read s) absent h (op s) same)
    | inr (old, found) ↦ rw found h
  ]

-- A run whose outcome is there replays it.
pub run_cached-found :
    {S : Type 0} (cache : Cache S) (op_ref : String) (op : Exec S Object) (s : S) (c : Cached)
    → lookup op_ref (cache.read s) ≡ some c
    → run_cached cache op_ref op s ≡ (replay c, s)
unfolding run_cached
run_cached-found cache op_ref op s c h = rw h refl

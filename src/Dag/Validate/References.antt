-- ===== src/Dag/Validate/References.antt =====
-- The last check of `validate_dag`: each reference has its edge.
use sdk_reference.Prelude.{
  String, ◌≡◌, refl, sym, ap, ◌∙◌, inl, inr, true, false, List, [], ◌∷◌, eq_iff, eq_refl, arith,
  Bool-cases,
}
use sdk_reference.Prelude.Dict.{Dict}
use sdk_reference.Prelude.Sets.{has}
use sdk_reference.Dag.{DagTaskSpec, Edge}
use sdk_reference.Dag.Search.{missing_edge, Verdict, valid, invalid, out_of_fuel, and_then}
use sdk_reference.Dag.Validate.{at, input_refs, check_task_refs, check_refs}
use sdk_reference.Dag.Validate.Edges.{has_edge}
use sdk_reference.Dag.Validate.Plan.{AllConnected, IsUnconnected}

module _ (es : List Edge) where
  abbrev JudgesRefs : String → List String → Verdict (Unit {0}) → Type 0
  JudgesRefs t rs (valid _) = (r : String) → has r rs ≡ true → has_edge es r t ≡ true
  JudgesRefs t rs (invalid p) =
      (r : String) × (p ≡ missing_edge t r) × (has r rs ≡ true) × (has_edge es r t ≡ false)
  JudgesRefs t rs out_of_fuel = ⊥

  JudgesRefs-cons :
      (t r : String) (rs : List String)
      → has_edge es r t ≡ true
      → (v : Verdict (Unit {0})) → JudgesRefs t rs v
      → JudgesRefs t (r ∷ rs) v
  unfolding has
  JudgesRefs-cons t r rs e (valid _) j = λ x h. ground (arith, eq_iff r x, j x)
  JudgesRefs-cons t r rs e (invalid p) (x, same, h, off) = (x, same, ground arith, off)
  JudgesRefs-cons t r rs e out_of_fuel j = j

  check_task_refs-Judges :
      (t : String) (sources : List String)
      → ((r : String) → has r sources ≡ has_edge es r t)
      → (rs : List String) → JudgesRefs t rs (check_task_refs t sources rs)
  unfolding has check_task_refs
  check_task_refs-Judges t sources same [] = λ r h. cc
  check_task_refs-Judges t sources same (r ∷ rs) = elim (Bool-cases (has r sources)) [
    | inl there ↦ rw there (
        JudgesRefs-cons t r rs (sym (same r) ∙ there) (check_task_refs t sources rs)
          (check_task_refs-Judges t sources same rs))
    | inr absent ↦ rw absent (r, refl, ground (arith, eq_refl r), sym (same r) ∙ absent)
  ]

  abbrev pub JudgesAll : List DagTaskSpec → Verdict (Unit {0}) → Type 0
  JudgesAll ts (valid _) = AllConnected es ts
  JudgesAll ts (invalid p) =
      (t : String) × (r : String) × (p ≡ missing_edge t r) × IsUnconnected es ts t r
  JudgesAll ts out_of_fuel = ⊥

  JudgesAll-rest :
      (t : DagTaskSpec) (ts : List DagTaskSpec)
      → ((r : String) → has r (input_refs t.input) ≡ true → has_edge es r t.task_id ≡ true)
      → (v : Verdict (Unit {0})) → JudgesAll ts v
      → JudgesAll (t ∷ ts) v
  JudgesAll-rest t ts c (valid _) j = (c, j)
  JudgesAll-rest t ts c (invalid p) (k, r, same, u) = (k, r, same, inr u)
  JudgesAll-rest t ts c out_of_fuel j = j

  JudgesAll-cons :
      (t : DagTaskSpec) (ts : List DagTaskSpec) (v rest : Verdict (Unit {0}))
      → JudgesRefs t.task_id (input_refs t.input) v
      → JudgesAll ts rest
      → JudgesAll (t ∷ ts) (and_then v (λ _. rest))
  JudgesAll-cons t ts (valid _) rest j k = JudgesAll-rest t ts j rest k
  JudgesAll-cons t ts (invalid p) rest (r, same, h, off) k =
      (t.task_id, r, same, inl (refl, h, off))
  JudgesAll-cons t ts out_of_fuel rest j k = j

  pub check_refs-Judges :
      (incoming : Dict (List String))
      → ((u v : String) → has v (at u incoming) ≡ has_edge es v u)
      → (ts : List DagTaskSpec) → JudgesAll ts (check_refs incoming ts)
  unfolding check_refs
  check_refs-Judges incoming same [] = tt
  check_refs-Judges incoming same (t ∷ ts) =
      JudgesAll-cons t ts (check_task_refs t.task_id (at t.task_id incoming) (input_refs t.input))
        (check_refs incoming ts)
        (check_task_refs-Judges t.task_id (at t.task_id incoming) (same t.task_id)
          (input_refs t.input))
        (check_refs-Judges incoming same ts)

  -- No plan is both.
  pub IsUnconnected-AllConnected :
      (ts : List DagTaskSpec) (t r : String) → AllConnected es ts → ¬ IsUnconnected es ts t r
  IsUnconnected-AllConnected [] t r c u = u
  IsUnconnected-AllConnected (s ∷ ss) t r (c, cs) (inl (same, h, off)) =
      cc (c r h, ap (λ x. has_edge es r x) same)
  IsUnconnected-AllConnected (s ∷ ss) t r (c, cs) (inr u) = IsUnconnected-AllConnected ss t r cs u

-- ===== src/TaskContext/Delivery.antt =====
-- `_feed_input` of src/acmp/provider.py, on chunks in any order of arrival.
use sdk_reference.Prelude.{
  ℕ, zero, suc, ◌≤◌, ◌<◌, ◌≡◌, ◌↔◌, refl, sym, ap, ◌∙◌, inl, inr, Bool, true, false, ◌||◌, none,
  some, List, [], ◌∷◌, ◌++◌, arith, if◌then◌else◌, Option-cases, ltb, Bool-cases,
}
use sdk_reference.Prelude.Int.{ℤ, pos, eqb_ℤ, eq_of_parts, pos_part}
use sdk_reference.Prelude.Sets.{length}
use sdk_reference.Messages.Task.{Task}
use sdk_reference.TaskContext.{
  find, remove, store, Chunk, TaskContext, new_context, release_next, drain, feed_input, feed_all,
}

eqb_iff : (a b : ℤ) → (eqb_ℤ a b ≡ true) ↔ (a ≡ b)
eqb_iff a b = ((λ h. ground (arith, eq_of_parts a b)), (λ h. rw h (ground arith)))

module _ {A : Type 0} where
  find-remove :
      (k j : ℤ) (d : List (ℤ × A)) → find j (remove k d) ≡ (if eqb_ℤ k j then none else find j d)
  unfolding find remove
  find-remove k j [] = ground arith
  find-remove k j ((i, a) ∷ d) =
      ground (arith, eqb_iff k j, eqb_iff i k, eqb_iff i j, find-remove k j d)

  find-store :
      (k j : ℤ) (a : A) (d : List (ℤ × A))
      → find j (store k a d) ≡ (if eqb_ℤ k j then some a else find j d)
  unfolding find store
  find-store k j a d = ground (arith, find-remove k j d)

  length-remove : (k : ℤ) (d : List (ℤ × A)) → length (remove k d) ≤ length d
  unfolding remove
  length-remove k [] = omega arith
  length-remove k ((i, a) ∷ d) = ground (arith, length-remove k d)

  -- Removing what is there.
  length-remove_found :
      (k : ℤ) (a : A) (d : List (ℤ × A)) → find k d ≡ some a → length (remove k d) < length d
  unfolding find remove
  length-remove_found k a [] h = cc
  length-remove_found k a ((i, b) ∷ d) h =
      ground (arith, length-remove k d, length-remove_found k a d)

  find-empty : (k : ℤ) (d : List (ℤ × A)) → length d ≤ 0 → find k d ≡ none
  unfolding find
  find-empty k [] h = refl
  find-empty k (x ∷ d) h = ground arith

some-inj : {A : Type 0} {a b : A} → some a ≡ some b → a ≡ b
some-inj {a} {b} h = ap (λ o. elim o [ some x ↦ x | none ↦ a ]) h

-- The first chunks, in the order of their numbers.
unfoldable pub upto : (ℤ → Chunk) → ℕ → List Chunk
upto f zero = []
upto f (suc n) = upto f n ++ f (pos n) ∷ []

unfoldable pub arrived : ℤ → List (ℤ × Chunk) → Bool
arrived s [] = false
arrived s ((k, i) ∷ rest) = eqb_ℤ k s || arrived s rest

-- Each chunk that arrives is the chunk of its number.
abbrev pub AllOf : (ℤ → Chunk) → List (ℤ × Chunk) → Type 0
AllOf f [] = Unit
AllOf f ((k, i) ∷ rest) = (i ≡ f k) × AllOf f rest

module _ (f : ℤ → Chunk) where
  -- The queue holds the chunks below the expected one, the buffer the others that came.
  record IsInOrder (got : ℤ → Bool) (c : TaskContext) : Type 0 where
    queue : c.in_queue ≡ upto f c.in_expected
    below : (n : ℕ) → n < c.in_expected → got (pos n) ≡ true
    held : (s : ℤ) (i : Chunk) → find s c.in_buffer ≡ some i → (i ≡ f s) × (got s ≡ true)
    kept :
        (s : ℤ)
        → got s ≡ true
        → find s c.in_buffer ≡ none
        → (n : ℕ) × (s ≡ pos n) × (n < c.in_expected)

  IsInOrder-release_next :
      (got : ℤ → Bool) (c : TaskContext) (i : Chunk)
      → IsInOrder got c
      → find (pos c.in_expected) c.in_buffer ≡ some i
      → IsInOrder got (release_next i c)
  unfolding release_next upto
  IsInOrder-release_next got c i p h =
      let (same, came) = p.held (pos c.in_expected) i h in
      record {
        queue = rw p.queue (rw same refl);
        below = λ n lt. elim (Bool-cases (ltb n c.in_expected)) [
          | inl less ↦ p.below n (ground arith)
          | inr not_less ↦ let last : n ≡ c.in_expected = ground arith in rw last came
        ];
        held = λ s j e. p.held s j (ground (arith, find-remove (pos c.in_expected) s c.in_buffer));
        kept = λ s g e. elim (Bool-cases (eqb_ℤ (pos c.in_expected) s)) [
          | inl here ↦ (c.in_expected, sym ((eqb_iff (pos c.in_expected) s).0 here), omega arith)
          | inr other ↦
              let gone : find s c.in_buffer ≡ none =
                sym (find-remove (pos c.in_expected) s c.in_buffer ∙ rw other refl) ∙ e in
              let (n, same', less) = p.kept s g gone in (n, same', omega (arith, less))
        ];
      }

  -- The loop stops only when the next chunk has not come.
  drain-IsInOrder :
      (n : ℕ) (got : ℤ → Bool) (c : TaskContext)
      → IsInOrder got c
      → length c.in_buffer ≤ n
      → IsInOrder got (drain n c)
        × (find (pos (drain n c).in_expected) (drain n c).in_buffer ≡ none)
  unfolding drain release_next
  drain-IsInOrder zero got c p enough = (p, find-empty (pos c.in_expected) c.in_buffer enough)
  drain-IsInOrder (suc n) got c p enough =
      elim (Option-cases (find (pos c.in_expected) c.in_buffer)) [
        | inl missing ↦ rw missing (p, missing)
        | inr (i, there) ↦ rw there (
            drain-IsInOrder n got (release_next i c) (IsInOrder-release_next got c i p there)
              (shorter n c i there enough))
      ]
    where
      shorter :
          (n : ℕ) (c : TaskContext) (i : Chunk)
          → find (pos c.in_expected) c.in_buffer ≡ some i
          → length c.in_buffer ≤ suc n
          → length (release_next i c).in_buffer ≤ n
      shorter n c i there enough =
          omega (arith, length-remove_found (pos c.in_expected) i c.in_buffer there)

  IsInOrder-same :
      (got got' : ℤ → Bool) (c : TaskContext)
      → ((s : ℤ) → got s ≡ got' s)
      → IsInOrder got c
      → IsInOrder got' c
  IsInOrder-same got got' c same p = record {
    queue = p.queue;
    below = λ n less. sym (same (pos n)) ∙ p.below n less;
    held = λ s i e. let (a, b) = p.held s i e in (a, sym (same s) ∙ b);
    kept = λ s g e. p.kept s (same s ∙ g) e;
  }

  IsInOrder-feed_input :
      (got : ℤ → Bool) (c : TaskContext) (k : ℤ) (i : Chunk)
      → i ≡ f k
      → IsInOrder got c
      → IsInOrder (λ s. got s || eqb_ℤ k s) (feed_input k i c)
        × (find (pos (feed_input k i c).in_expected) (feed_input k i c).in_buffer ≡ none)
  unfolding feed_input
  IsInOrder-feed_input got c k i own p =
      drain-IsInOrder (length (store k i c.in_buffer)) (λ s. got s || eqb_ℤ k s)
        (record c { in_buffer = store k i c.in_buffer })
        (record {
          queue = p.queue;
          below = λ n less. ground (arith, p.below n less);
          held = λ s j e. elim (Bool-cases (eqb_ℤ k s)) [
            | inl here ↦
                let same : k ≡ s = (eqb_iff k s).0 here in
                let j_own : i ≡ j =
                  some-inj (sym (find-store k s i c.in_buffer ∙ rw here refl) ∙ e) in
                (sym j_own ∙ own ∙ ap f same, ground arith)
            | inr other ↦
                let (a, b) = p.held s j (sym (find-store k s i c.in_buffer ∙ rw other refl) ∙ e) in
                (a, ground arith)
          ];
          kept = λ s g e. elim (Bool-cases (eqb_ℤ k s)) [
            | inl here ↦ cc (find-store k s i c.in_buffer, here, e)
            | inr other ↦
                p.kept s (ground arith) (sym (find-store k s i c.in_buffer ∙ rw other refl) ∙ e)
          ];
        })
        (omega arith)

  feed_all-IsInOrder :
      (as_came : List (ℤ × Chunk)) (got : ℤ → Bool) (c : TaskContext)
      → AllOf f as_came
      → IsInOrder got c
      → find (pos c.in_expected) c.in_buffer ≡ none
      → IsInOrder (λ s. got s || arrived s as_came) (feed_all as_came c)
        × (find (pos (feed_all as_came c).in_expected) (feed_all as_came c).in_buffer ≡ none)
  unfolding arrived feed_all
  feed_all-IsInOrder [] got c all p stop =
      (IsInOrder-same got (λ s. got s || false) c (λ s. ground arith) p, stop)
  feed_all-IsInOrder ((k, i) ∷ rest) got c (own, all) p stop =
      let (p', stop') = IsInOrder-feed_input got c k i own p in
      let (q, stop'') =
        feed_all-IsInOrder rest (λ s. got s || eqb_ℤ k s) (feed_input k i c) all p' stop' in
      (
        IsInOrder-same (λ s. (got s || eqb_ℤ k s) || arrived s rest)
            (λ s. got s || (eqb_ℤ k s || arrived s rest)) (feed_all rest (feed_input k i c))
            (λ s. ground arith) q,
        stop'',
      )

  IsInOrder-new : (task : Task) → IsInOrder (λ s. false) (new_context task)
  unfolding upto find
  IsInOrder-new task = record {
    queue = refl;
    below = λ n less. ground arith;
    held = λ s i e. cc;
    kept = λ s g e. cc;
  }

  -- Where each chunk that arrives is the chunk of its number, the queue of a task holds the chunks
  -- from 0 on up to the first that has not arrived, each once and in the order of the numbers, in
  -- whatever order, and however often, they arrive.
  pub feed_all_in_order :
      (task : Task) (as_came : List (ℤ × Chunk)) (n : ℕ)
      → AllOf f as_came
      → ((m : ℕ) → m < n → arrived (pos m) as_came ≡ true)
      → arrived (pos n) as_came ≡ false
      → (feed_all as_came (new_context task)).in_queue ≡ upto f n
  unfolding find
  feed_all_in_order task as_came n all came not_yet =
      let c = feed_all as_came (new_context task) in
      let (p, stop) =
        feed_all-IsInOrder as_came (λ s. false) (new_context task) all (IsInOrder-new task) refl in
      let not_below : ¬ (n < c.in_expected) = λ less. cc (p.below n less) in
      let not_above : ¬ (c.in_expected < n) = λ less.
        let (m, same, lt) = p.kept (pos c.in_expected) (came c.in_expected less) stop in
        omega (arith, lt, ap pos_part same) in
      let same : c.in_expected ≡ n = omega (arith, not_below, not_above) in
      p.queue ∙ ap (upto f) same

-- ===== src/Prelude/Sets.antt =====
-- Python's `set` of texts, as a list whose order nothing reads.
use Prim.Native.Nat.{ℕ, suc, ◌≤◌, ◌<◌}
use Prim.Native.String.{String}
use mathlib.Core.Path.{◌≡◌, refl, ap}
use mathlib.Core.Bool.{Bool, true, false, not, ◌&&◌, ◌||◌}
use mathlib.Core.List.{List, [], ◌∷◌, ◌++◌}
use native.Mathlib.Omega.{arith}
use text.Mathlib.Text.{◌==◌}
use text.Mathlib.TextEquality.{eq_iff}
use sdk_reference.Prelude.Tests.{leb, if◌then◌else◌}

-- `k in s`, also for a list.
unfoldable pub has : String → List String → Bool
has k [] = false
has k (x ∷ s) = x == k || has k s

unfoldable pub add : String → List String → List String
unfolding has
add k s = if has k s then s else k ∷ s

unfoldable pub discard : String → List String → List String
discard k [] = []
discard k (x ∷ s) = let rest = discard k s in if x == k then rest else x ∷ rest

pub has-add : (k j : String) (s : List String) → has j (add k s) ≡ (k == j || has j s)
unfolding add
has-add k j s = ground (arith, eq_iff k j)

pub has-discard : (k j : String) (s : List String) → has j (discard k s) ≡ (not (k == j) && has j s)
unfolding has discard
has-discard k j [] = ground arith
has-discard k j (x ∷ s) = ground (arith, eq_iff k j, eq_iff x k, eq_iff x j, has-discard k j s)

pub has-append : (k : String) (s t : List String) → has k (s ++ t) ≡ (has k s || has k t)
unfolding has
has-append k [] t = refl
has-append k (x ∷ s) t = ground (arith, has-append k s t)

module _ {ℓ} {A : Type ℓ} where
  abbrev pub length : List A → ℕ
  length [] = 0
  length (x ∷ xs) = suc (length xs)

-- A property of each element.
abbrev pub Each {ℓ} : {A : Type ℓ} → (A → Type 0) → List A → Type 0
Each P [] = Unit
Each P (x ∷ xs) = P x × Each P xs

pub Each-any {ℓ} : {A : Type ℓ} (xs : List A) → Each (λ _. Unit) xs
Each-any [] = tt
Each-any (x ∷ xs) = (tt, Each-any xs)

abbrev pub eqb : ℕ → ℕ → Bool
eqb a b = leb a b && leb b a

-- `set(xs)`
unfoldable pub to_set : List String → List String
to_set [] = []
to_set (x ∷ xs) = add x (to_set xs)

pub has-to_set : (k : String) (xs : List String) → has k (to_set xs) ≡ has k xs
unfolding has to_set
has-to_set k [] = refl
has-to_set k (x ∷ xs) = ground (arith, has-add x k (to_set xs), has-to_set k xs)

-- No text occurs twice.
abbrev pub IsDistinct : List String → Type 0
IsDistinct [] = Unit
IsDistinct (x ∷ xs) = (has x xs ≡ false) × IsDistinct xs

length-to_set : (xs : List String) → length (to_set xs) ≤ length xs
unfolding to_set add
length-to_set [] = omega arith
length-to_set (x ∷ xs) = ground (arith, length-to_set xs)

-- A list is as long as its set only if it has no text twice.
pub to_set-IsDistinct : (xs : List String) → length (to_set xs) ≡ length xs → IsDistinct xs
unfolding to_set add
to_set-IsDistinct [] h = tt
to_set-IsDistinct (x ∷ xs) h =
    ground (arith, length-to_set xs, has-to_set x xs, to_set-IsDistinct xs)

pub IsDistinct-to_set : (xs : List String) → IsDistinct xs → length (to_set xs) ≡ length xs
unfolding to_set add
IsDistinct-to_set [] d = refl
IsDistinct-to_set (x ∷ xs) (new, d) = ground (arith, has-to_set x xs, IsDistinct-to_set xs d)

-- How many of the first are not in the second.
unfoldable pub missing : List String → List String → ℕ
missing [] s = 0
missing (x ∷ xs) s = let rest = missing xs s in if has x s then rest else suc rest

pub missing_mono :
    (xs s t : List String)
    → ((k : String) → has k s ≡ true → has k t ≡ true)
    → missing xs t ≤ missing xs s
unfolding missing
missing_mono [] s t h = omega arith
missing_mono (x ∷ xs) s t h = ground (arith, h x, missing_mono xs s t h)

-- A new member of the second that is in the first.
pub missing-lt :
    (xs s t : List String) (k : String)
    → ((j : String) → has j s ≡ true → has j t ≡ true)
    → has k xs ≡ true
    → has k s ≡ false
    → has k t ≡ true
    → missing xs t < missing xs s
unfolding missing has
missing-lt [] s t k h m a b = ground arith
missing-lt (x ∷ xs) s t k h m a b =
    ground (arith, h x, eq_iff x k, missing_mono xs s t h, missing-lt xs s t k h)

pub missing-le_length : (xs s : List String) → missing xs s ≤ length xs
unfolding missing
missing-le_length [] s = omega arith
missing-le_length (x ∷ xs) s = ground (arith, missing-le_length xs s)

pub IsDistinct-snoc :
    (xs : List String) (x : String) → IsDistinct xs → has x xs ≡ false → IsDistinct (xs ++ x ∷ [])
unfolding has
IsDistinct-snoc [] x d new = (refl, tt)
IsDistinct-snoc (y ∷ ys) x (new', d) new = (
  ground (arith, has-append y ys (x ∷ []), eq_iff x y, eq_iff y x),
  IsDistinct-snoc ys x d (ground arith),
)

pub append_assoc : {A : Type 0} (xs ys zs : List A) → (xs ++ ys) ++ zs ≡ xs ++ (ys ++ zs)
append_assoc [] ys zs = refl
append_assoc (x ∷ xs) ys zs = ap (λ r. x ∷ r) (append_assoc xs ys zs)

pub append_nil : {A : Type 0} (xs : List A) → xs ++ [] ≡ xs
append_nil [] = refl
append_nil (x ∷ xs) = ap (λ r. x ∷ r) (append_nil xs)

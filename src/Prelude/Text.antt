-- ===== src/Prelude/Text.antt =====
-- Texts built by a literal prefix, as `f"release:{op_ref}"`.
use Prim.Native.Nat.{ℕ}
use Prim.Native.Char.{Char, code}
use Prim.Native.String.{String, ◌∷◌, ◌++◌}
use mathlib.Core.Path.{◌≡◌, ap}
use native.Mathlib.Omega.{arith}
use mathlib.Core.Bool.{false}
use text.Mathlib.Text.{◌==◌}
use text.Mathlib.TextEquality.{eq_iff}
use text.Mathlib.TextLemmas.{append_cancel_left, cons-append}

first_code : String → ℕ
first_code String.[] = 0
first_code (c ∷ s) = code c

third_code : String → ℕ
third_code (a ∷ b ∷ c ∷ s) = code c
third_code _ = 0

first_code-append : (c : Char) (s t : String) → first_code ((c ∷ s) ++ t) ≡ code c
unfolding first_code
first_code-append c s t = ap first_code (cons-append c s t)

third_code-append : (a b c : Char) (s t : String) → third_code ((a ∷ b ∷ c ∷ s) ++ t) ≡ code c
unfolding third_code
third_code-append a b c s t = rw (cons-append, cons-append, cons-append)

pub release-ne-reclaim : (a b : String) → ¬ ("release:" ++ a ≡ "reclaim:" ++ b)
release-ne-reclaim a b h = omega (
  arith,
  ap third_code h,
  third_code-append "r" "e" "l" "ease:" a,
  third_code-append "r" "e" "c" "laim:" b,
)

pub release-ne-auto_release : (a b : String) → ¬ ("release:" ++ a ≡ "auto_release:" ++ b)
release-ne-auto_release a b h = omega (
  arith,
  ap first_code h,
  first_code-append "r" "elease:" a,
  first_code-append "a" "uto_release:" b,
)

pub reclaim-ne-auto_release : (a b : String) → ¬ ("reclaim:" ++ a ≡ "auto_release:" ++ b)
reclaim-ne-auto_release a b h = omega (
  arith,
  ap first_code h,
  first_code-append "r" "eclaim:" a,
  first_code-append "a" "uto_release:" b,
)

pub release-ne-expiry : (a : String) → ¬ ("release:" ++ a ≡ "expiry_reclaim")
unfolding first_code
release-ne-expiry a h = omega (arith, ap first_code h, first_code-append "r" "elease:" a)

pub reclaim-ne-expiry : (a : String) → ¬ ("reclaim:" ++ a ≡ "expiry_reclaim")
unfolding first_code
reclaim-ne-expiry a h = omega (arith, ap first_code h, first_code-append "r" "eclaim:" a)

pub auto_release-ne-expiry : (a : String) → ¬ ("auto_release:" ++ a ≡ "expiry_reclaim")
unfolding first_code
auto_release-ne-expiry a h = omega (arith, ap first_code h, first_code-append "a" "uto_release:" a)

pub release-injective : (a b : String) → "release:" ++ a ≡ "release:" ++ b → a ≡ b
release-injective = append_cancel_left "release:"

pub reclaim-injective : (a b : String) → "reclaim:" ++ a ≡ "reclaim:" ++ b → a ≡ b
reclaim-injective = append_cancel_left "reclaim:"

-- Texts that test different are different.
pub text_ne : (a b : String) → (a == b) ≡ false → ¬ (a ≡ b)
text_ne a b h e = ground (arith, eq_iff a b)

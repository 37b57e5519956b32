-- ===== src/Prelude/Texts.antt =====
-- Python strings as lists of code points: equality, prefixes, and the order that `min` and `max`
-- use on strings.
use cadencia_a2a_platform.Prelude.Lists.{length}
use mathlib.Core.Logic.{◌⊎◌, inl, inr, ◌≢◌}
use mathlib.Core.List.{◌++◌}
use cadencia_a2a_platform.Prelude.Tests.{Bool-cases}
use Prim.Native.Nat.{ℕ, compare, Ordering}
use Prim.Native.Char.{code}
use Prim.Native.String.{String}
use mathlib.Core.Path.{◌≡◌, refl}
use mathlib.Core.Bool.{Bool, true, false, ◌&&◌}
use mathlib.Core.List.{List, [], ◌∷◌}
use native.Mathlib.Omega.{arith}
use cadencia_a2a_platform.Prelude.Tests.{◌==◌, ==_self}

abbrev pub Text : Type 0
Text = List ℕ

abbrev pub codes : String → Text
codes String.[] = []
codes (String.◌∷◌ c s) = code c ∷ codes s

-- `s == t`
abbrev pub text_eq : Text → Text → Bool
text_eq [] [] = true
text_eq [] (d ∷ t) = false
text_eq (c ∷ s) [] = false
text_eq (c ∷ s) (d ∷ t) = (c == d) && text_eq s t

pub text_eq_self : (s : Text) → text_eq s s ≡ true
text_eq_self [] = refl
text_eq_self (c ∷ s) = ground (arith, text_eq_self s, ==_self c)

pub text_eq→eq : (s t : Text) → text_eq s t ≡ true → s ≡ t
text_eq→eq [] [] h = refl
text_eq→eq [] (d ∷ t) h = cc
text_eq→eq (c ∷ s) [] h = cc
text_eq→eq (c ∷ s) (d ∷ t) h = ground (arith, text_eq→eq s t)

-- `s < t`: lexicographic by code point.
abbrev pub text_lt : Text → Text → Bool
text_lt [] [] = false
text_lt [] (d ∷ t) = true
text_lt (c ∷ s) [] = false
text_lt (c ∷ s) (d ∷ t) = elim (compare c d) [
  | Ordering.lt ↦ true
  | Ordering.eq ↦ text_lt s t
  | Ordering.gt ↦ false
]

-- Of two strings one is the smaller, or they are equal.
pub text_lt_total : (s t : Text) → text_lt s t ≡ false → text_lt t s ≡ false → s ≡ t
text_lt_total [] [] h k = refl
text_lt_total [] (d ∷ t) h k = cc
text_lt_total (c ∷ s) [] h k = cc
text_lt_total (c ∷ s) (d ∷ t) h k = ground (arith, text_lt_total s t)

pub text_lt_asymm : (s t : Text) → text_lt s t ≡ true → text_lt t s ≡ false
text_lt_asymm [] [] h = cc
text_lt_asymm [] (d ∷ t) h = refl
text_lt_asymm (c ∷ s) [] h = cc
text_lt_asymm (c ∷ s) (d ∷ t) h = ground (arith, text_lt_asymm s t)

-- Texts of equal lengths are read off a concatenation.
pub append_parts : (a b c d : Text) → length a ≡ length b → a ++ c ≡ b ++ d → (a ≡ b) × (c ≡ d)
append_parts [] [] c d l h = (refl, h)
append_parts [] (y ∷ b) c d l h = absurd (omega arith)
append_parts (x ∷ a) [] c d l h = absurd (omega arith)
append_parts (x ∷ a) (y ∷ b) c d l h =
    let r = append_parts a b c d (omega arith) (cc) in (cc (r.0), r.1)

pub text_eq-cases : (a b : Text) → (a ≡ b) ⊎ (a ≢ b)
text_eq-cases a b = elim (Bool-cases (text_eq a b)) [
  | inl e ↦ inl (text_eq→eq a b e)
  | inr e ↦ inr (λ p. differ p e)
]
  where
    differ : a ≡ b → text_eq a b ≡ false → ⊥
    differ p e = cc (text_eq_self b)

-- ===== src/Prelude/Bytes.antt =====
-- Texts. A Go string is a sequence of bytes, so a text is a list of numbers. `text` gives the codes
-- of a literal, which are its bytes since every literal of the program that is used here is ASCII.
-- It is shut, so that a literal stays one short term in a proof.
use Prim.Native.Nat.{ℕ}
use Prim.Native.Char.{code}
use Prim.Native.String.{String}
use mathlib.Core.Path.{◌≡◌, refl}
use mathlib.Core.Logic.{◌↔◌, ◌≢◌}
use mathlib.Core.Bool.{Bool, true, false, ◌&&◌}
use mathlib.Core.List.{List, [], ◌∷◌}
use native.Mathlib.Omega.{arith}
use webridge.Prelude.Tests.{eqb}

abbrev pub Text : Type 0
Text = List ℕ

unfoldable pub text : String → Text
text String.[] = []
text (String.◌∷◌ c s) = code c ∷ text s

infix 50 ◌==◌
unfoldable pub ◌==◌ : Text → Text → Bool
[] == [] = true
[] == (y ∷ ys) = false
(x ∷ xs) == [] = false
(x ∷ xs) == (y ∷ ys) = eqb x y && (xs == ys)

unfoldable pub not_empty : Text → Bool
not_empty [] = false
not_empty (x ∷ xs) = true

eq_of_== : (s t : Text) → (s == t) ≡ true → s ≡ t
unfolding ◌==◌
eq_of_== [] [] h = refl
eq_of_== [] (y ∷ ys) h = cc
eq_of_== (x ∷ xs) [] h = cc
eq_of_== (x ∷ xs) (y ∷ ys) h = ground (arith, eq_of_== xs ys)

pub eq_refl : (s : Text) → (s == s) ≡ true
unfolding ◌==◌
eq_refl [] = refl
eq_refl (x ∷ xs) = ground (arith, eq_refl xs)

pub eq_iff : (s t : Text) → ((s == t) ≡ true) ↔ (s ≡ t)
eq_iff s t = (eq_of_== s t, λ e. rw e (eq_refl t))

pub ne_of_false : (s t : Text) → (s == t) ≡ false → s ≢ t
ne_of_false s t h = ground (arith, eq_iff s t)

pub false_of_ne : (s t : Text) → s ≢ t → (s == t) ≡ false
false_of_ne s t h = ground (arith, eq_iff s t)

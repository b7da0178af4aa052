-- ===== src/Strings.antt =====
-- The functions of Go's `strings` package that the program calls, on bytes. `to_lower` and
-- `trim_space` know the ASCII letters and spaces only: what Go does to other letters is not modelled.
use webridge.Prelude.{
  ℕ, ◌+◌, Bool, true, false, ◌&&◌, ◌||◌, Option, none, some, List, [], ◌∷◌, map, leb, eqb,
  if◌then◌else◌, Text, ◌==◌,
}

unfoldable pub lower_byte : ℕ → ℕ
lower_byte c = if leb b'A' c && leb c b'Z' then c + 32 else c

unfoldable pub to_lower : Text → Text
unfolding lower_byte
to_lower s = map lower_byte s

unfoldable pub equal_fold : Text → Text → Bool
unfolding to_lower
equal_fold s t = to_lower s == to_lower t

unfoldable pub is_space : ℕ → Bool
is_space c = leb 9 c && leb c 13 || eqb c 32

unfoldable pub trim_left : (ℕ → Bool) → Text → Text
trim_left p [] = []
trim_left p (c ∷ s) = if p c then trim_left p s else c ∷ s

-- A byte in front of a trimmed text; a space stays only before something.
unfoldable pub attach : Bool → ℕ → Text → Text
attach space c [] = if space then [] else c ∷ []
attach space c (d ∷ t) = c ∷ d ∷ t

unfoldable pub trim_right : (ℕ → Bool) → Text → Text
unfolding attach
trim_right p [] = []
trim_right p (c ∷ s) = attach (p c) c (trim_right p s)

unfoldable pub trim_space : Text → Text
unfolding trim_left trim_right is_space
trim_space s = trim_right is_space (trim_left is_space s)

unfoldable pub has_prefix : Text → Text → Bool
has_prefix s [] = true
has_prefix [] (p ∷ ps) = false
has_prefix (c ∷ s) (p ∷ ps) = eqb c p && has_prefix s ps

unfoldable pub has_suffix : Text → Text → Bool
has_suffix [] t = [] == t
has_suffix (c ∷ s) t = ((c ∷ s) == t) || has_suffix s t

unfoldable pub contains : Text → Text → Bool
unfolding has_prefix
contains [] t = has_prefix [] t
contains (c ∷ s) t = has_prefix (c ∷ s) t || contains s t

-- What stands before the first `b`, and whether there is one.
unfoldable pub before : ℕ → Text → Text × Bool
before b [] = ([], false)
before b (c ∷ s) = if eqb c b then ([], true) else (c ∷ (before b s).0, (before b s).1)

-- `s[strings.LastIndex(s, b)+1:]`, if `b` occurs.
unfoldable pub after_last : ℕ → Text → Option Text
after_last b [] = none
after_last b (c ∷ s) =
    let found = after_last b s in
    elim found [ some t ↦ some t | none ↦ if eqb c b then some s else none ]

-- A list of texts has the text.
unfoldable pub has : Text → List Text → Bool
has t [] = false
has t (s ∷ ss) = (s == t) || has t ss

-- `if strings.HasSuffix(s, ".") { s = s[:len(s)-1] }`
unfoldable pub drop_dot : Text → Text
drop_dot [] = []
drop_dot (c ∷ []) = if eqb c b'.' then [] else c ∷ []
drop_dot (c ∷ d ∷ s) = c ∷ drop_dot (d ∷ s)

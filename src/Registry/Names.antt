-- ===== src/Registry/Names.antt =====
-- `ProvidersHandler` of internal/handlers/download.go: the names of the registry, in the order of
-- `sort.Strings`, which compares bytes.
use webridge.Prelude.{
  ℕ, ◌+◌, ◌<◌, ◌≡◌, refl, ap, sym, ◌∙◌, Bool, true, false, ◌&&◌, ◌||◌, List, [], ◌∷◌, All, if_cases,
  eqb, ltb, if◌then◌else◌, Text, ◌==◌, eq_iff, eq_refl, Bool-cases, inl, inr, arith,
}
use webridge.Registry.{Registry, get_provider_names}

unfoldable pub at_most : Text → Text → Bool
at_most [] t = true
at_most (c ∷ s) [] = false
at_most (c ∷ s) (d ∷ t) = ltb c d || (eqb c d && at_most s t)

unfoldable pub place : Text → List Text → List Text
place s [] = s ∷ []
place s (t ∷ ts) = if at_most s t then s ∷ t ∷ ts else t ∷ place s ts

unfoldable pub sort_strings : List Text → List Text
unfolding place
sort_strings [] = []
sort_strings (s ∷ ss) = place s (sort_strings ss)

unfoldable pub providers_handler : Registry → List Text
providers_handler r = sort_strings (get_provider_names r)

-- How often a list has a text.
abbrev pub times : Text → List Text → ℕ
times a [] = 0
times a (s ∷ ss) = (if s == a then 1 else 0) + times a ss

-- Two lists have the same texts, as often, in any order.
abbrev pub SameItems : List Text → List Text → Type 0
SameItems xs ys = (a : Text) → times a xs ≡ times a ys

abbrev pub IsSorted : List Text → Type 0
IsSorted [] = Unit
IsSorted (s ∷ ss) = All (λ t. at_most s t ≡ true) ss × IsSorted ss

at_most-total : (s t : Text) → at_most s t ≡ false → at_most t s ≡ true
unfolding at_most
at_most-total [] t h = cc
at_most-total (c ∷ s) [] h = refl
at_most-total (c ∷ s) (d ∷ t) h = ground (arith, at_most-total s t)

at_most-antisym : (s t : Text) → at_most s t ≡ true → at_most t s ≡ true → s ≡ t
unfolding at_most
at_most-antisym [] [] h k = refl
at_most-antisym [] (d ∷ t) h k = cc
at_most-antisym (c ∷ s) [] h k = cc
at_most-antisym (c ∷ s) (d ∷ t) h k = ground (arith, at_most-antisym s t)

at_most_trans : (s t u : Text) → at_most s t ≡ true → at_most t u ≡ true → at_most s u ≡ true
unfolding at_most
at_most_trans [] t u h k = refl
at_most_trans (c ∷ s) [] u h k = cc
at_most_trans (c ∷ s) (d ∷ t) [] h k = cc
at_most_trans (c ∷ s) (d ∷ t) (e ∷ u) h k = ground (arith, at_most_trans s t u)

at_most_refl : (s : Text) → at_most s s ≡ true
unfolding at_most
at_most_refl [] = refl
at_most_refl (c ∷ s) = ground (arith, at_most_refl s)

times-place : (a s : Text) (ts : List Text) → times a (place s ts) ≡ times a (s ∷ ts)
unfolding place
times-place a s [] = refl
times-place a s (t ∷ ts) = ground (arith, times-place a s ts)

times-sort : (a : Text) (ss : List Text) → times a (sort_strings ss) ≡ times a ss
unfolding sort_strings
times-sort a [] = refl
times-sort a (s ∷ ss) = ground (arith, times-place a s (sort_strings ss), times-sort a ss)

All-place : (P : Text → Type 0) (s : Text) (ts : List Text) → P s → All P ts → All P (place s ts)
unfolding place
All-place P s [] p h = (p, tt)
All-place P s (t ∷ ts) p (q, h) =
    if_cases (All P) (at_most s t) _ _ (λ _. (p, (q, h))) (λ _. (q, All-place P s ts p h))

All-after :
    (s t : Text) (ts : List Text)
    → at_most s t ≡ true
    → All (λ u. at_most t u ≡ true) ts
    → All (λ u. at_most s u ≡ true) ts
All-after s t [] h all = tt
All-after s t (u ∷ ts) h (k, all) = (at_most_trans s t u h k, All-after s t ts h all)

place-IsSorted : (s : Text) (ts : List Text) → IsSorted ts → IsSorted (place s ts)
unfolding place
place-IsSorted s [] h = (tt, tt)
place-IsSorted s (t ∷ ts) (all, h) =
    if_cases IsSorted (at_most s t) _ _ (λ le. ((le, All-after s t ts le all), (all, h)))
      (λ gt. (
        All-place (λ u. at_most t u ≡ true) s ts (at_most-total s t gt) all,
        place-IsSorted s ts h,
      ))

sort_strings-IsSorted : (ss : List Text) → IsSorted (sort_strings ss)
unfolding sort_strings
sort_strings-IsSorted [] = tt
sort_strings-IsSorted (s ∷ ss) = place-IsSorted s (sort_strings ss) (sort_strings-IsSorted ss)

All-at : (P : Text → Type 0) (a : Text) (ss : List Text) → All P ss → 0 < times a ss → P a
All-at P a [] h n = absurd (omega arith)
All-at P a (s ∷ ss) (p, h) n = elim (Bool-cases (s == a)) [
  | inl e ↦ rw (sym ((eq_iff s a).0 e)) p
  | inr e ↦ All-at P a ss h (ground arith)
]

-- The first of a sorted list is at most each text that the list has.
first_least :
    (s a : Text) (ss : List Text) → IsSorted (s ∷ ss) → 0 < times a (s ∷ ss) → at_most s a ≡ true
first_least s a ss (all, h) n = All-at (λ u. at_most s u ≡ true) a (s ∷ ss) (at_most_refl s, all) n

sorted_unique : (xs ys : List Text) → IsSorted xs → IsSorted ys → SameItems xs ys → xs ≡ ys
sorted_unique [] [] h k same = refl
sorted_unique [] (y ∷ ys) h k same = absurd (ground (arith, same y, eq_refl y))
sorted_unique (x ∷ xs) [] h k same = absurd (ground (arith, same x, eq_refl x))
sorted_unique (x ∷ xs) (y ∷ ys) h k same =
    let first : x ≡ y =
      at_most-antisym x y (first_least x y xs h (ground (arith, same y, eq_refl y)))
        (first_least y x ys k (ground (arith, same x, eq_refl x))) in
    let rest : SameItems xs ys = λ a. ground (arith, same a, first) in
    rw first (ap (◌∷◌ y) (sorted_unique xs ys h.1 k.1 rest))

-- The answer is sorted, has each name as often as the registry, and is that of every registry with the same
-- names: it does not depend on the order in which the map of providers is read.
pub providers_handler_lem :
    (r again : Registry)
    → SameItems (get_provider_names r) (get_provider_names again)
    → IsSorted (providers_handler r)
      × SameItems (providers_handler r) (get_provider_names r)
      × (providers_handler r ≡ providers_handler again)
unfolding providers_handler
providers_handler_lem r again same =
    let names = get_provider_names r in
    let others = get_provider_names again in
    (
      sort_strings-IsSorted names,
      λ a. times-sort a names,
      sorted_unique (sort_strings names) (sort_strings others) (sort_strings-IsSorted names)
          (sort_strings-IsSorted others)
          (λ a. times-sort a names ∙ same a ∙ sym (times-sort a others)),
    )

-- ===== src/Filename/Safe.antt =====
-- The name that goes into the header Content-Disposition.
use webridge.Prelude.{
  ℕ, zero, suc, ◌≤◌, ◌≡◌, ◌≢◌, refl, ap, [], ◌∷◌, map, keep, take, length, length-take, ltb,
  if_cases, le_of_ltb, Text, arith, All,
}
use webridge.Filename.{quote_free, is_not, sanitize_filename}

-- A byte that cannot end the quoted name or the header.
abbrev pub IsSafeByte : ℕ → Type 0
IsSafeByte c = (c ≢ 34) × (c ≢ 10) × (c ≢ 13)

abbrev cleaned : Text → Text
cleaned name = keep (is_not 13) (keep (is_not 10) (map quote_free name))

cleaned-All : (name : Text) → All IsSafeByte (cleaned name)
cleaned-All [] = tt
cleaned-All (c ∷ name) = ground (arith, cleaned-All name)

take-All : (n : ℕ) (s : Text) → All IsSafeByte s → All IsSafeByte (take n s)
take-All zero s h = tt
take-All (suc n) [] h = tt
take-All (suc n) (c ∷ s) h = (h.0, take-All n s h.1)

length-take-le : (n : ℕ) (s : Text) → length (take n s) ≤ n
length-take-le n s = omega (arith, length-take n s)

cleaned_of_safe : (s : Text) → All IsSafeByte s → cleaned s ≡ s
cleaned_of_safe [] h = refl
cleaned_of_safe (c ∷ s) h = ground (arith, cleaned_of_safe s)

take_of_le : (n : ℕ) (s : Text) → length s ≤ n → take n s ≡ s
take_of_le zero [] h = refl
take_of_le zero (c ∷ s) h = absurd (omega arith)
take_of_le (suc n) [] h = refl
take_of_le (suc n) (c ∷ s) h = ap (◌∷◌ c) (take_of_le n s (omega arith))

-- Whatever the name, the result has no quote, newline or carriage return, and 255 bytes at most.
pub sanitize_filename_lem :
    (name : Text)
    → All IsSafeByte (sanitize_filename name) × (length (sanitize_filename name) ≤ 255)
unfolding sanitize_filename
sanitize_filename_lem name = (
  if_cases (All IsSafeByte) _ _ _ (λ _. take-All 255 (cleaned name) (cleaned-All name))
      (λ _. cleaned-All name),
  if_cases {A = Text} (λ s. length s ≤ 255) (ltb 255 (length (cleaned name)))
      (take 255 (cleaned name)) (cleaned name) (λ _. length-take-le 255 (cleaned name))
      (le_of_ltb 255 (length (cleaned name))),
)

-- A name that is so already is not changed.
pub sanitize_filename_safe :
    (name : Text) → All IsSafeByte name → length name ≤ 255 → sanitize_filename name ≡ name
unfolding sanitize_filename
sanitize_filename_safe name h l =
    if_cases {A = Text} (λ s. s ≡ name) (ltb 255 (length (cleaned name))) (take 255 (cleaned name))
      (cleaned name) (λ _. rw (cleaned_of_safe name h) (take_of_le 255 name l))
      (λ _. cleaned_of_safe name h)

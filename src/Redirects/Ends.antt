-- ===== src/Redirects/Ends.antt =====
-- Every call of a client of internal/providers/providers.go ends, after few requests.
use webridge.Prelude.{
  ℕ, zero, suc, ◌-◌, ◌≤◌, ◌<◌, ◌≡◌, refl, ap, ◌⊎◌, inl, inr, not, Option, none, some, List, [], ◌∷◌,
  ◌++◌, length, length-append, if◌then◌else◌, Text, ℤ, pos, negsuc, pos_part, ltb_ℤ, Option-cases,
  arith,
}
use webridge.Redirects.{
  ClientConfig, too_many_redirects, check_redirect, new_base_client, Done, Do, answered, stopped,
  redirected,
}

-- One request is made in any case.
abbrev pub most : ClientConfig → ℕ
most cfg = suc (pos_part cfg.max_redirects - 1)

-- How many more may be made after so many.
abbrev left : ClientConfig → ℕ → ℕ
left cfg n = pos_part cfg.max_redirects - n

below :
    (n : ℕ) (m : ℤ)
    → (if not (ltb_ℤ (pos n) m) then some too_many_redirects else none) ≡ none
    → n < pos_part m
below n (pos m) h = ground arith
below n (negsuc m) h = ground arith

check_redirect-none :
    (cfg : ClientConfig) (made : List Text)
    → (new_base_client cfg).check_redirect made ≡ none
    → length made < pos_part cfg.max_redirects
unfolding new_base_client check_redirect
check_redirect-none cfg made h = below (length made) cfg.max_redirects h

check_redirect-some :
    (cfg : ClientConfig) (made : List Text) (e : Text)
    → (new_base_client cfg).check_redirect made ≡ some e
    → e ≡ too_many_redirects
unfolding new_base_client check_redirect
check_redirect-some cfg made e h = ground arith

module _ (cfg : ClientConfig) (next : List Text → Option Text) where
  -- No way of a call makes more requests, and its only error is that of the limit.
  pub Do-IsBounded :
      {made : List Text} {done : Done}
      → Do (new_base_client cfg) next made done
      → length made ≤ most cfg
      → (length done.made ≤ most cfg)
        × ((done.error ≡ none) ⊎ (done.error ≡ some too_many_redirects))
  Do-IsBounded (answered made q) l = (l, inl refl)
  Do-IsBounded (stopped made target e q c) l = (l, inr (ap some (check_redirect-some cfg made e c)))
  Do-IsBounded (redirected made target done q c rest) l =
      Do-IsBounded rest
        (omega (arith, check_redirect-none cfg made c, length-append made (target ∷ [])))

  Do-exists :
      (fuel : ℕ) (made : List Text)
      → left cfg (length made) < fuel
      → (done : Done) × Do (new_base_client cfg) next made done
  Do-exists zero made l = absurd (omega arith)
  Do-exists (suc fuel) made l = elim (Option-cases (next made)) [
    | inl q ↦ (record { made = made; error = none }, answered made q)
    | inr (target, q) ↦ elim (Option-cases ((new_base_client cfg).check_redirect made)) [
      | inr (e, c) ↦ (record { made = made; error = some e }, stopped made target e q c)
      | inl c ↦
          let (done, rest) =
            Do-exists fuel (made ++ target ∷ [])
              (omega (arith, check_redirect-none cfg made c, length-append made (target ∷ []))) in
          (done, redirected made target done q c rest)
    ]
  ]

  -- A call for a URL ends, wherever the servers redirect it: with an answer that is no redirect, or with
  -- ErrTooManyRedirects, after as many requests as MaxRedirects says at most, and after one if that is
  -- less than one.
  pub Do-Ends :
      (url : Text)
      → (done : Done) × Do (new_base_client cfg) next (url ∷ []) done
        × (length done.made ≤ most cfg)
        × ((done.error ≡ none) ⊎ (done.error ≡ some too_many_redirects))
  Do-Ends url =
      let (done, way) = Do-exists (suc (pos_part cfg.max_redirects)) (url ∷ []) (omega arith) in
      let (few, error) = Do-IsBounded way (omega arith) in (done, way, few, error)

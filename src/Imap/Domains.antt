-- ===== src/Imap/Domains.antt =====
-- The domain allowlist of internal/auth/imap.go.
use mathlib.Core.Path.{◌≡⟨◌⟩◌, ◌∎}
use webridge.Prelude.{
  ℕ, ◌≡◌, ◌≢◌, refl, ap, ◌∙◌, Bool, false, ◌||◌, some, List, [], ◌∷◌, map, keep, Text, ◌==◌,
  not_empty, arith, Bool-cases, inl, inr,
}
use webridge.Strings.{
  lower_byte, to_lower, equal_fold, trim_space, trim_left, trim_right, attach, is_space, after_last,
}
use webridge.Config.{ImapEmailConfig}
use webridge.Imap.{listed, imap_domain_allowed, normalize_imap}

lower_byte_idem : (c : ℕ) → lower_byte (lower_byte c) ≡ lower_byte c
unfolding lower_byte
lower_byte_idem c = ground arith

to_lower_idem : (s : Text) → to_lower (to_lower s) ≡ to_lower s
unfolding to_lower
to_lower_idem [] = refl
to_lower_idem (c ∷ s) = cc (lower_byte_idem c, to_lower_idem s)

is_space-lower_byte : (c : ℕ) → is_space (lower_byte c) ≡ is_space c
unfolding is_space lower_byte
is_space-lower_byte c = ground arith

trim_left-to_lower : (s : Text) → trim_left is_space (to_lower s) ≡ to_lower (trim_left is_space s)
unfolding trim_left to_lower
trim_left-to_lower [] = refl
trim_left-to_lower (c ∷ s) = ground (arith, is_space-lower_byte c, trim_left-to_lower s)

trim_right-to_lower :
    (s : Text) → trim_right is_space (to_lower s) ≡ to_lower (trim_right is_space s)
unfolding trim_right to_lower
trim_right-to_lower [] = refl
trim_right-to_lower (c ∷ s) = ground (arith, is_space-lower_byte c, trim_right-to_lower s)

trim_space-to_lower : (s : Text) → trim_space (to_lower s) ≡ to_lower (trim_space s)
unfolding trim_space
trim_space-to_lower s =
    ap (trim_right is_space) (trim_left-to_lower s) ∙ trim_right-to_lower (trim_left is_space s)

-- A text that begins with no space, and what is left of it when spaces go from its end.
abbrev StartsFull : Text → Type 0
StartsFull [] = Unit
StartsFull (c ∷ s) = is_space c ≡ false

trim_left-StartsFull : (s : Text) → StartsFull (trim_left is_space s)
unfolding trim_left
trim_left-StartsFull [] = tt
trim_left-StartsFull (c ∷ s) = elim (Bool-cases (is_space c)) [
  | inl y ↦ rw y (trim_left-StartsFull s)
  | inr n ↦ rw n n
]

attach-StartsFull :
    (c : ℕ) (rest : Text) → is_space c ≡ false → StartsFull (attach (is_space c) c rest)
unfolding attach
attach-StartsFull c [] h = rw h h
attach-StartsFull c (d ∷ t) h = h

trim_right-StartsFull : (s : Text) → StartsFull s → StartsFull (trim_right is_space s)
unfolding trim_right
trim_right-StartsFull [] h = tt
trim_right-StartsFull (c ∷ s) h = attach-StartsFull c (trim_right is_space s) h

trim_left_of_StartsFull : (s : Text) → StartsFull s → trim_left is_space s ≡ s
unfolding trim_left
trim_left_of_StartsFull [] h = refl
trim_left_of_StartsFull (c ∷ s) h = ground arith

trim_right-attach :
    (c : ℕ) (rest : Text)
    → trim_right is_space rest ≡ rest
    → trim_right is_space (attach (is_space c) c rest) ≡ attach (is_space c) c rest
unfolding trim_right
trim_right-attach c [] h = elim (Bool-cases (is_space c)) [
  | inl y ↦ rw (y, attach)
  | inr n ↦ rw (n, attach) (rw (n, attach))
]
trim_right-attach c (d ∷ t) h = ap (attach (is_space c) c) h

trim_right_idem : (s : Text) → trim_right is_space (trim_right is_space s) ≡ trim_right is_space s
unfolding trim_right
trim_right_idem [] = refl
trim_right_idem (c ∷ s) = trim_right-attach c (trim_right is_space s) (trim_right_idem s)

trim_space_idem : (s : Text) → trim_space (trim_space s) ≡ trim_space s
unfolding trim_space
trim_space_idem s =
    let t = trim_left is_space s in
    ap (trim_right is_space) (
      trim_left_of_StartsFull (trim_right is_space t)
        (trim_right-StartsFull t (trim_left-StartsFull s)))
    ∙ trim_right_idem t

-- What `normalizeIMAP` makes of a domain compares as the domain did.
stored : (d : Text) → to_lower (trim_space (to_lower (trim_space d))) ≡ to_lower (trim_space d)
stored d =
    to_lower (trim_space (to_lower (trim_space d)))
    ≡⟨ ap to_lower (trim_space-to_lower (trim_space d)) ⟩
      to_lower (to_lower (trim_space (trim_space d)))
    ≡⟨ to_lower_idem (trim_space (trim_space d)) ⟩ to_lower (trim_space (trim_space d))
    ≡⟨ ap to_lower (trim_space_idem d) ⟩ to_lower (trim_space d) ∎

abbrev normalized : List Text → List Text
normalized ds = keep not_empty (map (λ d. to_lower (trim_space d)) ds)

-- The allowlist as a set of lower-case domains.
abbrev pub among : Text → List Text → Bool
among dom [] = false
among dom (d ∷ ds) = (to_lower (trim_space d) == to_lower dom) || among dom ds

listed-eq : (dom : Text) (ds : List Text) → listed (to_lower dom) ds ≡ among dom ds
unfolding listed equal_fold
listed-eq dom [] = refl
listed-eq dom (d ∷ ds) = ground (arith, to_lower_idem dom, listed-eq dom ds)

blank_matches_none : (x dom : Text) → not_empty x ≡ false → dom ≢ [] → (x == to_lower dom) ≡ false
unfolding not_empty ◌==◌ to_lower
blank_matches_none [] [] n h = absurd (h refl)
blank_matches_none [] (c ∷ dom) n h = refl
blank_matches_none (y ∷ x) dom n h = cc

among-normalized :
    (dom : Text) (ds : List Text) → dom ≢ [] → among dom (normalized ds) ≡ among dom ds
among-normalized dom [] h = refl
among-normalized dom (d ∷ ds) h = elim (Bool-cases (not_empty (to_lower (trim_space d)))) [
  | inl y ↦ ground (arith, stored d, among-normalized dom ds h)
  | inr n ↦
      ground
        (arith, among-normalized dom ds h, blank_matches_none (to_lower (trim_space d)) dom n h)
]

-- An address with a domain behind its last `@` is allowed exactly if this domain is among the allowed
-- ones, letters compared without case and spaces around a domain ignored; and the settings as
-- `normalizeIMAP` stores them give the same answer.
pub imap_domain_allowed_lem :
    (ic : ImapEmailConfig) (email dom : Text)
    → after_last b'@' email ≡ some dom
    → dom ≢ []
    → (imap_domain_allowed ic email ≡ among dom ic.allowed_domains)
      × (imap_domain_allowed (normalize_imap ic) email ≡ among dom ic.allowed_domains)
unfolding imap_domain_allowed normalize_imap
imap_domain_allowed_lem ic email dom e h = (
  rw (e, imap_domain_allowed) (listed-eq dom ic.allowed_domains),
  rw (e, imap_domain_allowed)
      (listed-eq dom (normalized ic.allowed_domains) ∙ among-normalized dom ic.allowed_domains h),
)

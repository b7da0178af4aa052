-- ===== src/Links/Shape.antt =====
-- The language of the expressions for links in internal/providers, and the matcher against it.
use webridge.Prelude.{
  ℕ, ◌≡◌, ◌↔◌, ◌⊎◌, inl, inr, refl, ap, ◌∙◌, true, Option, none, some, [], ◌∷◌, ◌++◌, if◌then◌else◌,
  Text, text, not_empty, All, arith, Bool-cases,
}
use webridge.Links.{
  is_alnum, strip, run_of, slug, ends, or_else, given, ◌>>=◌, last_slug, after_scheme, after_host,
  link_code,
}

pub strip-append : (p s : Text) → strip p (p ++ s) ≡ some s
unfolding strip
strip-append [] s = refl
strip-append (c ∷ p) s = ground (arith, strip-append p s)

pub strip_sound : (p s r : Text) → strip p s ≡ some r → s ≡ p ++ r
unfolding strip
strip_sound [] s r h = cc
strip_sound (c ∷ p) [] r h = cc
strip_sound (c ∷ p) (d ∷ s) r h = ground (arith, strip_sound p s r)

-- A code is a text of letters and digits that is not empty.
abbrev pub IsAlnum : ℕ → Type 0
IsAlnum c = is_alnum c ≡ true

pub record IsCode (code : Text) : Type 0 where
  pub letters : All IsAlnum code
  pub filled : not_empty code ≡ true

abbrev pub IsSlash : Text → Type 0
IsSlash s = (s ≡ []) ⊎ (s ≡ b'/' ∷ [])

run_of_sound : (s : Text) → (s ≡ (run_of s).0 ++ (run_of s).1) × All IsAlnum (run_of s).0
unfolding run_of
run_of_sound [] = (refl, tt)
run_of_sound (c ∷ s) = elim (Bool-cases (is_alnum c)) [
  | inl y ↦ rw y (ap (◌∷◌ c) (run_of_sound s).0, (y, (run_of_sound s).1))
  | inr n ↦ rw n (refl, tt)
]

ends_sound : (s : Text) → ends s ≡ true → IsSlash s
unfolding ends
ends_sound [] h = inl refl
ends_sound (c ∷ []) h = inr (ground arith)
ends_sound (c ∷ d ∷ s) h = cc

run_of_slash : (s : Text) → IsSlash s → (run_of s ≡ ([], s)) × (ends s ≡ true)
unfolding run_of ends
run_of_slash s (inl e) = rw e (refl, refl)
run_of_slash s (inr e) = rw e (refl, refl)

run_of-append :
    (code s : Text) → All IsAlnum code → run_of s ≡ ([], s) → run_of (code ++ s) ≡ (code, s)
unfolding run_of
run_of-append [] s h e = e
run_of-append (c ∷ code) s h e = rw (h.0, run_of-append code s h.1 e)

-- `([a-zA-Z0-9]+)/?$`
pub record EndsInCode (s code : Text) : Type 0 where
  pub code_lem : IsCode code
  pub slash : Text
  pub is_slash : IsSlash slash
  pub split : s ≡ code ++ slash

picked :
    (r : Text × Text) (code : Text)
    → ((if not_empty r.0 then some r else none) >>= λ p. given (ends p.1) p.0) ≡ some code
    → (r.0 ≡ code) × (not_empty r.0 ≡ true) × (ends r.1 ≡ true)
picked r code h = ground arith

pub last_slug_sound : (s code : Text) → last_slug s ≡ some code → EndsInCode s code
unfolding last_slug slug
last_slug_sound s code h =
    let (same, filled, closed) = picked (run_of s) code h in
    let (split, letters) = run_of_sound s in
    record {
      code_lem = record { letters = rw same at letters; filled = rw same at filled };
      slash = (run_of s).1;
      is_slash = ends_sound (run_of s).1 closed;
      split = rw same at split;
    }

pub last_slug_complete : (s code : Text) → EndsInCode s code → last_slug s ≡ some code
unfolding last_slug slug
last_slug_complete s code h = rw h.split (
    rw (run_of-append code h.slash h.code_lem.letters (run_of_slash h.slash h.is_slash).0)
      (ground (arith, (run_of_slash h.slash h.is_slash).1, h.code_lem.filled)))

-- `^https?://(?:www\.)?HOST([a-zA-Z0-9]+)/?$`, where `host` is the literal text of HOST.
pub record IsLink (host url code : Text) : Type 0 where
  pub scheme : Text
  pub is_scheme : (scheme ≡ text "https://") ⊎ (scheme ≡ text "http://")
  pub www : Text
  pub is_www : (www ≡ []) ⊎ (www ≡ text "www.")
  pub tail : Text
  pub is_tail : EndsInCode tail code
  pub parts : url ≡ scheme ++ (www ++ (host ++ tail))

either {ℓ} :
    {A : Type ℓ} (a b : Option A) (x : A) → or_else a b ≡ some x → (a ≡ some x) ⊎ (b ≡ some x)
either (some y) b x h = inl h
either none b x h = inr h

bound {ℓ κ} :
    {A : Type ℓ} {B : Type κ} (o : Option A) (f : A → Option B) (b : B)
    → (o >>= f) ≡ some b
    → (a : A) × (o ≡ some a) × (f a ≡ some b)
bound none f b h = cc
bound (some a) f b h = (a, refl, h)

after_scheme_sound :
    (url s : Text)
    → after_scheme url ≡ some s
    → (scheme : Text) × ((scheme ≡ text "https://") ⊎ (scheme ≡ text "http://"))
      × (url ≡ scheme ++ s)
unfolding after_scheme
after_scheme_sound url s h =
    elim (either (strip (text "https://") url) (strip (text "http://") url) s h) [
      | inl e ↦ (text "https://", inl refl, strip_sound (text "https://") url s e)
      | inr e ↦ (text "http://", inr refl, strip_sound (text "http://") url s e)
    ]

after_scheme_complete :
    (scheme s : Text)
    → (scheme ≡ text "https://") ⊎ (scheme ≡ text "http://")
    → after_scheme (scheme ++ s) ≡ some s
unfolding after_scheme
after_scheme_complete scheme s (inl e) = rw e (rw (strip-append (text "https://") s))
after_scheme_complete scheme s (inr e) =
    let plain : strip (text "https://") (text "http://" ++ s) ≡ none = unfold strip text in refl in
    rw e (rw plain (strip-append (text "http://") s))

after_host_sound :
    (host s t : Text)
    → after_host host s ≡ some t
    → (www : Text) × ((www ≡ []) ⊎ (www ≡ text "www.")) × (s ≡ www ++ (host ++ t))
unfolding after_host
after_host_sound host s t h =
    elim (either (strip (text "www.") s >>= strip host) (strip host s) t h) [
      | inl e ↦
          let (r, first, second) = bound (strip (text "www.") s) (strip host) t e in
          (
            text "www.",
            inr refl,
            strip_sound (text "www.") s r first
                ∙ ap (λ x. text "www." ++ x) (strip_sound host r t second),
          )
      | inr e ↦ ([], inl refl, strip_sound host s t e)
    ]

-- The host does not begin with `www.`.
abbrev pub HasNoWww : Text → Type 0
HasNoWww host = (s : Text) → strip (text "www.") (host ++ s) ≡ none

after_host_complete :
    (host www t : Text)
    → HasNoWww host
    → (www ≡ []) ⊎ (www ≡ text "www.")
    → after_host host (www ++ (host ++ t)) ≡ some t
unfolding after_host
after_host_complete host www t h (inl e) = rw e (rw (h t) (strip-append host t))
after_host_complete host www t h (inr e) =
    rw e (rw (strip-append (text "www.") (host ++ t)) (rw (strip-append host t)))

-- For a host that does not begin with `www.`, the matcher finds a code exactly when the URL is a
-- scheme, `www.` or nothing, the host, the code of letters and digits, and a slash or nothing.
pub link_code_iff :
    (host url code : Text) → HasNoWww host → (link_code host url ≡ some code) ↔ IsLink host url code
unfolding link_code
link_code_iff host url code h = (
  λ found.
      let (s, first, rest) = bound (after_scheme url) _ code found in
      let (t, second, third) = bound (after_host host s) last_slug code rest in
      let (scheme, is_scheme, one) = after_scheme_sound url s first in
      let (www, is_www, two) = after_host_sound host s t second in
      record {
        scheme = scheme;
        is_scheme = is_scheme;
        www = www;
        is_www = is_www;
        tail = t;
        is_tail = last_slug_sound t code third;
        parts = one ∙ ap (λ x. scheme ++ x) two;
      },
  λ l. rw l.parts (
      rw (after_scheme_complete l.scheme (l.www ++ (host ++ l.tail)) l.is_scheme) (
        rw (after_host_complete host l.www l.tail h l.is_www)
          (last_slug_complete l.tail code l.is_tail))),
)

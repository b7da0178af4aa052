-- ===== src/Links.antt =====
-- The regular expressions of internal/providers, as matchers. Each alternative is tried in the order of
-- the expression, with what follows it.
pub mod Shape
mod Tests
use webridge.Prelude.{
  ℕ, Bool, true, false, ◌&&◌, ◌||◌, Option, none, some, List, [], ◌∷◌, ◌++◌, leb, eqb,
  if◌then◌else◌, Text, text, not_empty,
}

-- `[a-zA-Z0-9]` and `[a-z]`
abbrev pub is_alnum : ℕ → Bool
is_alnum c =
    (leb b'a' c && leb c b'z') || ((leb b'A' c && leb c b'Z') || (leb b'0' c && leb c b'9'))

abbrev pub is_lower : ℕ → Bool
is_lower c = leb b'a' c && leb c b'z'

-- The rest behind a literal.
unfoldable pub strip : Text → Text → Option Text
strip [] s = some s
strip (p ∷ ps) [] = none
strip (p ∷ ps) (c ∷ s) = if eqb c p then strip ps s else none

-- The longest run of letters and digits, and the rest: no shorter run can be followed by `/` or the end.
unfoldable pub run_of : Text → Text × Text
run_of [] = ([], [])
run_of (c ∷ s) = let (code, rest) = run_of s in if is_alnum c then (c ∷ code, rest) else ([], c ∷ s)

-- `([a-zA-Z0-9]+)`
unfoldable pub slug : Text → Option (Text × Text)
unfolding run_of
slug s = let (code, rest) = run_of s in if not_empty code then some (code, rest) else none

-- `/?$`
unfoldable pub ends : Text → Bool
ends [] = true
ends (c ∷ []) = eqb c b'/'
ends (c ∷ d ∷ s) = false

abbrev pub or_else {ℓ} : {A : Type ℓ} → Option A → Option A → Option A
or_else (some a) b = some a
or_else none b = b

infixl 5 ◌>>=◌
abbrev pub ◌>>=◌ {ℓ κ} : {A : Type ℓ} {B : Type κ} → Option A → (A → Option B) → Option B
none >>= f = none
some a >>= f = f a

abbrev pub given {ℓ} : {A : Type ℓ} → Bool → A → Option A
given b a = if b then some a else none

-- `([a-zA-Z0-9]+)/?$`
unfoldable pub last_slug : Text → Option Text
last_slug s = slug s >>= λ p. given (ends p.1) p.0

-- `^https?://`
unfoldable pub after_scheme : Text → Option Text
after_scheme s = or_else (strip (text "https://") s) (strip (text "http://") s)

-- `(?:www\.)?` and the host with its path, up to the code
unfoldable pub after_host : Text → Text → Option Text
after_host host s = or_else (strip (text "www.") s >>= strip host) (strip host s)

-- `^https?://(?:www\.)?HOST([a-zA-Z0-9]+)/?$`, where `host` is the literal text of HOST
unfoldable pub link_code : Text → Text → Option Text
link_code host url = after_scheme url >>= λ s. after_host host s >>= last_slug

-- `(?:[a-z]{2}/download/)?([a-zA-Z0-9]+)/?$`
language : Text → Option Text
language (c ∷ d ∷ s) = if is_lower c && is_lower d then strip (text "/download/") s else none
language _ = none

unfoldable pub localized : Text → Option Text
unfolding language
localized s = or_else (language s >>= last_slug) (last_slug s)

-- `sendgbShortURLRegex`
unfoldable pub sendgb_short : Text → Option Text
sendgb_short url = after_scheme url >>= λ s. after_host (text "sendgb.com/") s >>= localized

-- `wtShortURLRegex`
unfoldable pub is_wetransfer_short : Text → Bool
is_wetransfer_short url =
    elim (after_scheme url >>= λ s.
    strip (text "we.tl/") s >>= λ t. or_else (strip (text "t-") t >>= last_slug) (last_slug t)) [
      | none ↦ false
      | some code ↦ true
    ]

-- `wtFullURLPathRegex`
unfoldable pub two_slugs : Text → Option (Text × Text)
two_slugs path = strip (text "/downloads/") path >>= λ s.
    slug s >>= λ p. strip (text "/") p.1 >>= λ t. last_slug t >>= λ b. some (p.0, b)

-- `wtFullURLPathRecRegex`
unfoldable pub three_slugs : Text → Option (Text × Text × Text)
three_slugs path = strip (text "/downloads/") path >>= λ s. slug s >>= λ p.
    strip (text "/") p.1 >>= λ t.
    slug t >>= λ q. strip (text "/") q.1 >>= λ u. last_slug u >>= λ c. some (p.0, q.0, c)

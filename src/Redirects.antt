-- ===== src/Redirects.antt =====
-- `ClientConfig` and `NewBaseClient` of internal/providers/providers.go: when a client stops to follow
-- redirects. What `http.Client` does with `CheckRedirect` is the relation `Do`, as net/http documents it:
-- the function is asked before each redirect, with the requests made so far, and its error ends the call.
pub mod Ends
mod Tests
use webridge.Prelude.{
  ℕ, zero, suc, ◌+◌, ◌-◌, ◌≤◌, ◌<◌, ◌≡◌, refl, ◌⊎◌, inl, inr, Bool, true, false, not, Option, none,
  some, List, [], ◌∷◌, ◌++◌, length, length-append, if◌then◌else◌, Text, text, ℤ, pos, negsuc,
  pos_part, is_positive, ltb_ℤ, Option-cases, Bool-cases, arith,
}

pub record ClientConfig : Type 0 where
  pub request_timeout : ℤ
  pub max_redirects : ℤ

pub record BaseClient : Type 0 where
  pub timeout : ℤ
  pub check_redirect : List Text → Option Text
  pub user_agent : Text

-- `ErrTooManyRedirects`
abbrev pub too_many_redirects : Text
too_many_redirects = text "too many redirects"

-- `CheckRedirect`; the requests made so far are their URLs.
unfoldable pub check_redirect : ClientConfig → List Text → Option Text
check_redirect cfg via =
    if not (ltb_ℤ (pos (length via)) cfg.max_redirects) then some too_many_redirects else none

unfoldable pub new_base_client : ClientConfig → BaseClient
new_base_client cfg = record {
  timeout = cfg.request_timeout;
  check_redirect = check_redirect cfg;
  user_agent =
      text
        "Mozilla/5.0 (Windows NT 10.0; Win64; x64) AppleWebKit/537.36 (KHTML, like Gecko) Chrome/120.0.0.0 Safari/537.36";
}

-- The requests that a call made, and its error.
pub record Done : Type 0 where
  pub made : List Text
  pub error : Option Text

-- `next` is what the servers answer after the requests made so far: where the last of them is redirected to.
pub data Do (client : BaseClient) (next : List Text → Option Text) : List Text → Done → Type 0 where
  answered :
      (made : List Text)
      → next made ≡ none
      → Do client next made (record { made = made; error = none })
  stopped :
      (made : List Text) (target e : Text)
      → next made ≡ some target
      → client.check_redirect made ≡ some e
      → Do client next made (record { made = made; error = some e })
  redirected :
      (made : List Text) (target : Text) (done : Done)
      → next made ≡ some target
      → client.check_redirect made ≡ none
      → Do client next (made ++ target ∷ []) done
      → Do client next made done

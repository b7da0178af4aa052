-- ===== src/Transfer.antt =====
-- internal/providers/providers.go: what a provider's `Resolve` returns, and the kinds of its errors. What
-- the providers ask of the outside, by net/http and net/url, is the record `Web`.
use webridge.Prelude.{ℕ, Bool, true, false, ◌&&◌, ◌||◌, List, ◌++◌, Text, text, ℤ}
use webridge.Strings.{to_lower, contains}

pub record TransferInfo : Type 0 where
  pub direct_url : Text
  pub file_name : Text
  pub file_size : ℤ
  pub file_count : ℕ

-- An error: its message, and whether it is a `PasswordRequiredError`.
pub record Failure : Type 0 where
  pub message : Text
  pub is_password : Bool

-- A value, an error, or a panic of the goroutine.
pub data Result (A : Type 0) : Type 0 where
  ok : A → Result A
  failed : Failure → Result A
  panicked : Result A

abbrev pub Outcome : Type 0
Outcome = Result TransferInfo

infixl 5 ◌>>=◌
abbrev pub ◌>>=◌ : {A B : Type 0} → Result A → (A → Result B) → Result B
ok a >>= f = f a
failed e >>= f = failed e
panicked >>= f = panicked

-- `errors.New`, and `PasswordRequiredError`
abbrev pub error : Text → Failure
error message = record { message = message; is_password = false }

abbrev pub password_required : Failure
password_required = record { message = text "password required"; is_password = true }

unfoldable pub is_format_error : Text → Bool
is_format_error message =
    let s = to_lower message in
    (contains s (text "unsupported") && contains s (text "url format"))
    || (contains s (text "domain not allowed") || contains s (text "invalid url"))

unfoldable pub is_upstream_error : Text → Bool
is_upstream_error message =
    let s = to_lower message in
    contains s (text "api request failed")
    || (contains s (text "failed to parse api response")
        || (contains s (text "api error")
            || (contains s (text "no download url")
                || (contains s (text "no files in")
                    || (contains s (text "context deadline")
                        || (contains s (text "timeout") || contains s (text "upstream failed")))))))

-- For an error that is not `context.Canceled`.
unfoldable pub is_client_disconnect : Text → Bool
is_client_disconnect message =
    contains message (text "context canceled")
    || (contains message (text "broken pipe")
        || (contains message (text "connection reset")
            || (contains message (text "connection closed")
                || contains message (text "use of closed network connection"))))

-- What a client sends; the header with the user agent, which is the same for all, is left out.
pub record Request : Type 0 where
  pub method : Text
  pub url : Text
  pub headers : List (Text × Text)
  pub body : Text

-- `http.NewRequestWithContext` refuses, `Do` fails, or there is an answer: the URL at which the
-- redirects ended, and the body.
pub data Sent : Type 0 where
  not_made : Text → Sent
  not_sent : Text → Sent
  answered : Text → Text → Sent

-- `url.Parse`: the host and the path, or an error.
pub data Parsed : Type 0 where
  parsed : Text → Text → Parsed
  unparsed : Text → Parsed

pub data Decoded (A : Type 0) : Type 0 where
  decoded : A → Decoded A
  undecoded : Text → Decoded A

-- `send n` is the answer to the n-th request of one `Resolve`.
pub record Web : Type 0 where
  pub send : ℕ → Request → Sent
  pub parse_url : Text → Parsed
  pub query_escape : Text → Text

abbrev pub json : Text × Text
json = (text "Accept", text "application/json")

-- The body of the answer, with the prefix that the caller puts before an error of `Do`.
unfoldable pub body_of : Text → Sent → Result Text
body_of prefix (not_made e) = failed (error e)
body_of prefix (not_sent e) = failed (error (prefix ++ e))
body_of prefix (answered url body) = ok body

unfoldable pub decoded_of : {A : Type 0} → Text → Decoded A → Result A
decoded_of prefix (decoded a) = ok a
decoded_of prefix (undecoded e) = failed (error (prefix ++ e))

-- ===== src/Stream.antt =====
-- `Stream` of internal/providers/providers.go, and the header that the download handler writes before
-- it. What the upstream answers to each attempt, and whether the request's context ends before the wait
-- after it is over, are parameters, and so is `http.CanonicalHeaderKey`; durations are in nanoseconds.
pub mod Attempts
pub mod Headers
mod Tests
use webridge.Prelude.{
  ℕ, zero, suc, ◌+◌, ◌*◌, ◌^◌, Bool, true, false, ◌||◌, Option, none, some, List, [], ◌∷◌, ◌++◌,
  map, eqb, if◌then◌else◌, Text, text, ◌==◌, ℤ, pos, is_positive, pos_part,
}
use webridge.Strings.{has_prefix, has}
use webridge.Itoa.{itoa}
use webridge.Filename.{sanitize_filename}
use webridge.Transfer.{TransferInfo, is_client_disconnect}

-- An error, and whether it is `context.Canceled`.
pub record CopyError : Type 0 where
  pub message : Text
  pub is_canceled : Bool

-- An answer of the upstream, with its fields as they are sent, and what `io.CopyBuffer` then did.
pub record Answer : Type 0 where
  pub status : ℕ
  pub header : List (Text × List Text)
  pub copied : ℤ
  pub error : Option CopyError

pub data Attempt : Type 0 where
  not_made : Text → Attempt
  not_sent : Text → Attempt
  answered : Answer → Attempt

-- The `http.ResponseWriter`: the header's fields in the order in which they were added, and the status.
pub record Writer : Type 0 where
  pub header : List (Text × Text)
  pub status : Option ℕ

-- What the call returned, how many requests it made and how long it waited.
pub record Streamed : Type 0 where
  pub writer : Writer
  pub n : ℤ
  pub err : Option Text
  pub requests : ℕ
  pub waited : ℕ

abbrev pub max_retries : ℕ
max_retries = 3

-- Two seconds.
abbrev pub base_backoff : ℕ
base_backoff = 2 * 10 ^ 9

abbrev pub forwarded : List Text
forwarded =
    text "Content-Type"
    ∷ text "Content-Length"
    ∷ text "Content-Disposition"
    ∷ text "Content-Range"
    ∷ text "Accept-Ranges"
    ∷ text "ETag"
    ∷ text "Last-Modified"
    ∷ []

-- The loop over `resp.Header`, whose keys net/http has brought to the form of `http.CanonicalHeaderKey`;
-- `Add` brings its key to this form too.
unfoldable pub forward : (Text → Text) → List (Text × List Text) → List (Text × Text)
forward canonical [] = []
forward canonical ((k, vs) ∷ header) =
    let key = canonical k in
    let rest = forward canonical header in
    if has key forwarded then map (λ v. (canonical key, v)) vs ++ rest else rest

-- `WriteHeader`: the first status stays.
unfoldable pub write_header : Option ℕ → ℕ → Option ℕ
write_header none status = some status
write_header (some first) status = some first

unfoldable pub reported : Option CopyError → Option Text
reported none = none
reported (some e) = if e.is_canceled || is_client_disconnect e.message then none else some e.message

module _ (canonical : Text → Text) (upstream : ℕ → Attempt) (cancelled : ℕ → Option Text)
    (w : Writer) where
  stop : ℕ → ℕ → Text → Streamed
  stop requests waited e = record {
    writer = w;
    n = pos 0;
    err = some e;
    requests = requests;
    waited = waited;
  }

  unfoldable pub pass : ℕ → ℕ → Answer → Streamed
  pass requests waited a = record {
    writer = record {
      header = w.header ++ forward canonical a.header;
      status = write_header w.status a.status;
    };
    n = a.copied;
    err = reported a.error;
    requests = requests;
    waited = waited;
  }

  -- `none`: the fuel ran out.
  unfoldable pub stream : ℕ → ℕ → ℕ → Option Streamed
  unfolding stop
  stream zero attempt waited = none
  stream (suc fuel) attempt waited = elim (upstream attempt) [
    | not_made e ↦ some (stop attempt waited e)
    | answered a ↦ some (pass (suc attempt) waited a)
    | not_sent e ↦
        if eqb attempt max_retries
        then some (stop (suc attempt) waited (text "upstream failed after 3 retries: " ++ e))
        else elim (cancelled attempt) [
          | some reason ↦ some (stop (suc attempt) waited reason)
          | none ↦ stream fuel (suc attempt) (waited + base_backoff * suc attempt)
        ]
  ]

-- The fields that `ServeHTTP` of internal/handlers/download.go sets before the call.
unfoldable pub file_header : TransferInfo → List (Text × Text)
file_header info =
    let disposition : Text =
      if has_prefix info.file_name (text "video/") || has_prefix info.file_name (text "image/")
      then text "inline"
      else text "attachment" in
    (
      text "Content-Disposition",
      disposition ++ text "; filename=\"" ++ sanitize_filename info.file_name ++ text "\"",
    )
    ∷ (if is_positive info.file_size
        then (text "Content-Length", itoa (pos_part info.file_size)) ∷ []
        else [])

-- ===== src/Stream/Tests.antt =====
-- An upstream that fails once and answers then.
use webridge.Prelude.{
  ℕ, zero, suc, Bool, true, false, Option, none, some, List, [], ◌∷◌, ◌++◌, if◌then◌else◌, Text,
  text, ◌==◌, eq_iff, ◌≡◌, refl, arith, pos,
}
use webridge.Strings.{has}
use webridge.Transfer.{TransferInfo, is_upstream_error}
use webridge.Stream.{
  Answer, Attempt, not_made, not_sent, answered, Writer, Streamed, CopyError, stream, file_header,
  reported,
}
use webridge.Stream.Attempts.{Ends, Fails, stream-Ends, stream_gives_up}
use webridge.Stream.Headers.{values, values_of, passed, stream_adds}

abbrev answer : Answer
answer = record {
  status = 200;
  header =
      (text "Content-Disposition", text "attachment; filename=x" ∷ [])
      ∷ (text "Set-Cookie", text "a=b" ∷ [])
      ∷ (text "ETag", text "1" ∷ [])
      ∷ [];
  copied = pos 5;
  error = none;
}

abbrev second : ℕ → Attempt
second n = elim n [ zero ↦ not_sent (text "timeout") | suc m ↦ answered answer ]

abbrev never : ℕ → Attempt
never n = not_sent (text "timeout")

abbrev on : ℕ → Option Text
on n = none

abbrev w : Writer
w = record {
  header =
      file_header
        (record { direct_url = []; file_name = text "a.zip"; file_size = pos 5; file_count = 1 });
  status = none;
}

-- Two keys that are not in the canonical form.
abbrev canonical : Text → Text
canonical k =
    if k == text "ETag" then text "Etag" else (if k == text "etag" then text "Etag" else k)

canonical_twice : (k : Text) → canonical (canonical k) ≡ canonical k
unfolding text
canonical_twice k =
    ground
      (arith, eq_iff k (text "ETag"), eq_iff k (text "etag"), eq_iff (text "Etag") (text "etag"))

canonical_etag : canonical (text "ETag") ≡ text "Etag"
unfolding ◌==◌ text
canonical_etag = refl

once : Fails canonical second on w 1
once zero h = ((text "timeout", refl), refl)
once (suc i) h = ground arith

stream_adds_example :
    (r : Streamed) × (stream canonical second on w 4 0 0 ≡ some r)
    × (r.requests ≡ 2)
    × ((k : Text)
        → values k r.writer.header
          ≡ values k w.header ++ (if has k passed then values_of canonical k answer.header else []))
stream_adds_example =
    stream_adds canonical canonical_twice canonical_etag second on w 1 answer (omega arith) once
      refl

always : Fails canonical never on w 4
always i h = ((text "timeout", refl), refl)

stream_gives_up_example :
    (r : Streamed) × (stream canonical never on w 4 0 0 ≡ some r)
    × (r.writer ≡ w)
    × (elim r.err as (λ x. Bool) [ none ↦ false | some e ↦ is_upstream_error e ] ≡ true)
stream_gives_up_example = stream_gives_up canonical never on w always

stream-Ends_example : Ends (stream canonical second on w 4 0 0)
stream-Ends_example = stream-Ends canonical second on w

-- The handler's disposition and the upstream's.
abbrev disposition_of : Option Streamed → List Text
disposition_of none = []
disposition_of (some r) = values (text "Content-Disposition") r.writer.header

two_dispositions :
    disposition_of (stream canonical second on w 4 0 0)
    ≡ text "attachment; filename=\"a.zip\"" ∷ text "attachment; filename=x" ∷ []
unfolding stream values webridge.Stream.pass file_header ◌==◌ text webridge.Strings.has_prefix
    webridge.Stream.forward webridge.Filename.sanitize_filename has
two_dispositions = refl

upstream_reset :
    reported
      (some (record { message = text "read tcp: connection reset by peer"; is_canceled = false }))
    ≡ none
unfolding reported webridge.Transfer.is_client_disconnect webridge.Strings.contains text
upstream_reset = refl

no_etag :
    elim (stream canonical second on w 4 0 0) as (λ x. List Text) [
      | none ↦ []
      | some r ↦ values (text "Etag") r.writer.header ++ values (text "ETag") r.writer.header
    ]
    ≡ []
unfolding stream values webridge.Stream.pass file_header ◌==◌ text webridge.Strings.has_prefix
    webridge.Stream.forward webridge.Filename.sanitize_filename has
no_etag = refl

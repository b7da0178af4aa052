-- ===== src/Clients/SendSpace.antt =====
-- internal/providers/sendspace.go.
use webridge.Prelude.{
  ◌||◌, Option, none, some, [], ◌++◌, if◌then◌else◌, Text, text, ◌==◌, not_empty, ℤ,
}
use webridge.Strings.{to_lower, contains}
use webridge.Transfer.{
  Outcome, Result, ok, failed, ◌>>=◌, error, password_required, Request, Parsed, parsed, unparsed,
  Decoded, Web, body_of, decoded_of,
}
use webridge.Links.{link_code}

pub record SpaceFile : Type 0 where
  pub download_url : Text
  pub file_name : Text
  pub file_size : ℤ
  pub error_text : Text

unfoldable pub api_base : Text
api_base = text "https://www.sendspace.com/api"

unfoldable pub code_of : Option Text → Result Text
code_of none =
    failed (error (text "unsupported SendSpace URL format (expected: sendspace.com/file/XXXX)"))
code_of (some code) = ok code

unfoldable pub parse_url : (Text → Parsed) → Text → Result Text
unfolding code_of
parse_url parse url = elim (parse url) [
  | unparsed e ↦ failed (error (text "invalid URL: " ++ e))
  | parsed host path ↦
      if to_lower host == text "sendspace.com" || to_lower host == text "www.sendspace.com"
      then code_of (link_code (text "sendspace.com/file/") url)
      else failed (error (text "domain not allowed: only sendspace.com is supported"))
]

-- `?password=` with `url.QueryEscape` of the password
abbrev pub file_request : (Text → Text) → Text → Text → Request
file_request escape code password = record {
  method = text "GET";
  url =
      api_base
      ++ (text "/file/"
          ++ (code ++ (if not_empty password then text "?password=" ++ escape password else [])));
  headers = [];
  body = [];
}

unfoldable pub file_info : SpaceFile → Outcome
file_info r =
    if not_empty r.error_text
    then (if contains (to_lower r.error_text) (text "password")
        then failed password_required
        else failed (error (text "API error: " ++ r.error_text)))
    else if not_empty r.download_url
    then ok (record {
      direct_url = r.download_url;
      file_name = r.file_name;
      file_size = r.file_size;
      file_count = 1;
    })
    else failed (error (text "no download URL in API response"))

module _ (web : Web) (decode : Text → Decoded SpaceFile) (password : Text) where
  unfoldable pub get_file_info : Text → Outcome
  unfolding file_info
  get_file_info code =
      body_of (text "API request failed: ")
        (web.send 0 (file_request web.query_escape code password))
      >>= (λ body. decoded_of (text "failed to parse API response: ") (decode body))
      >>= file_info

  unfoldable pub resolve : Text → Outcome
  resolve url = parse_url web.parse_url url >>= get_file_info

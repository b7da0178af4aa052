-- ===== src/Clients/TransferNow.antt =====
-- internal/providers/transfernow.go.
use webridge.Prelude.{
  ◌||◌, Option, none, some, List, [], ◌∷◌, ◌++◌, length, if◌then◌else◌, Text, text, ◌==◌, not_empty,
  ℤ, pos, add64,
}
use webridge.Strings.{to_lower, contains}
use webridge.Transfer.{
  Outcome, Result, ok, failed, ◌>>=◌, error, password_required, Request, Parsed, parsed, unparsed,
  Decoded, Web, body_of, decoded_of,
}
use webridge.Links.{link_code, or_else}

pub record NowFile : Type 0 where
  pub name : Text
  pub size : ℤ
  pub url : Text

pub record NowTransfer : Type 0 where
  pub files : List NowFile
  pub error_text : Text

unfoldable pub api_base : Text
api_base = text "https://api.transfernow.net/api/v2"

unfoldable pub code_of : Option Text → Result Text
code_of none = failed (error (text "unsupported TransferNow URL format"))
code_of (some code) = ok code

unfoldable pub parse_url : (Text → Parsed) → Text → Result Text
unfolding code_of
parse_url parse url = elim (parse url) [
  | unparsed e ↦ failed (error (text "invalid URL: " ++ e))
  | parsed host path ↦
      if to_lower host == text "transfernow.net" || to_lower host == text "www.transfernow.net"
      then code_of (
          or_else (link_code (text "transfernow.net/") url)
            (link_code (text "transfernow.net/dl/") url))
      else failed (error (text "domain not allowed: only transfernow.net is supported"))
]

-- `?password=` with `url.QueryEscape` of the password
abbrev pub info_request : (Text → Text) → Text → Text → Request
info_request escape code password = record {
  method = text "GET";
  url =
      api_base
      ++ (text "/transfers/"
          ++ (code ++ (if not_empty password then text "?password=" ++ escape password else [])));
  headers = [];
  body = [];
}

-- `totalSize += f.Size` in int64
unfoldable pub total : ℤ → List NowFile → ℤ
total sum [] = sum
total sum (f ∷ files) = total (add64 sum f.size) files

unfoldable pub first_file : List NowFile → Outcome
first_file [] = failed (error (text "no files in transfer"))
first_file (f ∷ files) = ok (record {
  direct_url = f.url;
  file_name = f.name;
  file_size = total (pos 0) (f ∷ files);
  file_count = length (f ∷ files);
})

unfoldable pub transfer_info : NowTransfer → Outcome
unfolding first_file
transfer_info r =
    if not_empty r.error_text
    then (if contains (to_lower r.error_text) (text "password")
        then failed password_required
        else failed (error (text "API error: " ++ r.error_text)))
    else first_file r.files

module _ (web : Web) (decode : Text → Decoded NowTransfer) (password : Text) where
  unfoldable pub get_transfer_info : Text → Outcome
  unfolding transfer_info
  get_transfer_info code =
      body_of (text "API request failed: ")
        (web.send 0 (info_request web.query_escape code password))
      >>= (λ body. decoded_of (text "failed to parse API response: ") (decode body))
      >>= transfer_info

  unfoldable pub resolve : Text → Outcome
  resolve url = parse_url web.parse_url url >>= get_transfer_info

-- ===== src/Clients/WeTransfer.antt =====
-- internal/providers/wetransfer.go. `parseURL` calls itself, so it runs on fuel.
pub mod Redirects
mod Tests
use webridge.Prelude.{
  ℕ, zero, suc, Bool, true, false, Option, none, some, List, [], ◌∷◌, ◌++◌, map, length,
  if◌then◌else◌, Text, text, ◌==◌, not_empty, ℤ, pos, negsuc, is_zero, add64,
}
use webridge.Strings.{after_last, before}
use webridge.Transfer.{
  TransferInfo, Outcome, Result, ok, failed, panicked, ◌>>=◌, error, password_required, Request,
  Sent, not_made, not_sent, answered, Parsed, parsed, unparsed, Decoded, Web, body_of, decoded_of,
}
use webridge.Links.{is_wetransfer_short, two_slugs, three_slugs}

-- The transfer, the recipient, which may be empty, and the security hash.
pub record Ids : Type 0 where
  pub transfer : Text
  pub recipient : Text
  pub hash : Text

pub record WeFile : Type 0 where
  pub name : Text
  pub size : ℤ

pub record DirectLink : Type 0 where
  pub link : Text
  pub files : List WeFile
  pub error_message : Text
  pub error_code : Text

-- The two expressions for the path of a full link.
unfoldable pub path_three : Option (Text × Text × Text) → Result Ids → Result Ids
path_three none other = other
path_three (some (a, b, c)) other = ok (record { transfer = a; recipient = b; hash = c })

unfoldable pub path_two : Option (Text × Text) → Result Ids
path_two none = failed (error (text "unsupported WeTransfer URL format"))
path_two (some (a, b)) = ok (record { transfer = a; recipient = []; hash = b })

unfoldable pub path_ids : Text → Result Ids
unfolding path_three path_two
path_ids path = path_three (three_slugs path) (path_two (two_slugs path))

abbrev pub short_request : Text → Request
short_request url = record { method = text "GET"; url = url; headers = []; body = [] }

-- `resolveShortURL`: the URL at which the redirects end.
unfoldable pub final_url : Sent → Result Text
final_url (not_made e) = failed (error e)
final_url (not_sent e) = failed (error (text "failed to resolve short URL: " ++ e))
final_url (answered url body) = ok url

-- What one run of `parseURL` does: it returns, or goes on with another URL.
pub data Hop : Type 0 where
  done : Result Ids → Hop
  follow : Text → Hop

unfoldable pub hop_short : Result Text → Hop
hop_short (ok final) = follow final
hop_short (failed f) = done (failed f)
hop_short panicked = done panicked

abbrev pub after_hop {ℓ} : {A : Type ℓ} → Hop → (Result Ids → A) → (Text → A) → A
after_hop (done r) f g = f r
after_hop (follow final) f g = g final

module _ (web : Web) where
  unfoldable pub hop : ℕ → Text → Hop
  unfolding hop_short
  hop n url = elim (web.parse_url url) [
    | unparsed e ↦ done (failed (error (text "invalid URL: " ++ e)))
    | parsed host path ↦
        if is_wetransfer_short url
        then hop_short (final_url (web.send n (short_request url)))
        else done (path_ids path)
  ]

  -- `n` requests have been made before; the result comes with the number of the next one.
  unfoldable pub parse_url : ℕ → ℕ → Text → Option (Result Ids × ℕ)
  parse_url zero n url = none
  parse_url (suc fuel) n url =
      after_hop (hop n url) (λ ids. some (ids, suc n)) (λ final. parse_url fuel (suc n) final)

-- `extractFileName` of what `url.Parse` gave; the code reads the path of a nil pointer on an error.
unfoldable pub extract_file_name : Parsed → Result Text
extract_file_name (unparsed e) = panicked
extract_file_name (parsed host path) =
    let name : Text = elim (after_last b'/' path) [ none ↦ path | some t ↦ t ] in
    ok (before b'?' name).0

unfoldable pub api_base : Text
api_base = text "https://wetransfer.com/api/v4/transfers"

abbrev pub api_url : Ids → Text
api_url ids =
    api_base
    ++ (text "/"
        ++ (ids.transfer
            ++ (text "/download"
                ++ ((if not_empty ids.recipient then text "/" ++ ids.recipient else [])
                    ++ (if not_empty ids.hash then text "?security_hash=" ++ ids.hash else [])))))

abbrev pub link_request : Ids → Text → Request
link_request ids password = record {
  method = text "POST";
  url = api_url ids;
  headers =
      (text "Content-Type", text "application/json")
      ∷ (if not_empty password then (text "x-wetransfer-password", password) ∷ [] else []);
  body = text "{\"intent\":\"entire_transfer\"}";
}

-- `fileSize += f.Size` in int64
unfoldable pub total : ℤ → List WeFile → ℤ
total sum [] = sum
total sum (f ∷ files) = total (add64 sum f.size) files

abbrev known : ℤ → ℤ
known n = if is_zero n then negsuc 0 else n

unfoldable pub link_info : (Text → Parsed) → DirectLink → Outcome
unfolding extract_file_name
link_info parse r =
    if not_empty r.error_message
    then (if r.error_code == text "PASSWORD_REQUIRED"
        then failed password_required
        else failed (error (text "API returned error: " ++ r.error_message)))
    else if not_empty r.link
    then extract_file_name (parse r.link) >>= (λ name. ok (record {
      direct_url = r.link;
      file_name = name;
      file_size = known (total (pos 0) r.files);
      file_count = length r.files;
    }))
    else failed (error (text "no direct_link in API response"))

module _ (web : Web) (decode : Text → Decoded DirectLink) (password : Text) where
  unfoldable pub get_direct_link : ℕ → Ids → Outcome
  unfolding link_info
  get_direct_link n ids =
      body_of (text "API request failed: ") (web.send n (link_request ids password))
      >>= (λ body. decoded_of (text "failed to parse API response: ") (decode body))
      >>= link_info web.parse_url

  unfoldable pub after_parse : Option (Result Ids × ℕ) → Option Outcome
  after_parse none = none
  after_parse (some (ids, n)) = some (ids >>= get_direct_link n)

  -- `Resolve`; `none`: the fuel ran out.
  unfoldable pub resolve : ℕ → Text → Option Outcome
  unfolding after_parse
  resolve fuel url = after_parse (parse_url web fuel 0 url)

-- ===== src/Clients/SendGb.antt =====
-- internal/providers/sendgb.go.
use webridge.Prelude.{
  Bool, true, false, ◌&&◌, ◌||◌, Option, none, some, List, [], ◌∷◌, ◌++◌, if◌then◌else◌, Text, text,
  ◌==◌, not_empty, ℤ,
}
use webridge.Strings.{to_lower, contains, has_suffix}
use webridge.Transfer.{
  Outcome, Result, ok, failed, ◌>>=◌, error, password_required, json, Request, Parsed, parsed,
  unparsed, Decoded, Web, body_of, decoded_of,
}
use webridge.Links.{sendgb_short, link_code, or_else}

pub record GbFile : Type 0 where
  pub name : Text
  pub key : Text
  pub size : ℤ

pub record GbTransfer : Type 0 where
  pub is_ok : Bool
  pub code : Text
  pub message : Text
  pub total_size : ℤ
  pub files : List GbFile

pub record GbSession : Type 0 where
  pub is_ok : Bool
  pub session_token : Text

pub record GbSegment : Type 0 where
  pub kind : Text
  pub url : Text

pub record GbSegments : Type 0 where
  pub is_ok : Bool
  pub segments : List GbSegment

pub record GbInfo : Type 0 where
  pub file_name : Text
  pub file_size : ℤ
  pub file_key : Text

unfoldable pub api_base : Text
api_base = text "https://api.sendgb.com/api"

unfoldable pub code_of : Option Text → Result Text
code_of none = failed (error (text "unsupported SendGB URL format"))
code_of (some code) = ok code

-- An error of `url.Parse` is returned as it is.
unfoldable pub parse_url : (Text → Parsed) → Text → Result Text
unfolding code_of
parse_url parse url = elim (parse url) [
  | unparsed e ↦ failed (error e)
  | parsed host path ↦
      if to_lower host == text "sendgb.com" || has_suffix (to_lower host) (text ".sendgb.com")
      then code_of (or_else (sendgb_short url) (link_code (text "sendgb.com/file/") url))
      else failed (error (text "domain not allowed: only sendgb.com is supported"))
]

abbrev with_password : Text → List (Text × Text)
with_password password =
    if not_empty password then (text "X-Transfer-Password", password) ∷ [] else []

abbrev pub info_request : Text → Text → Request
info_request code password = record {
  method = text "GET";
  url = api_base ++ (text "/download/" ++ code);
  headers = json ∷ ((text "Accept-Language", text "en") ∷ with_password password);
  body = [];
}

unfoldable pub first_file : GbTransfer → List GbFile → Result GbInfo
first_file t [] = failed (error (text "no files in transfer"))
first_file t (f ∷ files) =
    ok (record { file_name = f.name; file_size = t.total_size; file_key = f.key })

unfoldable pub transfer_info : GbTransfer → Result GbInfo
unfolding first_file
transfer_info t =
    if t.is_ok
    then first_file t t.files
    else if contains (to_lower t.message) (text "password") || t.code == text "incorrect_password"
    then failed password_required
    else if t.code == text "not_found"
    then failed (error (text "transfer not found or expired"))
    else failed (error t.message)

-- The body is `json.Marshal` of the key.
abbrev pub session_request : (Text → Text) → Text → Text → Text → Request
session_request marshal code key password = record {
  method = text "POST";
  url = api_base ++ (text "/download/" ++ (code ++ text "/waybill-session"));
  headers = json ∷ ((text "Content-Type", text "application/json") ∷ with_password password);
  body = marshal key;
}

abbrev pub segments_request : Text → GbSession → Request
segments_request code s = record {
  method = text "GET";
  url =
      api_base
      ++ (text "/download/waybill-session/" ++ (s.session_token ++ (text "?ulid=" ++ code)));
  headers = json ∷ [];
  body = [];
}

-- The loop over the segments.
unfoldable pub segment_url : List GbSegment → Result Text
segment_url [] = failed (error (text "no download URL"))
segment_url (g ∷ gs) = if g.kind == text "DATA" && not_empty g.url then ok g.url else segment_url gs

unfoldable pub segments_url : Bool → List GbSegment → Result Text
unfolding segment_url
segments_url false gs = failed (error (text "no download segments"))
segments_url true [] = failed (error (text "no download segments"))
segments_url true (g ∷ gs) = segment_url (g ∷ gs)

unfoldable pub session_ok : GbSession → Result GbSession
session_ok s = if s.is_ok then ok s else failed (error (text "waybill session failed"))

-- What `json` decodes and encodes.
pub record Codec : Type 0 where
  pub decode_transfer : Text → Decoded GbTransfer
  pub decode_session : Text → Decoded GbSession
  pub decode_segments : Text → Decoded GbSegments
  pub marshal_key : Text → Text

module _ (web : Web) (codec : Codec) (password : Text) where
  unfoldable pub get_transfer_info : Text → Result GbInfo
  unfolding transfer_info
  get_transfer_info code =
      body_of [] (web.send 0 (info_request code password))
      >>= (λ body. decoded_of [] (codec.decode_transfer body))
      >>= transfer_info

  unfoldable pub get_segments : Text → GbSession → Result Text
  unfolding segments_url
  get_segments code s =
      body_of [] (web.send 2 (segments_request code s))
      >>= (λ body. decoded_of [] (codec.decode_segments body))
      >>= (λ r. segments_url r.is_ok r.segments)

  unfoldable pub get_download_url : Text → Text → Result Text
  unfolding session_ok get_segments
  get_download_url code key =
      body_of [] (web.send 1 (session_request codec.marshal_key code key password))
      >>= (λ body. decoded_of [] (codec.decode_session body))
      >>= session_ok
      >>= get_segments code

  -- `Resolve`, once the code is known.
  unfoldable pub resolve_code : Text → Outcome
  resolve_code code = get_transfer_info code >>= λ info.
      get_download_url code info.file_key >>= λ url. ok (record {
        direct_url = url;
        file_name = info.file_name;
        file_size = info.file_size;
        file_count = 1;
      })

  unfoldable pub resolve : Text → Outcome
  resolve url = parse_url web.parse_url url >>= resolve_code

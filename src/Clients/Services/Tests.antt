-- ===== src/Clients/Services/Tests.antt =====
-- The clients against a small web.
use webridge.Prelude.{
  false, some, [], ◌∷◌, ◌++◌, if◌then◌else◌, Text, text, not_empty, ◌==◌, ◌≡◌, ◌≢◌, refl, pos,
}
use webridge.Strings.{to_lower, has_prefix}
use webridge.Transfer.{
  ok, failed, panicked, error, answered, parsed, unparsed, decoded, undecoded, Web, body_of,
  decoded_of,
}
use webridge.Links.{
  link_code, last_slug, slug, run_of, ends, after_scheme, after_host, strip, is_wetransfer_short,
  two_slugs, three_slugs,
}
use webridge.World.{reply}
use webridge.Download.{failure_reply}
use webridge.Clients.WeTransfer
use webridge.Clients.Wesendit
use webridge.Clients.Services.{we_transfer, wesendit, Json, resolve, provider_of}
use webridge.Clients.Services.Guard.{guarded}
use webridge.Clients.Services.Requests.{resolve-guarded}
use webridge.Clients.Services.Refusals.{refusal, refusal_lem}
use webridge.Clients.Services.Panics.{resolve_never_panics}

abbrev url : Text
url = text "https://wesendit.com/Ab1"

-- Every request is answered; `url.Parse` takes the host to be the same for all.
abbrev web_at : Text → Web
web_at host = record {
  send = λ n r. answered r.url (text "{}");
  parse_url = λ u. parsed host (text "/downloads/a1/b2");
  query_escape = λ s. s;
}

abbrev transfer : Wesendit.ItTransfer
transfer = record {
  files = record { name = text "a.zip"; size = pos 7; url = text "https://files/a" } ∷ [];
  error_text = [];
}

abbrev direct : WeTransfer.DirectLink
direct = record { link = text "https://files/b"; files = []; error_message = []; error_code = [] }

abbrev json : Json
json = record {
  direct_link = λ body. decoded direct;
  sendgb = record {
    decode_transfer = λ body. undecoded (text "EOF");
    decode_session = λ body. undecoded (text "EOF");
    decode_segments = λ body. undecoded (text "EOF");
    marshal_key = λ key. key;
  };
  now_transfer = λ body. undecoded (text "EOF");
  it_transfer = λ body. decoded transfer;
  space_file = λ body. undecoded (text "EOF");
}

resolved :
    resolve (web_at (text "wesendit.com")) json 1 [] wesendit url
    ≡ some (
        ok (record {
          direct_url = text "https://files/a";
          file_name = text "a.zip";
          file_size = pos 7;
          file_count = 1;
        }))
unfolding resolve Wesendit.resolve Wesendit.parse_url ◌==◌ to_lower text link_code after_scheme
    strip after_host last_slug slug not_empty ends Wesendit.get_transfer_info body_of decoded_of
    Wesendit.total
resolved = refl

resolve-guarded_example :
    resolve (web_at (text "wesendit.com")) json 1 [] wesendit url
    ≡ resolve (guarded wesendit (web_at (text "wesendit.com"))) json 1 [] wesendit url
resolve-guarded_example = resolve-guarded wesendit (web_at (text "wesendit.com")) json 1 [] url

abbrev bad_url : Text
bad_url = text "https://wesendit.com/d/A/b"

abbrev message : Text
message = text "unsupported Wesendit URL format"

not_short : has_prefix bad_url (text "https://we.tl/") ≡ false
unfolding has_prefix text
not_short = refl

bad_refused :
    refusal wesendit (web_at (text "wesendit.com")).parse_url bad_url ≡ some (error message)
unfolding refusal Wesendit.parse_url ◌==◌ to_lower text link_code after_scheme strip after_host
    last_slug slug not_empty ends
bad_refused = refl

refusal_lem_example :
    (resolve (web_at (text "wesendit.com")) json 1 [] wesendit bad_url
      ≡ some (failed (error message)))
    × (failure_reply (provider_of wesendit) bad_url (error message)
        ≡ reply 400 (text "Invalid " ++ (provider_of wesendit).name ++ text " link format."))
refusal_lem_example =
    refusal_lem wesendit (web_at (text "wesendit.com")) json 0 [] bad_url (text "wesendit.com")
      (text "/downloads/a1/b2") (error message) refl not_short bad_refused

resolve_never_panics_example :
    resolve (web_at (text "wetransfer.com")) json 1 [] we_transfer url ≢ some panicked
resolve_never_panics_example =
    resolve_never_panics we_transfer (web_at (text "wetransfer.com")) json 1 [] url
      (λ body r e. (text "wetransfer.com", text "/downloads/a1/b2", refl))

-- `url.Parse` fails on the link in the answer.
abbrev broken : Web
broken = record {
  send = λ n r. answered r.url (text "{}");
  parse_url = λ u.
      if u == text "https://files/b"
      then unparsed (text "bad")
      else parsed (text "wetransfer.com") (text "/downloads/a1/b2");
  query_escape = λ s. s;
}

panics :
    resolve broken json 1 [] we_transfer (text "https://wetransfer.com/downloads/a1/b2")
    ≡ some panicked
unfolding resolve WeTransfer.resolve WeTransfer.after_parse WeTransfer.parse_url WeTransfer.hop ◌==◌
    text is_wetransfer_short after_scheme strip WeTransfer.path_ids WeTransfer.path_two
    WeTransfer.path_three three_slugs slug run_of not_empty two_slugs last_slug ends
    WeTransfer.get_direct_link body_of decoded_of WeTransfer.link_info WeTransfer.extract_file_name
panics = refl

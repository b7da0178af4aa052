-- ===== src/Download/Served/Tests.antt =====
-- A download of a short link of WeTransfer, whose redirect ends at the link of the transfer.
use webridge.Prelude.{
  ℕ, ◌<◌, ◌≡◌, refl, true, false, Option, none, some, [], if◌then◌else◌, Text, text, ◌==◌, pos,
  not_empty, arith,
}
use webridge.Prelude.Table.{lookup}
use webridge.Samples.{log}
use webridge.World.{Reply}
use webridge.Links.{is_wetransfer_short, last_slug, slug, run_of, ends, after_scheme, strip}
use webridge.Transfer.{TransferInfo, ok, answered, parsed, decoded, undecoded, Web}
use webridge.Stream.{Attempt}
use webridge.Clients.WeTransfer.{final_url, short_request}
use webridge.Clients.Services.{Json, registry}
use webridge.Clients.Services.Hosts.{host_of}
use webridge.Download.{Limits, Visit, Downloads}
use webridge.Download.Whole.{IsSame, serve}
use webridge.Download.Served.{resolve_of, stream_of, serve_ends}

abbrev limits : Limits
limits = record {
  max_url_length = pos 2048;
  max_file_size_gb = pos 2;
  max_concurrent_downloads = pos 1;
}

abbrev idle : Downloads
idle = record { used = 0; flights = []; log = log }

abbrev visit : Visit
visit = record {
  username = text "bob";
  client_ip = text "10.0.0.1";
  url = text "https://we.tl/t-ab";
}

abbrev full : Text
full = text "https://wetransfer.com/downloads/a1/b2"

abbrev leads : Web
leads = record {
  send = λ n r. answered full [];
  parse_url = λ u.
      if is_wetransfer_short u
      then parsed (text "we.tl") (text "/t-ab")
      else parsed (text "wetransfer.com") (text "/downloads/a1/b2");
  query_escape = λ s. s;
}

abbrev rank : Text → ℕ
rank u = if is_wetransfer_short u then 1 else 0

full_is_last : is_wetransfer_short full ≡ false
unfolding is_wetransfer_short last_slug slug run_of ends after_scheme strip text not_empty
full_is_last = refl

falls :
    (n : ℕ) (url final : Text)
    → is_wetransfer_short url ≡ true
    → final_url (leads.send n (short_request url)) ≡ ok final
    → rank final < rank url
unfolding final_url
falls n url final short e = ground (arith, full_is_last)

abbrev json : Json
json = record {
  direct_link = λ body.
      decoded
        (record { link = text "https://files/b"; files = []; error_message = []; error_code = [] });
  sendgb = record {
    decode_transfer = λ body. undecoded (text "EOF");
    decode_session = λ body. undecoded (text "EOF");
    decode_segments = λ body. undecoded (text "EOF");
    marshal_key = λ key. key;
  };
  now_transfer = λ body. undecoded (text "EOF");
  it_transfer = λ body. undecoded (text "EOF");
  space_file = λ body. undecoded (text "EOF");
}

abbrev canonical : Text → Text
canonical k = if k == text "ETag" then text "Etag" else k

-- The file is never sent.
abbrev upstream : TransferInfo → ℕ → Attempt
upstream info n = Attempt.not_sent (text "timeout")

abbrev on : ℕ → Option Text
on n = none

nobody : lookup (text "a") idle.flights ≡ none
unfolding lookup
nobody = refl

low : rank (text "https://we.tl/t-ab") < 2
low = ground arith

serve_ends_example :
    (r : Downloads × Option Reply) × (serve limits
        (λ u. host_of (leads.parse_url u))
        (text "bad")
        registry
        1
        2
        (resolve_of leads json 2 [])
        (stream_of canonical upstream on)
        idle
        (text "a")
        visit
      ≡ some r)
    × IsSame idle r.0
serve_ends_example =
    serve_ends leads rank falls limits (text "bad") 1 2 json 2 [] canonical upstream on idle
      (text "a") visit nobody low

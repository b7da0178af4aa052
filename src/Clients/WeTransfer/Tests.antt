-- ===== src/Clients/WeTransfer/Tests.antt =====
-- `parseURL` on short links.
use webridge.Prelude.{
  not_empty, ℕ, ◌<◌, true, false, none, some, [], if◌then◌else◌, Text, text, ◌≡◌, refl, arith,
}
use webridge.Transfer.{Outcome, ok, answered, parsed, Decoded, undecoded, Web}
use webridge.Links.{is_wetransfer_short, last_slug, slug, run_of, ends, after_scheme, strip}
use webridge.Clients.WeTransfer.{DirectLink, resolve, final_url, short_request}
use webridge.Clients.WeTransfer.Redirects.{resolve_ends, resolve_loops}

abbrev short : Text
short = text "https://we.tl/t-ab"

abbrev full : Text
full = text "https://wetransfer.com/downloads/a1/b2"

-- Each short link ends at the full one, and the API answers in JSON that is not read.
abbrev leads : Web
leads = record {
  send = λ n r. answered full [];
  parse_url = λ u.
      parsed (text "wetransfer.com")
        (if is_wetransfer_short u then text "/t-ab" else text "/downloads/a1/b2");
  query_escape = λ s. s;
}

abbrev no_json : Text → Decoded DirectLink
no_json body = undecoded (text "EOF")

abbrev rank : Text → ℕ
rank u = if is_wetransfer_short u then 1 else 0

full_is_last : is_wetransfer_short full ≡ false
unfolding is_wetransfer_short last_slug slug run_of ends after_scheme strip text not_empty
full_is_last = refl

falls :
    (n : ℕ) (url final : Text)
    → is_wetransfer_short url ≡ true
    → final_url (leads.send n (short_request url)) ≡ ok final
    → rank final < rank url
unfolding final_url
falls n url final short e = ground (arith, full_is_last)

resolve_ends_example :
    (r : Outcome) × ((fuel : ℕ) → rank short < fuel → resolve leads no_json [] fuel short ≡ some r)
resolve_ends_example = resolve_ends leads rank falls no_json [] short

-- The link is answered without a redirect.
abbrev stays : Web
stays = record {
  send = λ n r. answered r.url [];
  parse_url = λ u. parsed (text "we.tl") (text "/t-ab");
  query_escape = λ s. s;
}

short_is_short : is_wetransfer_short short ≡ true
unfolding is_wetransfer_short last_slug slug run_of ends after_scheme strip text not_empty
short_is_short = refl

resolve_loops_example : resolve stays no_json [] 50 short ≡ none
unfolding final_url
resolve_loops_example =
    resolve_loops stays no_json [] short (text "we.tl") (text "/t-ab") refl short_is_short
      (λ n. refl) 50

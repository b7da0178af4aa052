-- ===== src/Links/Tests.antt =====
-- The matchers on small inputs.
use webridge.Prelude.{not_empty, ◌↔◌, true, false, none, some, Text, text, ◌≡◌, refl}
use webridge.Links.{
  link_code, sendgb_short, is_wetransfer_short, two_slugs, three_slugs, last_slug, slug, run_of,
  ends, after_scheme, after_host, strip, localized,
}
use webridge.Links.Shape.{link_code_iff, IsLink, HasNoWww}

abbrev host : Text
host = text "wesendit.com/"

wesendit_no_www : HasNoWww host
unfolding strip text
wesendit_no_www s = refl

link_code_iff_example :
    (link_code host (text "https://www.wesendit.com/Ab1/") ≡ some (text "Ab1"))
    ↔ IsLink host (text "https://www.wesendit.com/Ab1/") (text "Ab1")
link_code_iff_example =
    link_code_iff host (text "https://www.wesendit.com/Ab1/") (text "Ab1") wesendit_no_www

www_code : link_code host (text "https://www.wesendit.com/Ab1/") ≡ some (text "Ab1")
unfolding link_code last_slug slug run_of ends after_scheme after_host strip text not_empty
www_code = refl

path_goes_on : link_code host (text "https://wesendit.com/d/Ab1") ≡ none
unfolding link_code last_slug slug run_of ends after_scheme after_host strip text not_empty
path_goes_on = refl

localized_code : sendgb_short (text "http://sendgb.com/en/download/x9") ≡ some (text "x9")
unfolding sendgb_short localized last_slug slug run_of ends after_scheme after_host strip text
    not_empty
localized_code = refl

short_link : is_wetransfer_short (text "https://we.tl/t-Zz0") ≡ true
unfolding is_wetransfer_short last_slug slug run_of ends after_scheme strip text not_empty
short_link = refl

no_short_link : is_wetransfer_short (text "https://we.tl/a-b") ≡ false
unfolding is_wetransfer_short last_slug slug run_of ends after_scheme strip text not_empty
no_short_link = refl

three : three_slugs (text "/downloads/a1/b2/c3") ≡ some (text "a1", text "b2", text "c3")
unfolding three_slugs last_slug slug run_of ends strip text not_empty
three = refl

not_two : two_slugs (text "/downloads/a1/b2/c3") ≡ none
unfolding two_slugs last_slug slug run_of ends strip text not_empty
not_two = refl

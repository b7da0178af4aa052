-- ===== src/Redirects/Tests.antt =====
-- Calls of a client of internal/providers/providers.go that is redirected again and again.
use webridge.Prelude.{
  ◌≤◌, ◌≡◌, ◌⊎◌, refl, Option, none, some, List, [], ◌∷◌, length, Text, text, pos, negsuc,
}
use webridge.Redirects.{
  ClientConfig, Done, Do, stopped, redirected, too_many_redirects, check_redirect, new_base_client,
}
use webridge.Redirects.Ends.{most, Do-Ends}

abbrev cfg : ClientConfig
cfg = record { request_timeout = pos 0; max_redirects = pos 2 }

abbrev again : List Text → Option Text
again made = some (text "https://example.com/")

Do-Ends_example :
    (done : Done) × Do (new_base_client cfg) again (text "https://we.tl/t-1" ∷ []) done
    × (length done.made ≤ most cfg)
    × ((done.error ≡ none) ⊎ (done.error ≡ some too_many_redirects))
Do-Ends_example = Do-Ends cfg again (text "https://we.tl/t-1")

-- Two redirects are allowed, and only one is followed.
follows_one :
    Do (new_base_client cfg) again (text "a" ∷ []) (record {
      made = text "a" ∷ text "https://example.com/" ∷ [];
      error = some too_many_redirects;
    })
unfolding new_base_client check_redirect
follows_one = redirected (text "a" ∷ []) (text "https://example.com/") _ refl refl (
    stopped (text "a" ∷ text "https://example.com/" ∷ []) (text "https://example.com/") _ refl refl)

follows_none : check_redirect (record cfg { max_redirects = negsuc 0 }) [] ≡ some too_many_redirects
unfolding check_redirect
follows_none = refl

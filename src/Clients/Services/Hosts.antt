-- ===== src/Clients/Services/Hosts.antt =====
-- The hosts that the server registers, and those that the parser of Wesendit accepts.
use webridge.Prelude.{ℕ, Option, none, some, Text, text, ◌==◌, ◌≡◌, refl}
use webridge.Prelude.Table.{lookup, insert}
use webridge.Strings.{to_lower, lower_byte, before, drop_dot}
use webridge.Transfer.{failed, error, Parsed, parsed, unparsed, Web}
use webridge.Registry.{register, resolve_provider, found, host_name}
use webridge.Clients.Wesendit
use webridge.Clients.Services.{wesendit, Json, resolve, provider_of, registry}

abbrev pub host_of : Parsed → Option Text
host_of (parsed host path) = some host
host_of (unparsed e) = none

-- For a URL whose host is www.wesendit.com the server finds the client of Wesendit, which registered the
-- host, and this client refuses the host, whatever the rest of the URL.
pub wesendit_refuses_www :
    (web : Web) (json : Json) (fuel : ℕ) (password url path : Text)
    → web.parse_url url ≡ parsed (text "www.wesendit.com") path
    → (resolve_provider (λ u. host_of (web.parse_url u)) registry url
        ≡ found (provider_of wesendit))
      × (resolve web json fuel password wesendit url
          ≡ some (failed (error (text "domain not allowed: only wesendit.com is supported"))))
unfolding resolve_provider registry register provider_of resolve Wesendit.resolve Wesendit.parse_url
    host_name to_lower lower_byte before drop_dot lookup insert text ◌==◌
wesendit_refuses_www web json fuel password url path p =
    (rw (resolve_provider, p) refl, rw (resolve, Wesendit.resolve, Wesendit.parse_url, p) refl)

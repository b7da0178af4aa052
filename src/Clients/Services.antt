-- ===== src/Clients/Services.antt =====
-- The five clients of internal/providers together: their names and hosts, the registry that
-- cmd/server/main.go builds of them, and the choice of the `Resolve` that runs.
pub mod Panics
pub mod Hosts
pub mod Refusals
pub mod Guard
pub mod Requests
mod Tests
use webridge.Prelude.{
  ℕ, Bool, true, false, ◌&&◌, ◌||◌, Option, none, some, List, [], ◌∷◌, ◌++◌, if◌then◌else◌, Text,
  text,
}
use webridge.Strings.{has_prefix}
use webridge.Transfer.{Outcome, Decoded, Request, Sent, not_sent, Web}
use webridge.Registry.{Provider, Registry, new_registry, register}
use webridge.Links.{is_wetransfer_short}
use webridge.Clients.WeTransfer
use webridge.Clients.SendGb
use webridge.Clients.SendSpace
use webridge.Clients.TransferNow
use webridge.Clients.Wesendit

pub data Client : Type 0 where
  we_transfer send_gb transfer_now wesendit send_space : Client

-- `Name` and `Hosts`
unfoldable pub provider_of : Client → Provider
provider_of we_transfer = record {
  name = text "wetransfer";
  hosts = text "wetransfer.com" ∷ text "we.tl" ∷ [];
}
provider_of send_gb = record {
  name = text "sendgb";
  hosts = text "sendgb.com" ∷ text "www.sendgb.com" ∷ [];
}
provider_of transfer_now = record {
  name = text "transfernow";
  hosts = text "transfernow.net" ∷ text "www.transfernow.net" ∷ [];
}
provider_of wesendit = record {
  name = text "wesendit";
  hosts = text "wesendit.com" ∷ text "www.wesendit.com" ∷ [];
}
provider_of send_space = record {
  name = text "sendspace";
  hosts = text "sendspace.com" ∷ text "www.sendspace.com" ∷ [];
}

-- The registry of the server, in the order of `main`.
unfoldable pub registry : Registry
unfolding provider_of
registry =
    register
      (register
        (register (register (register new_registry (provider_of we_transfer)) (provider_of send_gb))
          (provider_of transfer_now))
        (provider_of wesendit))
      (provider_of send_space)

-- What encoding/json reads in the answers of each service.
pub record Json : Type 0 where
  pub direct_link : Text → Decoded WeTransfer.DirectLink
  pub sendgb : SendGb.Codec
  pub now_transfer : Text → Decoded TransferNow.NowTransfer
  pub it_transfer : Text → Decoded Wesendit.ItTransfer
  pub space_file : Text → Decoded SendSpace.SpaceFile

module _ (web : Web) (json : Json) (fuel : ℕ) (password : Text) where
  -- `Resolve` of the client; `none`: the fuel for the short links of WeTransfer ran out.
  unfoldable pub resolve : Client → Text → Option Outcome
  resolve we_transfer url = WeTransfer.resolve web json.direct_link password fuel url
  resolve send_gb url = some (SendGb.resolve web json.sendgb password url)
  resolve transfer_now url = some (TransferNow.resolve web json.now_transfer password url)
  resolve wesendit url = some (Wesendit.resolve web json.it_transfer password url)
  resolve send_space url = some (SendSpace.resolve web json.space_file password url)

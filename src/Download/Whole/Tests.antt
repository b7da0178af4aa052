-- ===== src/Download/Whole/Tests.antt =====
-- A request of a file that its provider finds, and one of a link that it does not know.
use webridge.Prelude.{ℕ, Option, none, some, List, [], ◌∷◌, Text, text, ℤ, pos, ◌≡◌, refl}
use webridge.Prelude.Table.{lookup}
use webridge.Samples.{log}
use webridge.Registry.{Registry, Provider}
use webridge.Transfer.{TransferInfo, Outcome, ok}
use webridge.Download.{Limits, Visit, Downloads}
use webridge.Download.Whole.{serve}

abbrev limits : Limits
limits = record {
  max_url_length = pos 2048;
  max_file_size_gb = pos 2;
  max_concurrent_downloads = pos 1;
}

abbrev sender : Provider
sender = record { name = text "sendgb"; hosts = text "sendgb.com" ∷ [] }

abbrev registry : Registry
registry = record {
  providers = (text "sendgb", sender) ∷ [];
  host_map = (text "sendgb.com", sender) ∷ [];
}

abbrev visit : Visit
visit = record { username = text "bob"; client_ip = text "10.0.0.1"; url = text "sendgb.com" }

abbrev found_file : Provider → Text → Option Outcome
found_file p url = some (
    ok (record {
      direct_url = text "https://x";
      file_name = text "f";
      file_size = pos 9;
      file_count = 1;
    }))

abbrev never : Provider → Text → Option Outcome
never p url = none

abbrev sent : TransferInfo → Option (ℤ × Option Text)
sent info = some (pos 9, none)

abbrev parse : Text → Option Text
parse t = some t

abbrev idle : Downloads
idle = record { used = 0; flights = []; log = log }

-- Where `Resolve` does not return, the request does not end.
stuck : serve limits parse (text "bad") registry 1 2 never sent idle (text "a") visit ≡ none
unfolding serve lookup webridge.Download.arrive webridge.Download.url_refused
    webridge.Prelude.not_empty text webridge.Registry.resolve_provider webridge.Prelude.◌==◌
    webridge.Registry.host_name webridge.Strings.drop_dot webridge.Strings.before
    webridge.Strings.to_lower webridge.Prelude.Table.insert
stuck = refl

-- ===== src/Download/Tests.antt =====
-- Runs of the steps of internal/handlers/download.go.
use webridge.Prelude.{◌≡◌, refl, none, some, List, [], ◌∷◌, text, not_empty, pos, arith}
use webridge.Prelude.Table.{lookup, count}
use webridge.Samples.{log}
use webridge.Registry.{Registry, Provider}
use webridge.Transfer.{TransferInfo, ok}
use webridge.Download.{Limits, Visit, Downloads, url_refused, gigabytes, arrive}
use webridge.Download.Slots.{
  IsBalanced, Move, arrives, resolves_to, streams_to, move_all, move_all-IsBalanced,
}

abbrev limits : Limits
limits = record {
  max_url_length = pos 2048;
  max_file_size_gb = pos 2;
  max_concurrent_downloads = pos 1;
}

abbrev pixel : Provider
pixel = record { name = text "pixeldrain"; hosts = text "pixeldrain.com" ∷ [] }

abbrev registry : Registry
registry = record {
  providers = (text "pixeldrain", pixel) ∷ [];
  host_map = (text "pixeldrain.com", pixel) ∷ [];
}

abbrev visit : Visit
visit = record { username = text "bob"; client_ip = text "10.0.0.1"; url = text "pixeldrain.com" }

abbrev info : TransferInfo
info = record {
  direct_url = text "https://x";
  file_name = text "f";
  file_size = pos 9;
  file_count = 1;
}

abbrev idle : Downloads
idle = record { used = 0; flights = []; log = log }

abbrev moves : List Move
moves =
    arrives 1 0 (text "a") visit
    ∷ arrives 2 0 (text "b") visit
    ∷ resolves_to 3 1 (text "a") (ok info)
    ∷ streams_to 4 2 (text "a") (pos 9) none
    ∷ []

idle-IsBalanced : IsBalanced limits idle
unfolding count
idle-IsBalanced = record { flights = tt; used = refl; within = omega arith; active = refl }

move_all-IsBalanced_example :
    IsBalanced limits (move_all limits (λ t. some t) (text "bad") registry idle moves)
move_all-IsBalanced_example =
    move_all-IsBalanced limits (λ t. some t) (text "bad") registry idle moves idle-IsBalanced

too_many :
    (arrive limits
      (λ t. some t)
      (text "bad")
      registry
      2
      0
      (record idle { used = 1 })
      (text "b")
      visit).1
    ≡ some (record { status = 503; message = text "Server busy, try again later" })
unfolding arrive url_refused lookup not_empty text
too_many = refl

two_gigabytes : gigabytes (pos 2) ≡ pos 2147483648
unfolding gigabytes
two_gigabytes = refl

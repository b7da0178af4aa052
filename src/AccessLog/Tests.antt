-- ===== src/AccessLog/Tests.antt =====
-- Entries of two days.
use webridge.Prelude.{
  Bool, true, false, Option, none, some, List, [], ◌∷◌, ◌++◌, Text, text, ◌==◌, ◌≡◌, refl, inl,
  not_empty,
}
use webridge.Prelude.Table.{lookup, insert}
use webridge.AccessLog.{Entry, Writer, contents, write_line, flush}
use webridge.AccessLog.Requests.{
  Request, entry_of, write_header, write_headers, new_writer, access_log,
}
use webridge.AccessLog.Rotation.{IsTidy, AllOpen, lines, flush_lem}

abbrev entry : Text → Entry
entry path = record {
  time = text "12:00";
  method = text "GET";
  path = path;
  status = 200;
  duration_ms = 3;
  ip = text "10.0.0.1";
  user_agent = [];
}

abbrev path_of : Entry → Option Text
path_of e = some e.path

abbrev fresh : Writer
fresh = record { ch = none; date = []; file = none }

abbrev days : List (Text × Bool × Entry)
days =
    (text "2024-01-01", true, entry (text "/a"))
    ∷ (text "2024-01-02", true, entry (text "/b"))
    ∷ (text "2024-01-02", true, entry (text "/c"))
    ∷ []

fresh-IsTidy : IsTidy fresh
unfolding IsTidy
fresh-IsTidy = inl refl

days-AllOpen : AllOpen days
unfolding AllOpen
days-AllOpen = (refl, (refl, (refl, tt)))

flush_lem_example :
    IsTidy (flush path_of days (fresh, [])).0
    × (contents (text "access-2024-01-02.jsonl") (flush path_of days (fresh, [])).1
        ≡ contents (text "access-2024-01-02.jsonl") []
          ++ lines path_of (text "access-2024-01-02.jsonl") days)
flush_lem_example =
    flush_lem path_of days (text "access-2024-01-02.jsonl") fresh [] fresh-IsTidy days-AllOpen

second_day :
    contents (text "access-2024-01-02.jsonl") (flush path_of days (fresh, [])).1 ≡ text "/b\n/c\n"
unfolding flush write_line contents insert lookup ◌==◌ text
second_day = refl

-- A day whose file does not open loses its entries.
not_opened : (flush path_of ((text "2024-01-03", false, entry (text "/d")) ∷ []) (fresh, [])).1 ≡ []
unfolding flush write_line ◌==◌ text
not_opened = refl

abbrev request : Request
request = record {
  start = text "12:00";
  method = text "GET";
  path = text "/a";
  duration = 3;
  ip = text "10.0.0.1";
  user_agent = [];
  codes = [];
}

no_code : entry_of request ≡ entry (text "/a")
unfolding entry_of write_headers
no_code = refl

last_code : (entry_of (record request { codes = 200 ∷ 502 ∷ [] })).status ≡ 502
unfolding entry_of write_headers write_header
last_code = refl

no_directory : access_log (new_writer []) request ≡ none
unfolding access_log new_writer not_empty
no_directory = refl

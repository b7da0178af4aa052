-- ===== src/Store/RowTests.antt =====
-- Rows of internal/audit/store.go at concrete events.
use webridge.Prelude.{
  ℕ, ◌++◌, ◌≡◌, refl, ap, Option, none, some, List, [], ◌∷◌, map, Text, text, ℤ, pos,
}
use webridge.Prelude.Table.{lookup}
use webridge.Event.{Event}
use webridge.Samples.{event}
use webridge.Download.{join}
use webridge.Store.Sql.{Arg, text_arg, int_arg, select_events}
use webridge.Store.Rows.{
  Driver, IsFaithful, select_columns, named, selected, scan_rows, scan_rows-selected,
}

abbrev value_of : Option Arg → Arg
value_of none = text_arg []
value_of (some a) = a

abbrev to_text : Arg → Text
to_text (text_arg t) = t
to_text (int_arg n) = []

abbrev to_int : Arg → ℤ
to_int (text_arg t) = pos 0
to_int (int_arg n) = n

abbrev first : Text → ℕ
first [] = 0
first (n ∷ t) = n

-- A time is kept as one byte.
abbrev driver : Driver
driver = record {
  format = λ t. t ∷ [];
  parse = first;
  stored = λ columns args column. value_of (lookup column (named columns args));
  to_text = to_text;
  to_int = to_int;
}

driver-IsFaithful : IsFaithful driver
driver-IsFaithful = record {
  keeps = λ columns args column a h. ap value_of h;
  texts = λ t. refl;
  ints = λ n. refl;
  times = λ t. refl;
}

abbrev events : List Event
events = event 3 ∷ record (event 2) { file_size = pos 7; client_ua = text "curl" } ∷ []

scan_rows-selected_example : scan_rows driver (map (selected driver) events) ≡ events
scan_rows-selected_example = scan_rows-selected driver events driver-IsFaithful

-- The columns are those of the statement.
selected_columns :
    text "SELECT " ++ (join select_columns ++ text " FROM audit_events WHERE ") ≡ select_events
unfolding join text
selected_columns = refl

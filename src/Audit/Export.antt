-- ===== src/Audit/Export.antt =====
-- `ExportCSVHandler` of internal/audit/audit.go: the records that encoding/csv is given. The texts of times
-- and numbers are parameters.
use webridge.Prelude.{
  ℕ, suc, ◌≤◌, ◌≡◌, refl, ap, ◌∙◌, none, List, [], ◌∷◌, map, length, All, Text, text, ℤ, pos, keep,
  take, length-take, arith,
}
use webridge.Event.{Event}
use webridge.Audit.{Log, Query, selects}
use webridge.Audit.Handlers.{Database, Fields, query, query_of_none}
use webridge.Audit.Search.{query_memory_lem}
use mathlib.Core.List.{reverse}

-- `Format` with time.RFC3339, and `strconv.FormatInt` with base 10.
pub record Format : Type 0 where
  pub time : ℕ → Text
  pub int : ℤ → Text

abbrev pub export_query : Fields → Query
export_query f = record {
  user = f.user;
  action = f.action;
  limit = pos 10000;
  offset = pos 0;
  from_ms = f.from;
  to_ms = f.to;
}

abbrev pub csv_header : List Text
csv_header =
    text "time"
    ∷ text "action"
    ∷ text "user"
    ∷ text "ip"
    ∷ text "detail"
    ∷ text "url"
    ∷ text "provider"
    ∷ text "filename"
    ∷ text "file_size"
    ∷ text "resolved_url"
    ∷ text "bytes_transferred"
    ∷ text "duration_ms"
    ∷ text "sha256"
    ∷ text "client_ua"
    ∷ []

unfoldable pub csv_record : Format → Event → List Text
csv_record format e =
    format.time e.time
    ∷ e.action
    ∷ e.user
    ∷ e.ip
    ∷ e.detail
    ∷ e.url
    ∷ e.provider
    ∷ e.filename
    ∷ format.int e.file_size
    ∷ e.resolved_url
    ∷ format.int e.bytes_transferred
    ∷ format.int (pos e.duration_ms)
    ∷ e.sha256
    ∷ e.client_ua
    ∷ []

unfoldable pub export_csv_handler : Database → Format → Log → Fields → List (List Text)
unfolding csv_record
export_csv_handler db format l f =
    csv_header ∷ map (csv_record format) (query db l (export_query f))

-- A table: each record has as many fields as there are columns.
abbrev pub IsTable : ℕ → List (List Text) → Type 0
IsTable columns = All (λ r. length r ≡ columns)

records-IsTable : (format : Format) (es : List Event) → IsTable 14 (map (csv_record format) es)
unfolding csv_record
records-IsTable format [] = tt
records-IsTable format (e ∷ es) = (refl, records-IsTable format es)

length-map : (format : Format) (es : List Event) → length (map (csv_record format) es) ≡ length es
length-map format [] = refl
length-map format (e ∷ es) = ap suc (length-map format es)

-- The export is a table with fourteen columns, whatever the log, the database and the request.
pub export_csv_handler-IsTable :
    (db : Database) (format : Format) (l : Log) (f : Fields)
    → IsTable 14 (export_csv_handler db format l f)
unfolding export_csv_handler
export_csv_handler-IsTable db format l f =
    (refl, records-IsTable format (query db l (export_query f)))

-- Without a store it has at most ten thousand records below its header.
pub length-export_csv_handler :
    (db : Database) (format : Format) (l : Log) (f : Fields)
    → l.store ≡ none
    → length (export_csv_handler db format l f) ≤ 10001
unfolding export_csv_handler
length-export_csv_handler db format l f h =
    let found = keep (selects (export_query f)) (reverse l.events) in
    let same : query db l (export_query f) ≡ take 10000 found =
      query_of_none db l (export_query f) h ∙ query_memory_lem l (export_query f) in
    omega (
      arith,
      length-map format (query db l (export_query f)),
      ap length same,
      length-take 10000 found,
    )

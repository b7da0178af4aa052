-- ===== src/Store/Rows.antt =====
-- A row of the table of internal/audit/store.go: the values that `drain` gives to the INSERT, and the
-- event that `Query` scans of a row. What SQLite stores, its conversions and the layouts of `time` are
-- parameters.
use webridge.Prelude.{
  ℕ, zero, suc, ◌≡◌, refl, ap, ◌∙◌, some, List, [], ◌∷◌, map, Text, text, ◌==◌, ℤ, pos, pos_part,
}
use webridge.Prelude.Table.{Table, lookup}
use webridge.Event.{Event}
use webridge.Store.Sql.{Arg, text_arg, int_arg}

-- The columns of the INSERT, in its order.
abbrev pub insert_columns : List Text
insert_columns =
    text "time"
    ∷ text "action"
    ∷ text "user"
    ∷ text "ip"
    ∷ text "detail"
    ∷ text "url"
    ∷ text "provider"
    ∷ text "filename"
    ∷ text "file_size"
    ∷ text "mime_type"
    ∷ text "resolved_url"
    ∷ text "bytes_transferred"
    ∷ text "duration_ms"
    ∷ text "sha256"
    ∷ text "anomaly_flags"
    ∷ text "client_ua"
    ∷ []

-- The columns of the SELECT, in its order.
abbrev pub select_columns : List Text
select_columns =
    text "time"
    ∷ text "action"
    ∷ text "user"
    ∷ text "ip"
    ∷ text "detail"
    ∷ text "url"
    ∷ text "provider"
    ∷ text "filename"
    ∷ text "file_size"
    ∷ text "mime_type"
    ∷ text "resolved_url"
    ∷ text "bytes_transferred"
    ∷ text "duration_ms"
    ∷ text "sha256"
    ∷ text "anomaly_flags"
    ∷ text "client_ua"
    ∷ []

-- The layouts, the table, and the conversions of a scan: `stored columns args` is what the row that the
-- INSERT makes has in a column.
pub record Driver : Type 0 where
  pub format : ℕ → Text
  pub parse : Text → ℕ
  pub stored : List Text → List Arg → Text → Arg
  pub to_text : Arg → Text
  pub to_int : Arg → ℤ

-- The arguments of one `stmt.Exec`.
unfoldable pub insert_args : Driver → Event → List Arg
insert_args d e =
    text_arg (d.format e.time)
    ∷ text_arg e.action
    ∷ text_arg e.user
    ∷ text_arg e.ip
    ∷ text_arg e.detail
    ∷ text_arg e.url
    ∷ text_arg e.provider
    ∷ text_arg e.filename
    ∷ int_arg e.file_size
    ∷ text_arg []
    ∷ text_arg e.resolved_url
    ∷ int_arg e.bytes_transferred
    ∷ int_arg (pos e.duration_ms)
    ∷ text_arg e.sha256
    ∷ text_arg []
    ∷ text_arg e.client_ua
    ∷ []

-- The n-th value of a result; a result has a value for each column of the SELECT.
unfoldable pub nth : ℕ → List Arg → Arg
nth n [] = text_arg []
nth zero (a ∷ args) = a
nth (suc n) (a ∷ args) = nth n args

-- `rows.Scan` and `time.Parse`; the columns for the MIME type and the flags are read and dropped.
unfoldable pub scan : Driver → List Arg → Event
unfolding nth
scan d values = record {
  time = d.parse (d.to_text (nth 0 values));
  action = d.to_text (nth 1 values);
  user = d.to_text (nth 2 values);
  ip = d.to_text (nth 3 values);
  detail = d.to_text (nth 4 values);
  url = d.to_text (nth 5 values);
  provider = d.to_text (nth 6 values);
  filename = d.to_text (nth 7 values);
  file_size = d.to_int (nth 8 values);
  resolved_url = d.to_text (nth 10 values);
  bytes_transferred = d.to_int (nth 11 values);
  duration_ms = pos_part (d.to_int (nth 12 values));
  sha256 = d.to_text (nth 13 values);
  client_ua = d.to_text (nth 15 values);
}

-- What the SELECT reads of the row that the INSERT made of an event.
abbrev pub selected : Driver → Event → List Arg
selected d e = map (d.stored insert_columns (insert_args d e)) select_columns

-- `Query`: the loop over the rows of the result.
unfoldable pub scan_rows : Driver → List (List Arg) → List Event
scan_rows d [] = []
scan_rows d (values ∷ rows) = scan d values ∷ scan_rows d rows

abbrev pub named : List Text → List Arg → Table Arg
named [] args = []
named (c ∷ cs) [] = []
named (c ∷ cs) (a ∷ args) = (c, a) ∷ named cs args

-- A column has the argument at its place, texts and numbers come back as they went in, and a time that is
-- formatted with time.RFC3339Nano is parsed to itself.
pub record IsFaithful (d : Driver) : Type 0 where
  pub keeps :
      (columns : List Text) (args : List Arg) (column : Text) (a : Arg)
      → lookup column (named columns args) ≡ some a
      → d.stored columns args column ≡ a
  pub texts : (t : Text) → d.to_text (text_arg t) ≡ t
  pub ints : (n : ℤ) → d.to_int (int_arg n) ≡ n
  pub times : (t : ℕ) → d.parse (d.format t) ≡ t

-- Each name has the value at its place.
abbrev Fits : Table Arg → List Text → List Arg → Type 0
Fits m [] [] = Unit
Fits m [] (a ∷ args) = ⊥
Fits m (c ∷ cs) [] = ⊥
Fits m (c ∷ cs) (a ∷ args) = (lookup c m ≡ some a) × Fits m cs args

stored_Fits :
    (d : Driver) (columns : List Text) (args : List Arg) (cs : List Text) (values : List Arg)
    → IsFaithful d
    → Fits (named columns args) cs values
    → map (d.stored columns args) cs ≡ values
stored_Fits d columns args [] [] f h = refl
stored_Fits d columns args [] (a ∷ values) f h = absurd h
stored_Fits d columns args (c ∷ cs) [] f h = absurd h
stored_Fits d columns args (c ∷ cs) (a ∷ values) f (p, h) =
    rw (f.keeps columns args c a p, stored_Fits d columns args cs values f h) refl

all_fit :
    (d : Driver) (e : Event)
    → Fits (named insert_columns (insert_args d e)) select_columns (insert_args d e)
unfolding insert_args lookup text ◌==◌
all_fit d e = (
  refl,
  (
    refl,
    (
      refl,
      (
        refl,
        (
          refl,
          (
            refl,
            (refl, (refl, (refl, (refl, (refl, (refl, (refl, (refl, (refl, (refl, tt)))))))))),
          ),
        ),
      ),
    ),
  ),
)

scan-selected : (d : Driver) (e : Event) → IsFaithful d → scan d (selected d e) ≡ e
unfolding scan insert_args nth
scan-selected d e f =
    ap (scan d) (
      stored_Fits d insert_columns (insert_args d e) select_columns (insert_args d e) f
        (all_fit d e))
    ∙ simp (f.texts, f.ints, f.times) refl

-- Where the database keeps what it is given, the events that are read from the rows of events that were
-- written are these events, with all of their fields.
pub scan_rows-selected :
    (d : Driver) (es : List Event) → IsFaithful d → scan_rows d (map (selected d) es) ≡ es
unfolding scan_rows
scan_rows-selected d [] f = refl
scan_rows-selected d (e ∷ es) f = rw (scan-selected d e f) (ap (◌∷◌ e) (scan_rows-selected d es f))

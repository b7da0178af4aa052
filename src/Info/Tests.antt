-- ===== src/Info/Tests.antt =====
-- Runs of `InfoHandler` and `RecentHandler` of internal/handlers/download.go, and the theorems at concrete
-- inputs.
use webridge.Prelude.{
  ℕ, ◌≤◌, ◌≡◌, refl, ap, Bool, true, some, List, [], ◌∷◌, ◌++◌, length, take, drop, keep, All, Text,
  text, ◌==◌, not_empty, pos, arith,
}
use webridge.Event.{Event}
use webridge.Samples.{event, log}
use webridge.Strings.{has_prefix, contains}
use webridge.Audit.{Log, query_memory}
use webridge.Audit.Handlers.{Database, query}
use webridge.Store.Sql.{Arg, text_arg, int_arg}
use webridge.Info.{recent_handler}
use webridge.Info.Privacy.{HasLike, recent_handler-IsOwn, recent_handler_shows_others}

abbrev download : ℕ → Event
download n = record (event n) { action = text "download_success" }

abbrev busy : Log
busy = record log { events = download 1 ∷ event 2 ∷ download 3 ∷ [] }

-- The text between two percent signs.
abbrev without_last : Text → Text
without_last [] = []
without_last (c ∷ []) = []
without_last (c ∷ d ∷ t) = c ∷ without_last (d ∷ t)

-- LIKE for a pattern that begins and ends with a percent sign.
abbrev like : Text → Text → Bool
like pattern name = contains name (without_last (drop 1 pattern))

without_last-append : (t : Text) (c : ℕ) → without_last (t ++ c ∷ []) ≡ t
without_last-append [] c = refl
without_last-append (d ∷ []) c = refl
without_last-append (d ∷ e ∷ t) c = ap (◌∷◌ d) (without_last-append (e ∷ t) c)

has_prefix-append : (s t : Text) → has_prefix (s ++ t) s ≡ true
unfolding has_prefix
has_prefix-append [] t = refl
has_prefix-append (c ∷ s) t = ground (arith, has_prefix-append s t)

contains-append : (before name after : Text) → contains (before ++ (name ++ after)) name ≡ true
unfolding contains has_prefix
contains-append [] [] [] = refl
contains-append [] [] (d ∷ after) = refl
contains-append [] (c ∷ name) after = ground (arith, has_prefix-append (c ∷ name) after)
contains-append (b ∷ before) name after = ground (arith, contains-append before name after)

like_percent :
    (before name after : Text)
    → like (text "%" ++ (name ++ text "%")) (before ++ (name ++ after)) ≡ true
unfolding text
like_percent before name after =
    rw (without_last-append name 37) (contains-append before name after)

abbrev of_bobby : Event
of_bobby = record (download 5) { user = text "bobby" }

abbrev rows : List Event
rows = of_bobby ∷ download 4 ∷ []

-- The limit is the last argument but one.
abbrev limit_in : List Arg → ℕ
limit_in (text_arg p ∷ int_arg (pos n) ∷ args) = n
limit_in args = 0

abbrev pattern_in : List Arg → Text
pattern_in (text_arg p ∷ args) = p
pattern_in args = []

abbrev db : Database
db = record {
  select = λ st. take (limit_in st.args) (keep (λ e. like (pattern_in st.args) e.user) rows);
  number = λ st. pos 0;
  format = λ ms. [];
}

newest_first : recent_handler db busy (text "bob") ≡ download 3 ∷ download 1 ∷ []
unfolding recent_handler query query_memory has_prefix not_empty text ◌==◌
newest_first = refl

recent_handler-IsOwn_example :
    All (λ e. e.user ≡ text "bob") (recent_handler db busy (text "bob"))
    × (length (recent_handler db busy (text "bob")) ≤ 10)
unfolding not_empty text
recent_handler-IsOwn_example = recent_handler-IsOwn db busy (text "bob") refl refl

abbrev stored : Log
stored = record log { store = some (record { ch = []; batch = []; rows = [] }) }

db-HasLike : HasLike db like rows
db-HasLike = record { selects_like = λ pattern limit. refl; percent = like_percent }

recent_handler_shows_others_example :
    (rest : List Event) × (recent_handler db stored (text "bob") ≡ of_bobby ∷ rest)
unfolding not_empty text has_prefix
recent_handler_shows_others_example =
    recent_handler_shows_others db like (download 4 ∷ []) stored
      (record { ch = []; batch = []; rows = [] }) (text "bob") [] (text "by") of_bobby refl refl
      db-HasLike refl refl

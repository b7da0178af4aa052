-- ===== src/Info/Privacy.antt =====
-- Whose downloads `RecentHandler` of internal/handlers/download.go lists: the user's own without a store,
-- also those of other users with one.
use mathlib.Core.List.{reverse}
use webridge.Prelude.{
  ℕ, zero, suc, if_cases, ◌≤◌, ◌≡◌, refl, ap, ◌∙◌, Bool, true, none, some, List, [], ◌∷◌, ◌++◌,
  length, length-take, take, keep, All, arith, Text, text, not_empty, pos, ℤ,
}
use webridge.Event.{Event}
use webridge.Audit.{Log, selects}
use webridge.Audit.Handlers.{Database, query, query_of_some}
use webridge.Audit.Search.{selects_own}
use webridge.Store.{Store}
use webridge.Store.Sql.{
  Statement, text_arg, int_arg, select_events, newest_first, query_statement, filter_clause, add,
  limit_of, offset_of,
}
use webridge.Info.{is_download, recent_from, recent_query, recent_handler}
use webridge.Info.Recent.{take-recent_from, recent_handler_lem}

module _ (P : Event → Type 0) where
  All-take : (n : ℕ) (es : List Event) → All P es → All P (take n es)
  All-take zero es h = tt
  All-take (suc n) [] h = tt
  All-take (suc n) (e ∷ es) (p, h) = (p, All-take n es h)

  All-keep : (t : Event → Bool) (es : List Event) → All P es → All P (keep t es)
  All-keep t [] h = tt
  All-keep t (e ∷ es) (p, h) =
      if_cases (All P) (t e) (e ∷ keep t es) (keep t es) (λ _. (p, All-keep t es h))
        (λ _. All-keep t es h)

  keep-All :
      (t : Event → Bool) (es : List Event) → ((e : Event) → t e ≡ true → P e) → All P (keep t es)
  keep-All t [] f = tt
  keep-All t (e ∷ es) f =
      if_cases (All P) (t e) (e ∷ keep t es) (keep t es) (λ h. (f e h, keep-All t es f))
        (λ _. keep-All t es f)

-- Without a store the list has at most ten events, and each is the user's own.
pub recent_handler-IsOwn :
    (db : Database) (l : Log) (username : Text)
    → l.store ≡ none
    → not_empty username ≡ true
    → All (λ e. e.user ≡ username) (recent_handler db l username)
      × (length (recent_handler db l username) ≤ 10)
recent_handler-IsOwn db l username h u =
    let own = selects (recent_query username) in
    let mine = take 100 (keep own (reverse l.events)) in
    rw (recent_handler_lem db l username h) (
      All-take (λ e. e.user ≡ username) 10 (keep is_download mine)
          (All-keep (λ e. e.user ≡ username) is_download mine
            (All-take (λ e. e.user ≡ username) 100 (keep own (reverse l.events))
              (keep-All (λ e. e.user ≡ username) own (reverse l.events)
                (λ e s. selects_own (recent_query username) e u s)))),
      omega (arith, length-take 10 (keep is_download mine)),
    )

-- The statement that looks for a pattern in the names.
abbrev named_like : Text → ℕ → Statement
named_like pattern limit = record {
  sql = select_events ++ ((text "1=1" ++ text " AND user LIKE ?") ++ newest_first);
  args = text_arg pattern ∷ int_arg (pos limit) ∷ int_arg (pos 0) ∷ [];
}

-- What SQLite documents of this statement, over rows that stand newest first: LIKE picks the rows, and %
-- in a pattern stands for any text.
pub record HasLike (db : Database) (like : Text → Text → Bool) (rows : List Event) : Type 0 where
  pub selects_like :
      (pattern : Text) (limit : ℕ)
      → db.select (named_like pattern limit) ≡ take limit (keep (λ e. like pattern e.user) rows)
  pub percent :
      (before name after : Text)
      → like (text "%" ++ (name ++ text "%")) (before ++ (name ++ after)) ≡ true

recent_statement :
    (format : ℤ → Text) (username : Text)
    → not_empty username ≡ true
    → query_statement format (recent_query username)
      ≡ named_like (text "%" ++ (username ++ text "%")) 100
unfolding query_statement filter_clause add limit_of offset_of not_empty text
recent_statement format [] h = cc
recent_statement format (c ∷ name) h = refl

-- With a store and a database that treats LIKE as SQLite documents it: if the newest row is a download of
-- a user whose name has the own name inside, the list begins with it.
pub recent_handler_shows_others :
    (db : Database) (like : Text → Text → Bool) (rows : List Event) (l : Log) (s : Store)
    (username before after : Text) (e : Event)
    → l.store ≡ some s
    → not_empty username ≡ true
    → HasLike db like (e ∷ rows)
    → e.user ≡ before ++ (username ++ after)
    → is_download e ≡ true
    → (rest : List Event) × (recent_handler db l username ≡ e ∷ rest)
unfolding recent_handler
recent_handler_shows_others db like rows l s username before after e h u sqlite name d =
    let pattern = text "%" ++ (username ++ text "%") in
    let found = keep (λ x. like pattern x.user) rows in
    let matches : like pattern e.user ≡ true = rw name (sqlite.percent before username after) in
    let selected : query db l (recent_query username) ≡ e ∷ take 99 found =
      query_of_some db l s (recent_query username) h
      ∙ ap db.select (recent_statement db.format username u)
      ∙ sqlite.selects_like pattern 100
      ∙ ground (arith, matches) in
    (
      take 9 (keep is_download (take 99 found)),
      ap (λ es. recent_from es []) selected
          ∙ take-recent_from (e ∷ take 99 found)
          ∙ ground (arith, d),
    )

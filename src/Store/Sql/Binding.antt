-- ===== src/Store/Sql/Binding.antt =====
-- The parameters of the statements, and what of a query is in their text.
use webridge.Prelude.{
  ℕ, suc, ◌+◌, Bool, [], ◌∷◌, ◌++◌, length, length-append, eqb, if◌then◌else◌, Text, text,
  not_empty, ℤ, is_positive, ◌≡◌, refl, ap, arith,
}
use webridge.Audit.{Query}
use webridge.Store.Sql.{
  Arg, int_arg, text_arg, Statement, add, filter_clause, query_statement, count_statement, limit_of,
  offset_of, no_filter, select_events, newest_first, count_events,
}

-- The question marks in a text.
unfoldable pub marks : Text → ℕ
marks [] = 0
marks (c ∷ s) = if eqb c b'?' then suc (marks s) else marks s

marks-append : (s t : Text) → marks (s ++ t) ≡ marks s + marks t
unfolding marks
marks-append [] t = omega arith
marks-append (c ∷ s) t = ground (arith, marks-append s t)

-- Each parameter of the text has its argument.
abbrev pub IsBound : Statement → Type 0
IsBound s = marks s.sql ≡ length s.args

add-IsBound :
    (b : Bool) (clause : Text) (arg : Arg) (s : Statement)
    → marks clause ≡ 1
    → IsBound s
    → IsBound (add b clause arg s)
unfolding add
add-IsBound b clause arg s one h =
    ground (arith, one, h, marks-append s.sql clause, length-append s.args (arg ∷ []))

abbrev IsFlagged : Query → Query → Type 0
IsFlagged q p =
    (not_empty q.action ≡ not_empty p.action)
    × (not_empty q.user ≡ not_empty p.user)
    × (is_positive q.from_ms ≡ is_positive p.from_ms)
    × (is_positive q.to_ms ≡ is_positive p.to_ms)

one_mark :
    (marks (text " AND time <= ?") ≡ 1)
    × (marks (text " AND time >= ?") ≡ 1)
    × (marks (text " AND user LIKE ?") ≡ 1)
    × (marks (text " AND action = ?") ≡ 1)
    × (marks (text "1=1") ≡ 0)
unfolding marks text
one_mark = (refl, refl, refl, refl, refl)

-- The text that stands around the filter.
query_marks : (marks select_events ≡ 0) × (marks newest_first ≡ 2) × (marks count_events ≡ 0)
unfolding marks text
query_marks = (refl, refl, refl)

add_same :
    (b c : Bool) (clause : Text) (x y : Arg) (s t : Statement)
    → b ≡ c
    → s.sql ≡ t.sql
    → (add b clause x s).sql ≡ (add c clause y t).sql
unfolding add
add_same b c clause x y s t h k = ground (arith, h, k)

module _ (format : ℤ → Text) where
  -- The filter with its first conditions.
  abbrev by_action : Query → Statement
  by_action q = add (not_empty q.action) (text " AND action = ?") (text_arg q.action) no_filter

  abbrev user_arg : Query → Arg
  user_arg q = text_arg (text "%" ++ q.user ++ text "%")

  abbrev by_user : Query → Statement
  by_user q = add (not_empty q.user) (text " AND user LIKE ?") (user_arg q) (by_action q)

  abbrev by_from : Query → Statement
  by_from q =
      add (is_positive q.from_ms) (text " AND time >= ?") (text_arg (format q.from_ms)) (by_user q)

  filter_clause-IsBound : (q : Query) → IsBound (filter_clause format q)
  unfolding filter_clause
  filter_clause-IsBound q =
      let (to, from, user, action, start) = one_mark in
      add-IsBound (is_positive q.to_ms) (text " AND time <= ?") (text_arg (format q.to_ms))
        (by_from q) to
        (add-IsBound (is_positive q.from_ms) (text " AND time >= ?") (text_arg (format q.from_ms))
          (by_user q) from
          (add-IsBound (not_empty q.user) (text " AND user LIKE ?") (user_arg q) (by_action q) user
            (add-IsBound (not_empty q.action) (text " AND action = ?") (text_arg q.action) no_filter
              action start)))

  query_statement-IsBound : (q : Query) → IsBound (query_statement format q)
  unfolding query_statement
  query_statement-IsBound q =
      let f = filter_clause format q in
      let (head, tail, other) = query_marks in
      ground (
        arith,
        head,
        tail,
        filter_clause-IsBound q,
        marks-append select_events (f.sql ++ newest_first),
        marks-append f.sql newest_first,
        length-append f.args (int_arg (limit_of format q) ∷ int_arg (offset_of format q) ∷ []),
      )

  count_statement-IsBound : (q : Query) → IsBound (count_statement format q)
  unfolding count_statement
  count_statement-IsBound q =
      let f = filter_clause format q in
      ground (arith, query_marks.2, filter_clause-IsBound q, marks-append count_events f.sql)

  -- The text says only which filters are set.
  filter_clause_same :
      (q p : Query) → IsFlagged q p → (filter_clause format q).sql ≡ (filter_clause format p).sql
  unfolding filter_clause
  filter_clause_same q p (a, u, f, t) =
      add_same _ _ (text " AND time <= ?") (text_arg (format q.to_ms)) (text_arg (format p.to_ms))
        (by_from q) (by_from p) t
        (add_same _ _ (text " AND time >= ?") (text_arg (format q.from_ms))
          (text_arg (format p.from_ms)) (by_user q) (by_user p) f
          (add_same _ _ (text " AND user LIKE ?") (user_arg q) (user_arg p) (by_action q)
            (by_action p) u
            (add_same _ _ (text " AND action = ?") (text_arg q.action) (text_arg p.action) no_filter
              no_filter a refl)))

  -- The statements of `Query` and `Count` have an argument for each parameter, and two queries that set
  -- the same filters give the same text: no value of a query is part of the SQL.
  pub statements_lem :
      (q p : Query)
      → IsFlagged q p
      → IsBound (query_statement format q)
        × IsBound (count_statement format q)
        × ((query_statement format q).sql ≡ (query_statement format p).sql)
        × ((count_statement format q).sql ≡ (count_statement format p).sql)
  unfolding query_statement count_statement
  statements_lem q p h = (
    query_statement-IsBound q,
    count_statement-IsBound q,
    ap (λ x. select_events ++ (x ++ newest_first)) (filter_clause_same q p h),
    ap (λ x. count_events ++ x) (filter_clause_same q p h),
  )

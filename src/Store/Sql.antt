-- ===== src/Store/Sql.antt =====
-- The statements that internal/audit/store.go gives to SQLite, with their arguments. `format` is
-- `time.UnixMilli` and `Format` with time.RFC3339. A line break in a statement is a space here.
pub mod Binding
use webridge.Prelude.{
  ℕ, zero, suc, ◌+◌, Bool, true, false, Option, none, some, List, [], ◌∷◌, ◌++◌, length, eqb, ltb,
  leb, if◌then◌else◌, Text, text, ◌==◌, not_empty, not, ℤ, pos, pos_part, neg_part, is_positive,
  ltb_ℤ, ◌≡◌, ◌≤◌, refl, ap, arith,
}
use webridge.Audit.{Query}

pub data Arg : Type 0 where
  text_arg : Text → Arg
  int_arg : ℤ → Arg

pub record Statement : Type 0 where
  pub sql : Text
  pub args : List Arg

-- `where += ...` and `args = append(args, ...)` under a condition
unfoldable pub add : Bool → Text → Arg → Statement → Statement
add b clause arg s = if b then record { sql = s.sql ++ clause; args = s.args ++ arg ∷ [] } else s

abbrev pub no_filter : Statement
no_filter = record { sql = text "1=1"; args = [] }

abbrev pub select_events : Text
select_events =
    text
      "SELECT time, action, user, ip, detail, url, provider, filename, file_size, mime_type, resolved_url, bytes_transferred, duration_ms, sha256, anomaly_flags, client_ua FROM audit_events WHERE "

abbrev pub newest_first : Text
newest_first = text " ORDER BY time DESC LIMIT ? OFFSET ?"

abbrev pub count_events : Text
count_events = text "SELECT COUNT(*) FROM audit_events WHERE "

module _ (format : ℤ → Text) where
  unfoldable pub filter_clause : Query → Statement
  unfolding add
  filter_clause q = add (is_positive q.to_ms) (text " AND time <= ?") (text_arg (format q.to_ms)) (
      add (is_positive q.from_ms) (text " AND time >= ?") (text_arg (format q.from_ms)) (
        add (not_empty q.user) (text " AND user LIKE ?") (text_arg (text "%" ++ q.user ++ text "%"))
          (add (not_empty q.action) (text " AND action = ?") (text_arg q.action) no_filter)))

  -- `Query`: the limit and the offset are the last two arguments.
  unfoldable pub limit_of : Query → ℤ
  limit_of q = if is_positive q.limit then q.limit else pos 1000

  unfoldable pub offset_of : Query → ℤ
  offset_of q = if ltb_ℤ q.offset (pos 0) then pos 0 else q.offset

  unfoldable pub query_statement : Query → Statement
  unfolding limit_of offset_of
  query_statement q =
      let filter = filter_clause q in
      record {
        sql = select_events ++ (filter.sql ++ newest_first);
        args = filter.args ++ int_arg (limit_of q) ∷ int_arg (offset_of q) ∷ [];
      }

  -- `Count`
  unfoldable pub count_statement : Query → Statement
  count_statement q = record {
    sql = count_events ++ (filter_clause q).sql;
    args = (filter_clause q).args;
  }

-- `TotalBytes`
unfoldable pub total_bytes_statement : Text → Statement
total_bytes_statement action =
    if not_empty action
    then record {
      sql = text "SELECT COALESCE(SUM(bytes_transferred), 0) FROM audit_events WHERE action = ?";
      args = text_arg action ∷ [];
    }
    else record {
      sql = text "SELECT COALESCE(SUM(bytes_transferred), 0) FROM audit_events";
      args = [];
    }

-- `Purge`: what is executed, as long as no call fails; `cutoff` gives the time that many days ago.
unfoldable pub purge : (ℤ → Text) → (Statement → Bool) → ℤ → List Statement
purge cutoff succeeds retention_days =
    if is_positive retention_days
    then (let delete : Statement = record {
      sql = text "DELETE FROM audit_events WHERE time < ?";
      args = text_arg (cutoff retention_days) ∷ [];
    } in
        if succeeds delete
        then delete ∷ record { sql = text "VACUUM"; args = [] } ∷ []
        else delete ∷ [])
    else []

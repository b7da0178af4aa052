-- ===== src/Audit/Search.antt =====
-- `Query` of a log in memory (internal/audit/audit.go) against its specification.
use mathlib.Core.List.{reverse, append_assoc, append-nil}
use webridge.Prelude.{
  ℕ, zero, suc, ◌+◌, ◌-◌, ◌≡◌, sym, true, false, List, [], ◌∷◌, ◌++◌, length, length-append, take,
  keep, arith, if◌then◌else◌, ℤ, is_positive, pos_part, Bool-cases, inl, inr, not_empty, eq_iff,
}
use webridge.Event.{Event}
use webridge.Audit.{Log, Query, selects, query_from, query_memory}

-- No limit, or the first `limit`.
abbrev pub limited : ℤ → List Event → List Event
limited limit es = if is_positive limit then take (pos_part limit) es else es

query_unlimited :
    (q : Query) (es out : List Event)
    → is_positive q.limit ≡ false
    → query_from q es out ≡ out ++ keep (selects q) es
unfolding query_from
query_unlimited q [] out h = sym (append-nil out)
query_unlimited q (e ∷ es) out h = ground (
  arith,
  query_unlimited q es out h,
  query_unlimited q es (out ++ e ∷ []) h,
  append_assoc out (e ∷ []) (keep (selects q) es),
)

query_limited :
    (q : Query) (es out : List Event) (room : ℕ)
    → is_positive q.limit ≡ true
    → length out + suc room ≡ pos_part q.limit
    → query_from q es out ≡ out ++ take (suc room) (keep (selects q) es)
unfolding query_from
query_limited q [] out room h l = sym (append-nil out)
query_limited q (e ∷ es) out zero h l =
    ground (arith, query_limited q es out zero h l, length-append out (e ∷ []))
query_limited q (e ∷ es) out (suc room) h l = ground (
  arith,
  query_limited q es out (suc room) h l,
  query_limited q es (out ++ e ∷ []) room h,
  length-append out (e ∷ []),
  append_assoc out (e ∷ []) (take (suc room) (keep (selects q) es)),
)

-- The answer is every event that the user and the action select, newest first, cut to the limit.
pub query_memory_lem :
    (l : Log) (q : Query) → query_memory l q ≡ limited q.limit (keep (selects q) (reverse l.events))
unfolding query_memory
query_memory_lem l q = elim (Bool-cases (is_positive q.limit)) [
  | inl h ↦
      let at_least_one : pos_part q.limit ≡ suc (pos_part q.limit - 1) = ground arith in
      rw (h, at_least_one)
        (query_limited q (reverse l.events) [] (pos_part q.limit - 1) h (ground arith))
  | inr h ↦ rw h (query_unlimited q (reverse l.events) [] h)
]

-- An event that a query for a user selects is this user's.
pub selects_own :
    (q : Query) (e : Event) → not_empty q.user ≡ true → selects q e ≡ true → e.user ≡ q.user
unfolding selects
selects_own q e h s = ground (arith, eq_iff e.user q.user)

-- ===== src/Store/Tests.antt =====
-- Runs of internal/audit/store.go, and the theorems at concrete inputs.
use webridge.Prelude.{◌≡◌, refl, true, false, List, [], ◌∷◌, ◌++◌}
use webridge.Prelude.{Text, text, not_empty, ℤ, pos, negsuc}
use webridge.Audit.{Query}
use webridge.Store.Sql.{filter_clause, query_statement, count_statement, purge, text_arg}
use webridge.Store.Sql.Binding.{IsBound, statements_lem}
use webridge.Samples.{event}
use webridge.Store.{Store, Answers, enqueue, receive}
use webridge.Store.Flow.{
  Step, sent, received, ticked, run, accepted, contents, IsReliable, contents-run,
}

abbrev fine : Answers
fine = record { begins = true; prepares = true; commits = true; inserts = λ e. true }

abbrev broken : Answers
broken = record { begins = true; prepares = true; commits = false; inserts = λ e. true }

abbrev empty : Store
empty = record { ch = []; batch = []; rows = [] }

abbrev steps : List Step
steps = sent (event 1) ∷ sent (event 2) ∷ received fine ∷ ticked fine ∷ sent (event 3) ∷ []

fine-IsReliable : IsReliable fine
fine-IsReliable = record { begins = refl; prepares = refl; commits = refl; inserts = λ e. refl }

contents-run_example : contents (run empty steps) ≡ contents empty ++ accepted empty steps
contents-run_example = contents-run empty steps (fine-IsReliable, (fine-IsReliable, tt))

first_row : (receive fine (enqueue (enqueue empty (event 1)) (event 2))).batch ≡ event 1 ∷ []
unfolding enqueue receive
first_row = refl

abbrev waiting : Store
waiting = record { ch = event 2 ∷ []; batch = event 1 ∷ []; rows = [] }

abbrev by_name : Text → Query
by_name user = record {
  user = user;
  action = [];
  limit = pos 0;
  offset = negsuc 4;
  from_ms = pos 0;
  to_ms = pos 7;
}

abbrev stamp : ℤ → Text
stamp ms = text "1970-01-01T00:00:00Z"

statements_lem_example :
    IsBound (query_statement stamp (by_name (text "bob")))
    × IsBound (count_statement stamp (by_name (text "bob")))
    × ((query_statement stamp (by_name (text "bob"))).sql
        ≡ (query_statement stamp (by_name (text "' OR 1=1 --"))).sql)
    × ((count_statement stamp (by_name (text "bob"))).sql
        ≡ (count_statement stamp (by_name (text "' OR 1=1 --"))).sql)
unfolding not_empty text
statements_lem_example =
    statements_lem stamp (by_name (text "bob")) (by_name (text "' OR 1=1 --"))
      (refl, refl, refl, refl)

-- The name is looked for inside the stored names.
user_like :
    (filter_clause stamp (by_name (text "bob"))).args
    ≡ text_arg (text "%bob%") ∷ text_arg (text "1970-01-01T00:00:00Z") ∷ []
unfolding filter_clause not_empty text
user_like = refl

no_purge : purge (λ days. []) (λ s. true) (pos 0) ≡ []
unfolding purge
no_purge = refl

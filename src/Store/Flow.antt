-- ===== src/Store/Flow.antt =====
-- The way of an event through internal/audit/store.go: channel, batch, table.
use mathlib.Core.List.{append_assoc, append-nil}
use webridge.Prelude.{
  ◌≤◌, ◌<◌, ◌≡◌, refl, ap, sym, ◌∙◌, Bool, true, List, [], ◌∷◌, ◌++◌, length, length-append, keep,
  ltb, if◌then◌else◌, arith,
}
use webridge.Event.{Event}
use webridge.Store.{
  Store, Answers, capacity, batch_size, enqueue, drain, receive, receive_from, tick,
}

-- The steps of the senders and of the flusher.
pub data Step : Type 0 where
  sent : Event → Step
  received ticked : Answers → Step

pub after : Step → Store → Store
after (sent e) s = enqueue s e
after (received db) s = receive db s
after (ticked db) s = tick db s

pub run : Store → List Step → Store
run s [] = s
run s (st ∷ steps) = run (after st s) steps

-- The events that found room in the channel.
pub accepted : Store → List Step → List Event
accepted s [] = []
accepted s (sent e ∷ steps) =
    if ltb (length s.ch) capacity
    then e ∷ accepted (enqueue s e) steps
    else accepted (enqueue s e) steps
accepted s (st ∷ steps) = accepted (after st s) steps

-- The database answers without an error.
pub record IsReliable (db : Answers) : Type 0 where
  pub begins : db.begins ≡ true
  pub prepares : db.prepares ≡ true
  pub commits : db.commits ≡ true
  pub inserts : (e : Event) → db.inserts e ≡ true

abbrev pub AllReliable : List Step → Type 0
AllReliable [] = Unit
AllReliable (sent e ∷ steps) = AllReliable steps
AllReliable (received db ∷ steps) = IsReliable db × AllReliable steps
AllReliable (ticked db ∷ steps) = IsReliable db × AllReliable steps

-- Everything that the store holds, oldest first.
abbrev pub contents : Store → List Event
contents s = s.rows ++ (s.batch ++ s.ch)

keep_all : (p : Event → Bool) (es : List Event) → ((e : Event) → p e ≡ true) → keep p es ≡ es
keep_all p [] h = refl
keep_all p (e ∷ es) h = rw (h e) (ap (◌∷◌ e) (keep_all p es h))

drain_of_reliable :
    (db : Answers) (es rows : List Event) → IsReliable db → drain db es rows ≡ rows ++ es
unfolding drain
drain_of_reliable db [] rows r = sym (append-nil rows)
drain_of_reliable db (e ∷ es) rows r =
    ground (arith, r.begins, r.prepares, r.commits, keep_all db.inserts (e ∷ es) r.inserts)

contents-enqueue :
    (s : Store) (e : Event)
    → contents (enqueue s e)
      ≡ (if ltb (length s.ch) capacity then contents s ++ e ∷ [] else contents s)
unfolding enqueue
contents-enqueue s e =
    ground
      (arith, append_assoc s.batch s.ch (e ∷ []), append_assoc s.rows (s.batch ++ s.ch) (e ∷ []))

contents-receive_from :
    (db : Answers) (s : Store) (es : List Event)
    → IsReliable db
    → s.ch ≡ es
    → contents (receive_from db s es) ≡ contents s
unfolding receive_from
contents-receive_from db s [] r h = refl
contents-receive_from db s (e ∷ es) r h = ground (
  arith,
  drain_of_reliable db (s.batch ++ e ∷ []) s.rows r,
  append-nil (s.batch ++ e ∷ []),
  append_assoc s.batch (e ∷ []) es,
  append_assoc s.rows (s.batch ++ e ∷ []) es,
)

contents-tick : (db : Answers) (s : Store) → IsReliable db → contents (tick db s) ≡ contents s
unfolding tick
contents-tick db s r =
    ground (arith, drain_of_reliable db s.batch s.rows r, append_assoc s.rows s.batch s.ch)

-- With a database that makes no error, the rows, the batch and the channel together hold what they
-- held, followed by exactly the events that found room, in the order in which they were sent.
pub contents-run :
    (s : Store) (steps : List Step)
    → AllReliable steps
    → contents (run s steps) ≡ contents s ++ accepted s steps
unfolding run after accepted receive
contents-run s [] h = sym (append-nil _)
contents-run s (sent e ∷ steps) h = ground (
  arith,
  contents-run (enqueue s e) steps h,
  contents-enqueue s e,
  append_assoc (contents s) (e ∷ []) (accepted (enqueue s e) steps),
)
contents-run s (received db ∷ steps) (r, h) =
    contents-run (receive db s) steps h
    ∙ ap (λ c. c ++ accepted (receive db s) steps) (contents-receive_from db s s.ch r refl)
contents-run s (ticked db ∷ steps) (r, h) =
    contents-run (tick db s) steps h
    ∙ ap (λ c. c ++ accepted (tick db s) steps) (contents-tick db s r)

-- The bounds of the channel and of the batch.
pub record IsBounded (s : Store) : Type 0 where
  pub channel : length s.ch ≤ capacity
  pub below : length s.batch < batch_size

receive_from-IsBounded :
    (db : Answers) (s : Store) (es : List Event)
    → length es ≤ capacity
    → IsBounded s
    → IsBounded (receive_from db s es)
unfolding receive_from
receive_from-IsBounded db s [] l h = h
receive_from-IsBounded db s (e ∷ es) l h = ground (arith, h.below)

after-IsBounded : (st : Step) (s : Store) → IsBounded s → IsBounded (after st s)
unfolding after enqueue receive tick
after-IsBounded (sent e) s h = ground (arith, length-append s.ch (e ∷ []))
after-IsBounded (received db) s h = receive_from-IsBounded db s s.ch h.channel h
after-IsBounded (ticked db) s h = ground arith

-- Whatever the steps and the database's answers, the channel and the batch stay within their bounds.
pub run-IsBounded : (s : Store) (steps : List Step) → IsBounded s → IsBounded (run s steps)
unfolding run
run-IsBounded s [] h = h
run-IsBounded s (st ∷ steps) h = run-IsBounded (after st s) steps (after-IsBounded st s h)

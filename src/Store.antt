-- ===== src/Store.antt =====
-- internal/audit/store.go: the events that wait in the channel, the flusher's batch, and the rows
-- of the table. SQLite is not modelled: what it answers in one transaction is an argument. The
-- channel's sender, the flusher's `select` and its ticker interleave as a sequence of steps.
pub mod Flow
pub mod Rows
pub mod Schema
pub mod Sql
pub mod Shutdown
mod Tests
mod RowTests
use webridge.Prelude.{
  ℕ, Bool, true, false, ◌&&◌, List, [], ◌∷◌, ◌++◌, length, keep, ltb, leb, if◌then◌else◌,
}
use webridge.Event.{Event}

-- `make(chan Event, 10000)`, and the size at which a batch is written
abbrev pub capacity : ℕ
capacity = 10000

abbrev pub batch_size : ℕ
batch_size = 500

pub record Store : Type 0 where
  pub ch : List Event
  pub batch : List Event
  pub rows : List Event

-- What the database answers in one call of `drain`: whether the transaction begins, the statement is
-- prepared and the commit succeeds, and for each event whether its insert does.
pub record Answers : Type 0 where
  pub begins : Bool
  pub prepares : Bool
  pub commits : Bool
  pub inserts : Event → Bool

-- A full channel drops the event.
unfoldable pub enqueue : Store → Event → Store
enqueue s e = if ltb (length s.ch) capacity then record s { ch = s.ch ++ e ∷ [] } else s

-- An error of an insert is not looked at, and any other error drops the whole batch.
unfoldable pub drain : Answers → List Event → List Event → List Event
drain db [] rows = rows
drain db (e ∷ es) rows =
    if db.begins && (db.prepares && db.commits) then rows ++ keep db.inserts (e ∷ es) else rows

-- The case `e, ok := <-s.ch` with an event in the channel.
receive_from : Answers → Store → List Event → Store
receive_from db s [] = s
receive_from db s (e ∷ es) =
    let batch = s.batch ++ e ∷ [] in
    if leb batch_size (length batch)
    then record { ch = es; batch = []; rows = drain db batch s.rows }
    else record { ch = es; batch = batch; rows = s.rows }

unfoldable pub receive : Answers → Store → Store
unfolding receive_from
receive db s = receive_from db s s.ch

-- The case `<-ticker.C`; `drain` of an empty batch does nothing.
unfoldable pub tick : Answers → Store → Store
tick db s = record s { batch = []; rows = drain db s.batch s.rows }

-- `Close`: the channel is closed, the flusher receives what is left in it, and returns when it is
-- empty. `ticks` says whether the ticker is served before each event that is left, and then before
-- the return.
close_from : Answers → List Event → List Bool → Store → Store
close_from db [] [] s = s
close_from db [] (t ∷ ticks) s = if t then tick db s else s
close_from db (e ∷ es) [] s = close_from db es [] (receive db s)
close_from db (e ∷ es) (t ∷ ticks) s =
    close_from db es ticks (receive db (if t then tick db s else s))

unfoldable pub close : Answers → List Bool → Store → Store
unfolding close_from receive tick
close db ticks s = close_from db s.ch ticks s

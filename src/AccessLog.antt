-- ===== src/AccessLog.antt =====
-- The access log of internal/middleware/accesslog.go: the channel of entries, and the file of the day.
-- `json.Marshal`, and whether the day's file opens, are parameters; the logger's lines are not modelled.
pub mod Rotation
pub mod Requests
mod Tests
use webridge.Prelude.{
  ℕ, Bool, true, false, ◌||◌, not, Option, none, some, List, [], ◌∷◌, ◌++◌, length, ltb,
  if◌then◌else◌, Text, text, ◌==◌,
}
use webridge.Prelude.Table.{Table, lookup, insert}

pub record Entry : Type 0 where
  pub time : Text
  pub method : Text
  pub path : Text
  pub status : ℕ
  pub duration_ms : ℕ
  pub ip : Text
  pub user_agent : Text

-- A file of the log that is set; it may be closed.
pub record Handle : Type 0 where
  pub name : Text
  pub is_open : Bool

-- `ch` is `none` before the first entry.
pub record Writer : Type 0 where
  pub ch : Option (List Entry)
  pub date : Text
  pub file : Option Handle

-- `write`: a full channel drops the entry.
unfoldable pub write : Writer → Entry → Writer
write w e =
    let waiting : List Entry = elim w.ch [ none ↦ [] | some es ↦ es ] in
    record w { ch = some (if ltb (length waiting) 10000 then waiting ++ e ∷ [] else waiting) }

abbrev pub file_name : Text → Text
file_name today = text "access-" ++ (today ++ text ".jsonl")

-- What a file has; a file that is not there has nothing.
unfoldable pub contents : Text → Table Text → Text
contents name disk = elim (lookup name disk) [ none ↦ [] | some s ↦ s ]

-- `w.file.Write`; on a closed file it fails, and its error is not looked at.
append : Option Handle → Option Text → Table Text → Table Text
append none line disk = disk
append (some h) none disk = disk
append (some h) (some line) disk =
    if h.is_open then insert h.name (contents h.name disk ++ (line ++ b'\n' ∷ [])) disk else disk

-- The handle after `Close`.
closed : Option Handle → Option Handle
closed none = none
closed (some h) = some (record h { is_open = false })

is_set : Option Handle → Bool
is_set none = false
is_set (some h) = true

module _ (marshal : Entry → Option Text) where
  -- `writeLine`; `opens`: whether `os.OpenFile` succeeds, which creates the file.
  unfoldable pub write_line : Text → Bool → Writer × Table Text → Entry → Writer × Table Text
  unfolding append closed is_set
  write_line today opens (w, disk) e =
      if not (w.date == today) || not (is_set w.file)
      then (if opens
          then (
            record w {
              date = today;
              file = some (record { name = file_name today; is_open = true });
            },
            append (some (record { name = file_name today; is_open = true })) (marshal e) disk,
          )
          else (record w { file = closed w.file }, disk))
      else (w, append w.file (marshal e) disk)

  -- The flusher: entries with the day of each, and whether the file opens.
  unfoldable pub flush : List (Text × Bool × Entry) → Writer × Table Text → Writer × Table Text
  flush [] s = s
  flush ((today, opens, e) ∷ es) s = flush es (write_line today opens s e)

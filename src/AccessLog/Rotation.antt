-- ===== src/AccessLog/Rotation.antt =====
-- Which file an entry is written to.
use mathlib.Core.List.{append_assoc, append-nil}
use webridge.Prelude.{
  Bool, true, false, ◌||◌, not, Option, none, some, List, [], ◌∷◌, ◌++◌, if◌then◌else◌, Text, ◌==◌,
  eq_iff, ◌≡◌, refl, ap, ◌∙◌, sym, arith, Bool-cases, ◌⊎◌, inl, inr,
}
use webridge.Prelude.Table.{Table, insert, lookup-insert}
use webridge.AccessLog.{Entry, Writer, file_name, contents, append, is_set, write_line, flush}

-- A file that is set is the open file of its day.
unfoldable pub IsTidy : Writer → Type 0
IsTidy w = (w.file ≡ none) ⊎ (w.file ≡ some (record { name = file_name w.date; is_open = true }))

unfoldable pub line_of : Option Text → Text
line_of none = []
line_of (some line) = line ++ (b'\n' ∷ [])

-- What the entries of one file add to it.
unfoldable pub lines : (Entry → Option Text) → Text → List (Text × Bool × Entry) → Text
lines marshal name [] = []
lines marshal name ((today, opens, e) ∷ es) =
    (if file_name today == name then line_of (marshal e) else []) ++ lines marshal name es

-- Each file opens.
unfoldable pub AllOpen : List (Text × Bool × Entry) → Type 0
AllOpen [] = Unit
AllOpen ((today, opens, e) ∷ es) = (opens ≡ true) × AllOpen es

module _ (marshal : Entry → Option Text) where
  contents-insert :
      (name key s : Text) (disk : Table Text)
      → contents name (insert key s disk) ≡ (if key == name then s else contents name disk)
  unfolding contents
  contents-insert name key s disk = ground (arith, lookup-insert key name s disk)

  contents-append :
      (name today : Text) (line : Option Text) (disk : Table Text)
      → contents name (append (some (record { name = file_name today; is_open = true })) line disk)
        ≡ contents name disk ++ (if file_name today == name then line_of line else [])
  unfolding append line_of
  contents-append name today none disk = ground (arith, append-nil (contents name disk))
  contents-append name today (some line) disk = elim (Bool-cases (file_name today == name)) [
    | inl c ↦
        let same : file_name today ≡ name = (eq_iff (file_name today) name).0 c in
        rw
          (contents-insert name (file_name today)
            (contents (file_name today) disk ++ (line ++ b'\n' ∷ [])) disk)
          (rw c (ap (λ x. contents x disk ++ (line ++ b'\n' ∷ [])) same))
    | inr c ↦
        rw
          (contents-insert name (file_name today)
            (contents (file_name today) disk ++ (line ++ b'\n' ∷ [])) disk)
          (rw c (sym (append-nil (contents name disk))))
  ]

  -- The file of the day stays.
  stays :
      (today : Text) (w : Writer)
      → IsTidy w
      → (not (w.date == today) || not (is_set w.file)) ≡ false
      → w.file ≡ some (record { name = file_name today; is_open = true })
  unfolding IsTidy is_set
  stays today w (inl f) c = ground (arith, f, c)
  stays today w (inr f) c =
      let same : w.date ≡ today = (eq_iff w.date today).0 (ground (arith, c)) in
      f ∙ ap (λ d. some (record { name = file_name d; is_open = true })) same

  write_line_lem :
      (today name : Text) (w : Writer) (disk : Table Text) (e : Entry)
      → IsTidy w
      → IsTidy (write_line marshal today true (w, disk) e).0
        × (contents name (write_line marshal today true (w, disk) e).1
            ≡ contents name disk ++ (if file_name today == name then line_of (marshal e) else []))
  unfolding write_line IsTidy
  write_line_lem today name w disk e h =
      elim (Bool-cases (not (w.date == today) || not (is_set w.file))) [
        | inl c ↦ rw (write_line, c) (inr refl, contents-append name today (marshal e) disk)
        | inr c ↦
            rw (write_line, c)
              (
                h,
                ap (λ f. contents name (append f (marshal e) disk)) (stays today w h c)
                    ∙ contents-append name today (marshal e) disk,
              )
      ]

  -- Where each day's file opens, from a log whose file is the open file of its day: every file ends up
  -- with what it had, followed by the lines of the entries of its day, in their order; the log's file is
  -- the open file of its day again.
  pub flush_lem :
      (es : List (Text × Bool × Entry)) (name : Text) (w : Writer) (disk : Table Text)
      → IsTidy w
      → AllOpen es
      → IsTidy (flush marshal es (w, disk)).0
        × (contents name (flush marshal es (w, disk)).1
            ≡ contents name disk ++ lines marshal name es)
  unfolding flush AllOpen lines
  flush_lem [] name w disk h o = (h, sym (append-nil (contents name disk)))
  flush_lem ((today, opens, e) ∷ es) name w disk h (o, os) =
      let after = write_line marshal today true (w, disk) e in
      let line : Text = if file_name today == name then line_of (marshal e) else [] in
      let (tidy, here) = write_line_lem today name w disk e h in
      let (last, later) = flush_lem es name after.0 after.1 tidy os in
      rw o (
        last,
        later
            ∙ ap (λ x. x ++ lines marshal name es) here
            ∙ append_assoc (contents name disk) line (lines marshal name es),
      )

-- ===== src/Audit/Retention.antt =====
-- The bounded buffer and the counters of internal/audit/audit.go.
use webridge.Prelude.{
  ℕ, zero, suc, ◌+◌, ◌-◌, ◌≤◌, ◌≡◌, refl, ap, sym, ◌∙◌, List, [], ◌∷◌, ◌++◌, map, length,
  length-append, length-drop, drop, arith, if◌then◌else◌, Text, text, ◌==◌,
}
use mathlib.Core.List.{append_assoc, append-nil}
use webridge.Event.{Event}
use webridge.Audit.{Log, add_event, stamp, trim}

-- `AddEvent` of each event of a sequence, with the clock's reading.
pub add_all : Log → List (ℕ × Event) → Log
add_all l [] = l
add_all l ((now, e) ∷ es) = add_all (add_event now l e) es

abbrev pub stamped : List (ℕ × Event) → List Event
stamped = map (λ p. stamp p.0 p.1)

-- How many events have the action.
abbrev pub count_action : Text → List (ℕ × Event) → ℕ
count_action a [] = 0
count_action a ((now, e) ∷ es) = (if e.action == a then 1 else 0) + count_action a es

abbrev pub newest : ℕ → List Event → List Event
newest max es = drop (length es - max) es

drop-append : (n : ℕ) (xs ys : List Event) → n ≤ length xs → drop n (xs ++ ys) ≡ drop n xs ++ ys
drop-append zero xs ys h = refl
drop-append (suc n) [] ys h = absurd (omega arith)
drop-append (suc n) (x ∷ xs) ys h = drop-append n xs ys (omega arith)

drop-nil : (n : ℕ) → drop {A = Event} n [] ≡ []
drop-nil zero = refl
drop-nil (suc n) = refl

drop-drop : (m n k : ℕ) (xs : List Event) → n + m ≡ k → drop m (drop n xs) ≡ drop k xs
drop-drop m zero k xs h = ap (λ i. drop i xs) (omega arith)
drop-drop m (suc n) k [] h = drop-nil m ∙ sym (drop-nil k)
drop-drop m (suc n) zero (x ∷ xs) h = absurd (omega arith)
drop-drop m (suc n) (suc k) (x ∷ xs) h = drop-drop m n k xs (omega arith)

newest_of_le : (max : ℕ) (es : List Event) → length es ≤ max → newest max es ≡ es
newest_of_le max es h =
    let none_over : length es - max ≡ 0 = omega arith in ap (λ i. drop i es) none_over

trim-newest : (max : ℕ) (es : List Event) → trim max es ≡ newest max es
unfolding trim
trim-newest max es = ground (arith, newest_of_le max es)

newest-append :
    (max : ℕ) (es rest : List Event) → newest max (newest max es ++ rest) ≡ newest max (es ++ rest)
newest-append max es rest = rw (← drop-append (length es - max) es rest (omega arith)) (
    drop-drop _ (length es - max) (length (es ++ rest) - max) (es ++ rest)
      (omega (arith, length-drop (length es - max) (es ++ rest), length-append es rest)))

length-trim : (max : ℕ) (es : List Event) → length (trim max es) ≤ max
length-trim max es = rw (trim-newest max es) (omega (arith, length-drop (length es - max) es))

-- From a log within its bound, after any sequence of events: the buffer holds the last `max` of all
-- events, in order, and the two counters have grown by the events with their action.
pub add_all_lem :
    (l : Log) (es : List (ℕ × Event))
    → length l.events ≤ l.max
    → ((add_all l es).events ≡ newest l.max (l.events ++ stamped es))
      × ((add_all l es).logins ≡ l.logins + count_action (text "login_success") es)
      × ((add_all l es).login_fails ≡ l.login_fails + count_action (text "login_failed") es)
unfolding add_all add_event
add_all_lem l [] h = (rw append-nil (sym (newest_of_le l.max l.events h)), omega arith, omega arith)
add_all_lem l ((now, e) ∷ es) h =
    let ih =
      add_all_lem (add_event now l e) es (length-trim l.max (l.events ++ stamp now e ∷ [])) in
    (
      ih.0
          ∙ ap (λ b. newest l.max (b ++ stamped es))
              (trim-newest l.max (l.events ++ stamp now e ∷ []))
          ∙ newest-append l.max (l.events ++ stamp now e ∷ []) (stamped es)
          ∙ ap (newest l.max) (append_assoc l.events (stamp now e ∷ []) (stamped es)),
      ground (arith, ih.1),
      ground (arith, ih.2),
    )

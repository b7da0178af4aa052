-- ===== src/Store/Shutdown.antt =====
-- What `Close` of internal/audit/store.go leaves unwritten.
use mathlib.Core.List.{append_assoc, append-nil}
use webridge.Prelude.{
  ◌+◌, ◌<◌, ◌≡◌, refl, ap, ◌∙◌, List, [], ◌∷◌, ◌++◌, length, length-append, arith,
}
use webridge.Event.{Event}
use webridge.Store.{Store, Answers, batch_size, receive, receive_from, close, close_from}

receive-cons :
    (db : Answers) (s : Store) (e : Event) (es : List Event)
    → s.ch ≡ e ∷ es
    → length s.batch + 1 < batch_size
    → receive db s ≡ record s { ch = es; batch = s.batch ++ e ∷ [] }
unfolding receive
receive-cons db s e es p l = rw (p, receive_from) (ground (arith, length-append s.batch (e ∷ [])))

close_from_few :
    (db : Answers) (es : List Event) (s : Store)
    → s.ch ≡ es
    → length s.batch + length es < batch_size
    → close_from db es [] s ≡ record s { ch = []; batch = s.batch ++ es }
unfolding close_from
close_from_few db [] s p l = ground (arith, append-nil s.batch)
close_from_few db (e ∷ es) s p l =
    let s' : Store = record s { ch = es; batch = s.batch ++ e ∷ [] } in
    rw (receive-cons db s e es p (omega arith)) (
      close_from_few db es s' refl (omega (arith, length-append s.batch (e ∷ [])))
      ∙ ap (λ b. record s { ch = []; batch = b }) (append_assoc s.batch (e ∷ []) es))

-- Fewer events than a batch are waiting, and the ticker is not served any more: after `Close` the
-- table has the rows that it had, and every waiting event is left in the flusher's batch.
pub close_loses :
    (db : Answers) (s : Store)
    → length s.batch + length s.ch < batch_size
    → close db [] s ≡ record s { ch = []; batch = s.batch ++ s.ch }
unfolding close
close_loses db s l = close_from_few db s.ch s refl l

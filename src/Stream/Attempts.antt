-- ===== src/Stream/Attempts.antt =====
-- The loop over the attempts.
use webridge.Prelude.{
  ℕ, zero, suc, ◌+◌, ◌-◌, ◌*◌, ◌^◌, ◌≤◌, ◌<◌, Bool, true, false, Option, none, some, ◌++◌, eqb,
  Text, text, ◌≡◌, refl, ap, ◌∙◌, arith, Option-cases, ◌⊎◌, inl, inr,
}
use webridge.Stream.{
  Answer, Attempt, not_made, not_sent, answered, Writer, Streamed, max_retries, base_backoff, pass,
  stop, stream,
}
use webridge.Strings.{contains, has_prefix, to_lower, lower_byte}
use webridge.Transfer.{is_upstream_error}

attempt_cases :
    (a : Attempt)
    → ((e : Text) × (a ≡ not_made e))
      ⊎ (((e : Text) × (a ≡ not_sent e)) ⊎ ((b : Answer) × (a ≡ answered b)))
attempt_cases (not_made e) = inl (e, refl)
attempt_cases (not_sent e) = inr (inl (e, refl))
attempt_cases (answered b) = inr (inr (b, refl))

says_failed :
    (e : Text)
    → contains (to_lower (text "upstream failed after 3 retries: " ++ e)) (text "upstream failed")
      ≡ true
unfolding contains has_prefix to_lower lower_byte text
says_failed e = refl

retries_upstream :
    (e : Text) → is_upstream_error (text "upstream failed after 3 retries: " ++ e) ≡ true
unfolding is_upstream_error
retries_upstream e = ground (arith, says_failed e)

-- Four requests and twelve seconds.
abbrev pub IsShort : Streamed → Type 0
IsShort r = (r.requests ≤ 4) × (r.waited ≤ 12 * 10 ^ 9)

abbrev pub Ends : Option Streamed → Type 0
Ends o = (r : Streamed) × (o ≡ some r) × IsShort r

module _ (canonical : Text → Text) (upstream : ℕ → Attempt) (cancelled : ℕ → Option Text)
    (w : Writer) where
  go_on :
      (fuel attempt waited : ℕ) (e : Text)
      → upstream attempt ≡ not_sent e
      → cancelled attempt ≡ none
      → attempt < 3
      → stream canonical upstream cancelled w (suc fuel) attempt waited
        ≡ stream canonical upstream cancelled w fuel
            (suc attempt)
            (waited + base_backoff * suc attempt)
  unfolding stream
  go_on fuel attempt waited e u c h = rw (stream, u, not_last, c) refl
    where
      not_last : eqb attempt max_retries ≡ false
      not_last = ground arith

  after_failure :
      (fuel attempt waited : ℕ) (e : Text)
      → upstream attempt ≡ not_sent e
      → attempt < 3
      → waited ≤ 12 * 10 ^ 9
      → Ends (
          stream canonical upstream cancelled w fuel
            (suc attempt)
            (waited + base_backoff * suc attempt))
      → Ends (stream canonical upstream cancelled w (suc fuel) attempt waited)
  unfolding stream stop
  after_failure fuel attempt waited e u h t rest = elim (Option-cases (cancelled attempt)) [
    | inl c ↦ (rest.0, go_on fuel attempt waited e u c h ∙ rest.1, rest.2)
    | inr (reason, c) ↦ (
      stop canonical upstream cancelled w (suc attempt) waited reason,
      rw (stream, u, not_last, c) refl,
      (omega arith, omega arith),
    )
  ]
    where
      not_last : eqb attempt max_retries ≡ false
      not_last = ground arith

  one_more :
      (fuel attempt waited : ℕ)
      → attempt < 3
      → waited ≤ 12 * 10 ^ 9
      → Ends (
          stream canonical upstream cancelled w fuel
            (suc attempt)
            (waited + base_backoff * suc attempt))
      → Ends (stream canonical upstream cancelled w (suc fuel) attempt waited)
  unfolding stream stop pass
  one_more fuel attempt waited h t rest = elim (attempt_cases (upstream attempt)) [
    | inl (e, u) ↦ (
      stop canonical upstream cancelled w attempt waited e,
      rw (stream, u) refl,
      (omega arith, omega arith),
    )
    | inr (inl (e, u)) ↦ after_failure fuel attempt waited e u h t rest
    | inr (inr (a, u)) ↦ (
      pass canonical upstream cancelled w (suc attempt) waited a,
      rw (stream, u) refl,
      (omega arith, omega arith),
    )
  ]

  last_one : Ends (stream canonical upstream cancelled w 1 3 (12 * 10 ^ 9))
  unfolding stream stop pass
  last_one = elim (attempt_cases (upstream 3)) [
    | inl (e, u) ↦ (
      stop canonical upstream cancelled w 3 (12 * 10 ^ 9) e,
      rw (stream, u) refl,
      (omega arith, omega arith),
    )
    | inr (inl (e, u)) ↦ (
      stop canonical upstream cancelled w 4 (12 * 10 ^ 9)
          (text "upstream failed after 3 retries: " ++ e),
      rw (stream, u) refl,
      (omega arith, omega arith),
    )
    | inr (inr (a, u)) ↦ (
      pass canonical upstream cancelled w 4 (12 * 10 ^ 9) a,
      rw (stream, u) refl,
      (omega arith, omega arith),
    )
  ]

  -- `Stream` returns, whatever the upstream answers and whenever the request ends: after four requests
  -- at most, and at most twelve seconds of waiting between them.
  pub stream-Ends : Ends (stream canonical upstream cancelled w 4 0 0)
  stream-Ends = one_more 3 0 0 (omega arith) (omega arith) (
      one_more 2 1 (2 * 10 ^ 9) (omega arith) (omega arith)
        (one_more 1 2 (6 * 10 ^ 9) (omega arith) (omega arith) last_one))

  -- The attempts below `last` fail, and the request does not end in the waits after them.
  abbrev pub Fails : ℕ → Type 0
  Fails last = (i : ℕ) → i < last → ((e : Text) × (upstream i ≡ not_sent e)) × (cancelled i ≡ none)

  after_fails :
      (k attempt waited total fuel last : ℕ)
      → total ≡ k + fuel
      → last ≡ attempt + k
      → last ≤ 3
      → Fails last
      → (t : ℕ) × (stream canonical upstream cancelled w total attempt waited
          ≡ stream canonical upstream cancelled w fuel last t)
  after_fails zero attempt waited total fuel last h l b f = (
    waited,
    ap (λ x. stream canonical upstream cancelled w x attempt waited) (omega (arith, h))
        ∙ ap (λ x. stream canonical upstream cancelled w fuel x waited) (omega (arith, l)),
  )
  after_fails (suc k) attempt waited total fuel last h l b f =
      let ((e, u), c) = f attempt (omega arith) in
      let (t, same) =
        after_fails k (suc attempt) (waited + base_backoff * suc attempt) (k + fuel) fuel last refl
          (omega arith) b f in
      (
        t,
        ap (λ x. stream canonical upstream cancelled w x attempt waited) (omega arith)
            ∙ go_on (k + fuel) attempt waited e u c (omega arith)
            ∙ same,
      )

  answer_now :
      (fuel attempt waited : ℕ) (a : Answer)
      → upstream attempt ≡ answered a
      → stream canonical upstream cancelled w (suc fuel) attempt waited
        ≡ some (pass canonical upstream cancelled w (suc attempt) waited a)
  unfolding stream
  answer_now fuel attempt waited a u = rw (stream, u) refl

  fail_now :
      (waited : ℕ) (e : Text)
      → upstream 3 ≡ not_sent e
      → stream canonical upstream cancelled w 1 3 waited
        ≡ some (
            stop canonical upstream cancelled w 4 waited
              (text "upstream failed after 3 retries: " ++ e))
  unfolding stream
  fail_now waited e u = rw (stream, u) refl

  -- The first of four attempts that is answered decides: where fewer than four attempts fail first, in
  -- whose waits the request does not end, the call passes this answer on.
  pub stream_answers :
      (n : ℕ) (a : Answer)
      → n ≤ 3
      → Fails n
      → upstream n ≡ answered a
      → (t : ℕ) × (stream canonical upstream cancelled w 4 0 0
          ≡ some (pass canonical upstream cancelled w (suc n) t a))
  stream_answers n a h f u =
      let (t, same) = after_fails n 0 0 4 (suc (3 - n)) n (omega arith) (omega arith) h f in
      (t, same ∙ answer_now (3 - n) n t a u)

  -- Where four attempts fail, in whose waits the request does not end, the call returns an error that
  -- counts as the upstream's, and has written no status and no field.
  pub stream_gives_up :
      Fails 4
      → (r : Streamed) × (stream canonical upstream cancelled w 4 0 0 ≡ some r)
        × (r.writer ≡ w)
        × (elim r.err as (λ x. Bool) [ none ↦ false | some e ↦ is_upstream_error e ] ≡ true)
  unfolding stop
  stream_gives_up f =
      let ((e, u), c) = f 3 (omega arith) in
      let (t, same) = after_fails 3 0 0 4 1 3 refl refl (omega arith) (λ i h. f i (omega arith)) in
      (
        stop canonical upstream cancelled w 4 t (text "upstream failed after 3 retries: " ++ e),
        same ∙ fail_now t e u,
        refl,
        retries_upstream e,
      )

-- ===== src/Stream/Headers.antt =====
-- What the answer's header has after the call.
use webridge.Prelude.{
  ℕ, suc, ◌≤◌, Option, some, List, [], ◌∷◌, ◌++◌, map, if◌then◌else◌, Text, text, ◌==◌, eq_iff, ◌≡◌,
  ◌≢◌, refl, ap, ◌∙◌, sym, false_of_ne, arith, Bool-cases, inl, inr,
}
use webridge.Strings.{has}
use webridge.Stream.Attempts.{Fails, stream_answers}
use webridge.Stream.{Answer, Attempt, answered, Writer, Streamed, forwarded, forward, pass, stream}

-- The values of a field, in order.
unfoldable pub values : Text → List (Text × Text) → List Text
values k [] = []
values k ((j, v) ∷ header) = if j == k then v ∷ values k header else values k header

-- The values of a field that is sent, under all of its spellings.
unfoldable pub values_of : (Text → Text) → Text → List (Text × List Text) → List Text
values_of canonical k [] = []
values_of canonical k ((j, vs) ∷ header) =
    if canonical j == k then vs ++ values_of canonical k header else values_of canonical k header

-- The fields that go through: the seven less `ETag`.
abbrev pub passed : List Text
passed =
    text "Content-Type"
    ∷ text "Content-Length"
    ∷ text "Content-Disposition"
    ∷ text "Content-Range"
    ∷ text "Accept-Ranges"
    ∷ text "Last-Modified"
    ∷ []

values-append : (k : Text) (h g : List (Text × Text)) → values k (h ++ g) ≡ values k h ++ values k g
unfolding values
values-append k [] g = refl
values-append k ((j, v) ∷ h) g = ground (arith, values-append k h g)

values-map :
    (k j : Text) (vs : List Text) → values k (map (λ v. (j, v)) vs) ≡ (if j == k then vs else [])
unfolding values
values-map k j [] = ground arith
values-map k j (v ∷ vs) = ground (arith, values-map k j vs)

module _ (canonical : Text → Text) (idem : (k : Text) → canonical (canonical k) ≡ canonical k)
    (etag : canonical (text "ETag") ≡ text "Etag") where
  not_etag : (k : Text) → canonical k ≢ text "ETag"
  unfolding text
  not_etag k h =
      let same : canonical (canonical k) ≡ canonical (text "ETag") = ap canonical h in
      let twice = idem k in ground (arith, h, same, twice, etag)

  -- No key in the canonical form is `ETag`, so the list may leave it out.
  has-forwarded : (k : Text) → has (canonical k) forwarded ≡ has (canonical k) passed
  unfolding has
  has-forwarded k =
      ground (arith, false_of_ne (text "ETag") (canonical k) (λ h. not_etag k (sym h)))

  values-forward :
      (k : Text) (header : List (Text × List Text))
      → values k (forward canonical header)
        ≡ (if has k passed then values_of canonical k header else [])
  unfolding values values_of forward
  values-forward k [] = ground arith
  values-forward k ((j, vs) ∷ header) =
      let key = canonical (canonical j) in
      let fields = values-append k (map (λ v. (key, v)) vs) (forward canonical header) in
      elim (Bool-cases (canonical j == k)) [
        | inl e ↦
            let same : canonical j ≡ k = (eq_iff (canonical j) k).0 e in
            ground (
              arith,
              e,
              fields,
              idem j,
              has-forwarded j,
              values-map k key vs,
              values-forward k header,
              ap (λ x. has x passed) same,
              ap (λ x. x == k) (idem j),
            )
        | inr e ↦ ground (
          arith,
          e,
          fields,
          values-map k key vs,
          values-forward k header,
          ap (λ x. x == k) (idem j),
        )
      ]

  values-pass :
      (upstream : ℕ → Attempt) (cancelled : ℕ → Option Text) (w : Writer) (requests waited : ℕ)
      (a : Answer) (k : Text)
      → values k (pass canonical upstream cancelled w requests waited a).writer.header
        ≡ values k w.header ++ (if has k passed then values_of canonical k a.header else [])
  unfolding pass
  values-pass upstream cancelled w requests waited a k =
      values-append k w.header (forward canonical a.header)
      ∙ ap (λ x. values k w.header ++ x) (values-forward k a.header)

  -- Where `CanonicalHeaderKey` makes ETag to Etag and leaves what it has made: if an attempt is answered
  -- after fewer than four failures, in whose waits the request does not end, the call returns after that
  -- attempt, and each field of the header has the values that the handler gave it, followed by those of the
  -- upstream if it is one of the seven fields but ETag; no other field goes through.
  pub stream_adds :
      (upstream : ℕ → Attempt) (cancelled : ℕ → Option Text) (w : Writer) (n : ℕ) (a : Answer)
      → n ≤ 3
      → Fails canonical upstream cancelled w n
      → upstream n ≡ answered a
      → (r : Streamed) × (stream canonical upstream cancelled w 4 0 0 ≡ some r)
        × (r.requests ≡ suc n)
        × ((k : Text)
            → values k r.writer.header
              ≡ values k w.header ++ (if has k passed then values_of canonical k a.header else []))
  unfolding pass
  stream_adds upstream cancelled w n a h f u =
      let (t, same) = stream_answers canonical upstream cancelled w n a h f u in
      (
        pass canonical upstream cancelled w (suc n) t a,
        same,
        refl,
        values-pass upstream cancelled w (suc n) t a,
      )

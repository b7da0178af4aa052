-- ===== src/Clients/Services/Panics.antt =====
-- `extractFileName` of internal/providers/wetransfer.go reads the path of what `url.Parse` returned
-- without a look at its error.
use webridge.Prelude.{
  ℕ, zero, suc, Bool, true, false, Option, none, some, List, [], ◌∷◌, Text, ◌≡◌, ◌≢◌, refl, arith,
  inl, inr,
}
use webridge.Transfer.{
  Outcome, Result, ok, failed, panicked, ◌>>=◌, Sent, not_made, not_sent, answered, Parsed, parsed,
  Decoded, decoded, undecoded, Web, body_of, decoded_of,
}
use webridge.Clients.WeTransfer
use webridge.Clients.WeTransfer.Redirects.{hop_cases}
use webridge.Clients.SendGb
use webridge.Clients.SendSpace
use webridge.Clients.TransferNow
use webridge.Clients.Wesendit
use webridge.Clients.Services.{
  Client, we_transfer, send_gb, transfer_now, wesendit, send_space, Json, resolve,
}

abbrev Safe : {A : Type 0} → Result A → Type 0
Safe r = r ≢ panicked

bind-Safe :
    {A B : Type 0} (r : Result A) (f : A → Result B)
    → Safe r
    → ((a : A) → r ≡ ok a → Safe (f a))
    → Safe (r >>= f)
bind-Safe (ok a) f h k = k a refl
bind-Safe (failed e) f h k = ground arith
bind-Safe panicked f h k = ground arith

body-Safe : (prefix : Text) (s : Sent) → Safe (body_of prefix s)
unfolding body_of
body-Safe prefix s = ground arith

decoded-Safe : {A : Type 0} (prefix : Text) (d : Decoded A) → Safe (decoded_of prefix d)
unfolding decoded_of
decoded-Safe prefix (decoded a) = ground arith
decoded-Safe prefix (undecoded e) = ground arith

asked :
    {A : Type 0} (one two : Text) (s : Sent) (decode : Text → Decoded A) (a : A)
    → (body_of one s >>= (λ body. decoded_of two (decode body))) ≡ ok a
    → (body : Text) × (decode body ≡ decoded a)
unfolding body_of decoded_of
asked one two (not_made t) decode a e = ground arith
asked one two (not_sent t) decode a e = ground arith
asked one two (answered u body) decode a e = (body, ground arith)

-- A request, its answer and what is made of it.
ask-Safe :
    {A B : Type 0} (one two : Text) (s : Sent) (decode : Text → Decoded A) (f : A → Result B)
    → ((body : Text) (a : A) → decode body ≡ decoded a → Safe (f a))
    → Safe (body_of one s >>= (λ body. decoded_of two (decode body)) >>= f)
ask-Safe one two s decode f h =
    bind-Safe (body_of one s >>= (λ body. decoded_of two (decode body))) f
      (bind-Safe (body_of one s) _ (body-Safe one s) (λ body _. decoded-Safe two (decode body)))
      (λ a e. let (body, same) = asked one two s decode a e in h body a same)

space-Safe : (r : SendSpace.SpaceFile) → Safe (SendSpace.file_info r)
unfolding SendSpace.file_info
space-Safe r = ground arith

now-Safe : (r : TransferNow.NowTransfer) → Safe (TransferNow.transfer_info r)
unfolding TransferNow.transfer_info TransferNow.first_file
now-Safe r = ground arith

it-Safe : (r : Wesendit.ItTransfer) → Safe (Wesendit.transfer_info r)
unfolding Wesendit.transfer_info Wesendit.first_file
it-Safe r = ground arith

gb-Safe : (r : SendGb.GbTransfer) → Safe (SendGb.transfer_info r)
unfolding SendGb.transfer_info SendGb.first_file
gb-Safe r = ground arith

session-Safe : (r : SendGb.GbSession) → Safe (SendGb.session_ok r)
unfolding SendGb.session_ok
session-Safe r = ground arith

segment-Safe : (gs : List SendGb.GbSegment) → Safe (SendGb.segment_url gs)
unfolding SendGb.segment_url
segment-Safe [] = ground arith
segment-Safe (g ∷ gs) = let rest = segment-Safe gs in ground arith

segments-Safe : (b : Bool) (gs : List SendGb.GbSegment) → Safe (SendGb.segments_url b gs)
unfolding SendGb.segments_url
segments-Safe false gs = ground arith
segments-Safe true [] = ground arith
segments-Safe true (g ∷ gs) = segment-Safe (g ∷ gs)

path-Safe : (path : Text) → Safe (WeTransfer.path_ids path)
unfolding WeTransfer.path_ids WeTransfer.path_two WeTransfer.path_three
path-Safe path = ground arith

link-Safe :
    (parse : Text → Parsed) (r : WeTransfer.DirectLink) (host path : Text)
    → parse r.link ≡ parsed host path
    → Safe (WeTransfer.link_info parse r)
unfolding WeTransfer.link_info WeTransfer.extract_file_name
link-Safe parse r host path p = ground arith

hop-Safe :
    (web : Web) (n : ℕ) (url : Text) (r : Result WeTransfer.Ids)
    → WeTransfer.hop web n url ≡ WeTransfer.done r
    → Safe r
unfolding WeTransfer.hop WeTransfer.hop_short WeTransfer.final_url WeTransfer.path_ids
    WeTransfer.path_two WeTransfer.path_three
hop-Safe web n url r h = ground arith

-- The parsers of the clients.
gb_parse-Safe : (parse : Text → Parsed) (url : Text) → Safe (SendGb.parse_url parse url)
unfolding SendGb.parse_url SendGb.code_of
gb_parse-Safe parse url = ground arith

now_parse-Safe : (parse : Text → Parsed) (url : Text) → Safe (TransferNow.parse_url parse url)
unfolding TransferNow.parse_url TransferNow.code_of
now_parse-Safe parse url = ground arith

it_parse-Safe : (parse : Text → Parsed) (url : Text) → Safe (Wesendit.parse_url parse url)
unfolding Wesendit.parse_url Wesendit.code_of
it_parse-Safe parse url = ground arith

space_parse-Safe : (parse : Text → Parsed) (url : Text) → Safe (SendSpace.parse_url parse url)
unfolding SendSpace.parse_url SendSpace.code_of
space_parse-Safe parse url = ground arith

parse-Safe :
    (web : Web) (fuel n : ℕ) (url : Text) (r : Result WeTransfer.Ids) (m : ℕ)
    → WeTransfer.parse_url web fuel n url ≡ some (r, m)
    → Safe r
unfolding WeTransfer.parse_url
parse-Safe web zero n url r m h = ground arith
parse-Safe web (suc fuel) n url r m h = elim (hop_cases (WeTransfer.hop web n url)) [
  | inl (ids, e) ↦
      let same : some (ids, suc n) ≡ some (r, m) = rw e at h in
      hop-Safe web n url r (ground (arith, e, same))
  | inr (t, e) ↦ parse-Safe web fuel (suc n) t r m (rw e at h)
]

after_parse-Safe :
    (web : Web) (decode : Text → Decoded WeTransfer.DirectLink) (password : Text)
    → ((body : Text) (r : WeTransfer.DirectLink)
        → decode body ≡ decoded r
        → (host : Text) × (path : Text) × (web.parse_url r.link ≡ parsed host path))
    → (p : Option (Result WeTransfer.Ids × ℕ))
    → ((r : Result WeTransfer.Ids) (m : ℕ) → p ≡ some (r, m) → Safe r)
    → WeTransfer.after_parse web decode password p ≢ some panicked
unfolding WeTransfer.after_parse WeTransfer.get_direct_link
after_parse-Safe web decode password reads none h = ground arith
after_parse-Safe web decode password reads (some (r, m)) h =
    let safe = bind-Safe r (WeTransfer.get_direct_link web decode password m) (h r m refl) (λ ids _.
      ask-Safe _ _ _ decode (WeTransfer.link_info web.parse_url) (λ body link e.
        let (host, path, p) = reads body link e in link-Safe web.parse_url link host path p)) in
    λ e. safe (ground (arith, e))

some-Safe : (r : Outcome) → Safe r → some r ≢ some panicked
some-Safe r h = ground arith

-- Where `url.Parse` reads the link of every answer of WeTransfer, no client panics, whatever the web
-- answers.
pub resolve_never_panics :
    (client : Client) (web : Web) (json : Json) (fuel : ℕ) (password url : Text)
    → ((body : Text) (r : WeTransfer.DirectLink)
        → json.direct_link body ≡ decoded r
        → (host : Text) × (path : Text) × (web.parse_url r.link ≡ parsed host path))
    → resolve web json fuel password client url ≢ some panicked
unfolding resolve WeTransfer.resolve SendGb.resolve TransferNow.resolve Wesendit.resolve
    SendSpace.resolve SendGb.resolve_code SendGb.get_transfer_info SendGb.get_download_url
    SendGb.get_segments TransferNow.get_transfer_info Wesendit.get_transfer_info
    SendSpace.get_file_info
resolve_never_panics we_transfer web json fuel password url reads =
    after_parse-Safe web json.direct_link password reads (WeTransfer.parse_url web fuel 0 url)
      (parse-Safe web fuel 0 url)
resolve_never_panics send_gb web json fuel password url reads = some-Safe _ (
    bind-Safe _ _ (gb_parse-Safe web.parse_url url) (λ code _.
      bind-Safe _ _ (ask-Safe _ _ _ json.sendgb.decode_transfer _ (λ body t _. gb-Safe t))
        (λ info _.
          bind-Safe _ _
            (bind-Safe _ _
              (ask-Safe _ _ _ json.sendgb.decode_session _ (λ body t _. session-Safe t))
              (λ s _.
                ask-Safe _ _ _ json.sendgb.decode_segments _
                  (λ body t _. segments-Safe t.is_ok t.segments)))
            (λ link _. ground arith))))
resolve_never_panics transfer_now web json fuel password url reads = some-Safe _ (
    bind-Safe _ _ (now_parse-Safe web.parse_url url) (λ code _.
      ask-Safe _ _ _ json.now_transfer TransferNow.transfer_info (λ body t _. now-Safe t)))
resolve_never_panics wesendit web json fuel password url reads = some-Safe _ (
    bind-Safe _ _ (it_parse-Safe web.parse_url url)
      (λ code _. ask-Safe _ _ _ json.it_transfer Wesendit.transfer_info (λ body t _. it-Safe t)))
resolve_never_panics send_space web json fuel password url reads = some-Safe _ (
    bind-Safe _ _ (space_parse-Safe web.parse_url url)
      (λ code _. ask-Safe _ _ _ json.space_file SendSpace.file_info (λ body t _. space-Safe t)))

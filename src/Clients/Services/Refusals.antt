-- ===== src/Clients/Services/Refusals.antt =====
-- How the download handler answers a link that the client of its service does not know.
use webridge.Prelude.{
  ℕ, suc, Bool, true, false, Option, none, some, ◌++◌, Text, text, ◌≡◌, refl, ap, ◌⊎◌, inl, inr,
  arith,
}
use webridge.Strings.{has_prefix, contains, to_lower, lower_byte}
use webridge.Transfer.{
  Failure, Result, ok, failed, panicked, ◌>>=◌, error, is_format_error, Parsed, parsed, unparsed,
  Web,
}
use webridge.Links.{is_wetransfer_short}
use webridge.Download.{failure_reply}
use webridge.World.{reply}
use webridge.Registry.{Provider}
use webridge.Clients.WeTransfer
use webridge.Clients.SendGb
use webridge.Clients.SendSpace
use webridge.Clients.TransferNow
use webridge.Clients.Wesendit
use webridge.Clients.Services.{
  Client, we_transfer, send_gb, transfer_now, wesendit, send_space, Json, resolve, provider_of,
}

failure_of : {A : Type 0} → Result A → Option Failure
failure_of (failed f) = some f
failure_of (ok a) = none
failure_of panicked = none

path_refusal : Parsed → Bool → Option Failure
unfolding failure_of
path_refusal (unparsed e) short = none
path_refusal (parsed host path) true = none
path_refusal (parsed host path) false = failure_of (WeTransfer.path_ids path)

-- The error of the client's `parseURL` for a URL that it refuses without a request.
unfoldable pub refusal : Client → (Text → Parsed) → Text → Option Failure
unfolding failure_of path_refusal
refusal we_transfer parse url = path_refusal (parse url) (is_wetransfer_short url)
refusal send_gb parse url = failure_of (SendGb.parse_url parse url)
refusal transfer_now parse url = failure_of (TransferNow.parse_url parse url)
refusal wesendit parse url = failure_of (Wesendit.parse_url parse url)
refusal send_space parse url = failure_of (SendSpace.parse_url parse url)

-- The two messages.
abbrev IsRefusal : Text → Text → Failure → Type 0
IsRefusal one other f = (f ≡ error one) ⊎ (f ≡ error other)

format_reply :
    (p : Provider) (url message : Text)
    → is_format_error message ≡ true
    → has_prefix url (text "https://we.tl/") ≡ false
    → failure_reply p url (error message)
      ≡ reply 400 (text "Invalid " ++ p.name ++ text " link format.")
unfolding failure_reply
format_reply p url message h w = ground arith

-- What the parser of a client gives for a URL that `url.Parse` reads.
module _ (parse : Text → Parsed) (url host path : Text) (p : parse url ≡ parsed host path)
    (f : Failure) where
  space-IsRefusal :
      failure_of (SendSpace.parse_url parse url) ≡ some f
      → IsRefusal
          (text "domain not allowed: only sendspace.com is supported")
          (text "unsupported SendSpace URL format (expected: sendspace.com/file/XXXX)")
          f
  unfolding SendSpace.parse_url SendSpace.code_of failure_of
  space-IsRefusal h = ground arith

  now-IsRefusal :
      failure_of (TransferNow.parse_url parse url) ≡ some f
      → IsRefusal
          (text "domain not allowed: only transfernow.net is supported")
          (text "unsupported TransferNow URL format")
          f
  unfolding TransferNow.parse_url TransferNow.code_of failure_of
  now-IsRefusal h = ground arith

  it-IsRefusal :
      failure_of (Wesendit.parse_url parse url) ≡ some f
      → IsRefusal
          (text "domain not allowed: only wesendit.com is supported")
          (text "unsupported Wesendit URL format")
          f
  unfolding Wesendit.parse_url Wesendit.code_of failure_of
  it-IsRefusal h = ground arith

  gb-IsRefusal :
      failure_of (SendGb.parse_url parse url) ≡ some f
      → IsRefusal
          (text "domain not allowed: only sendgb.com is supported")
          (text "unsupported SendGB URL format")
          f
  unfolding SendGb.parse_url SendGb.code_of failure_of
  gb-IsRefusal h = ground arith

  we_refusal :
      path_refusal (parse url) (is_wetransfer_short url) ≡ some f
      → (f ≡ error (text "unsupported WeTransfer URL format"))
        × (is_wetransfer_short url ≡ false)
        × (WeTransfer.path_ids path ≡ failed f)
  unfolding WeTransfer.path_ids WeTransfer.path_two WeTransfer.path_three failure_of path_refusal
  we_refusal h = ground arith

  -- Both messages are format errors.
  refusal_reply :
      (q : Provider) (one other : Text)
      → IsRefusal one other f
      → is_format_error one ≡ true
      → is_format_error other ≡ true
      → has_prefix url (text "https://we.tl/") ≡ false
      → failure_reply q url f ≡ reply 400 (text "Invalid " ++ q.name ++ text " link format.")
  refusal_reply q one other (inl e) h k w = rw e (format_reply q url one h w)
  refusal_reply q one other (inr e) h k w = rw e (format_reply q url other k w)

-- The error of the parser is the client's.
refused_then :
    {A B : Type 0} (r : Result A) (g : A → Result B) (f : Failure)
    → failure_of r ≡ some f
    → (r >>= g) ≡ failed f
unfolding failure_of
refused_then r g f h = ground arith

client_reply :
    (client : Client) (parse : Text → Parsed) (url host path : Text)
    → parse url ≡ parsed host path
    → (f : Failure) → has_prefix url (text "https://we.tl/") ≡ false
    → refusal client parse url ≡ some f
    → failure_reply (provider_of client) url f
      ≡ reply 400 (text "Invalid " ++ (provider_of client).name ++ text " link format.")
unfolding refusal
client_reply we_transfer parse url host path p f w h =
    refusal_reply parse url host path p f (provider_of we_transfer) _
      (text "unsupported url format") (inl (we_refusal parse url host path p f h).0)
      (unfold is_format_error contains has_prefix to_lower lower_byte text in refl)
      (unfold is_format_error contains has_prefix to_lower lower_byte text in refl) w
client_reply send_gb parse url host path p f w h =
    refusal_reply parse url host path p f (provider_of send_gb) _ _
      (gb-IsRefusal parse url host path p f h)
      (unfold is_format_error contains has_prefix to_lower lower_byte text in refl)
      (unfold is_format_error contains has_prefix to_lower lower_byte text in refl) w
client_reply transfer_now parse url host path p f w h =
    refusal_reply parse url host path p f (provider_of transfer_now) _ _
      (now-IsRefusal parse url host path p f h)
      (unfold is_format_error contains has_prefix to_lower lower_byte text in refl)
      (unfold is_format_error contains has_prefix to_lower lower_byte text in refl) w
client_reply wesendit parse url host path p f w h =
    refusal_reply parse url host path p f (provider_of wesendit) _ _
      (it-IsRefusal parse url host path p f h)
      (unfold is_format_error contains has_prefix to_lower lower_byte text in refl)
      (unfold is_format_error contains has_prefix to_lower lower_byte text in refl) w
client_reply send_space parse url host path p f w h =
    refusal_reply parse url host path p f (provider_of send_space) _ _
      (space-IsRefusal parse url host path p f h)
      (unfold is_format_error contains has_prefix to_lower lower_byte text in refl)
      (unfold is_format_error contains has_prefix to_lower lower_byte text in refl) w

hop_refused :
    (web : Web) (n : ℕ) (url : Text) (f : Failure)
    → path_refusal (web.parse_url url) (is_wetransfer_short url) ≡ some f
    → WeTransfer.hop web n url ≡ WeTransfer.done (failed f)
unfolding path_refusal failure_of WeTransfer.hop
hop_refused web n url f h = ground arith

we_refused :
    (web : Web) (json : Json) (fuel : ℕ) (password url : Text) (f : Failure)
    → path_refusal (web.parse_url url) (is_wetransfer_short url) ≡ some f
    → WeTransfer.resolve web json.direct_link password (suc fuel) url ≡ some (failed f)
unfolding WeTransfer.resolve WeTransfer.parse_url WeTransfer.after_parse
we_refused web json fuel password url f h =
    ap
      (λ x. WeTransfer.after_parse web json.direct_link password (
        WeTransfer.after_hop x (λ ids. some (ids, 1))
          (λ final. WeTransfer.parse_url web fuel 1 final)))
      (hop_refused web 0 url f h)

resolve_refused :
    (client : Client) (web : Web) (json : Json) (fuel : ℕ) (password url : Text) (f : Failure)
    → refusal client web.parse_url url ≡ some f
    → resolve web json (suc fuel) password client url ≡ some (failed f)
unfolding resolve refusal SendGb.resolve TransferNow.resolve Wesendit.resolve SendSpace.resolve
resolve_refused we_transfer web json fuel password url f h =
    we_refused web json fuel password url f h
resolve_refused send_gb web json fuel password url f h =
    ap some (refused_then (SendGb.parse_url web.parse_url url) _ f h)
resolve_refused transfer_now web json fuel password url f h =
    ap some (refused_then (TransferNow.parse_url web.parse_url url) _ f h)
resolve_refused wesendit web json fuel password url f h =
    ap some (refused_then (Wesendit.parse_url web.parse_url url) _ f h)
resolve_refused send_space web json fuel password url f h =
    ap some (refused_then (SendSpace.parse_url web.parse_url url) _ f h)

-- A URL that `url.Parse` reads, that is no short link of WeTransfer, and that the client's parser
-- refuses: `Resolve` returns the parser's error whatever the web answers, and the download handler
-- answers it with 400 and the client's name.
pub refusal_lem :
    (client : Client) (web : Web) (json : Json) (fuel : ℕ) (password url host path : Text)
    (f : Failure)
    → web.parse_url url ≡ parsed host path
    → has_prefix url (text "https://we.tl/") ≡ false
    → refusal client web.parse_url url ≡ some f
    → (resolve web json (suc fuel) password client url ≡ some (failed f))
      × (failure_reply (provider_of client) url f
          ≡ reply 400 (text "Invalid " ++ (provider_of client).name ++ text " link format."))
refusal_lem client web json fuel password url host path f p w h = (
  resolve_refused client web json fuel password url f h,
  client_reply client web.parse_url url host path p f w h,
)

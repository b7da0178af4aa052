-- ===== src/Clients/Services/Guard.antt =====
-- The requests that a client may make, and a web that answers no others.
use mathlib.Core.List.{append_assoc}
use webridge.Prelude.{
  ℕ, Bool, true, false, ◌||◌, none, some, ◌++◌, if◌then◌else◌, Text, text, ◌≡◌, refl, ap, ◌∙◌, sym,
}
use webridge.Transfer.{Result, ok, failed, panicked, ◌>>=◌, Request, not_sent, Web}
use webridge.Links.{is_wetransfer_short, strip}
use webridge.Links.Shape.{strip-append}
use webridge.Clients.WeTransfer
use webridge.Clients.SendGb
use webridge.Clients.SendSpace
use webridge.Clients.TransferNow
use webridge.Clients.Wesendit
use webridge.Clients.Services.{Client, we_transfer, send_gb, transfer_now, wesendit, send_space}

unfoldable pub begins : Text → Text → Bool
begins p s = elim (strip p s) [ none ↦ false | some r ↦ true ]

-- The URLs that a client may ask: those of its service's API, and for WeTransfer the short links.
unfoldable pub is_allowed : Client → Text → Bool
is_allowed we_transfer url = begins (WeTransfer.api_base ++ text "/") url || is_wetransfer_short url
is_allowed send_gb url = begins (SendGb.api_base ++ text "/download/") url
is_allowed transfer_now url = begins (TransferNow.api_base ++ text "/transfers/") url
is_allowed wesendit url = begins (Wesendit.api_base ++ text "/transfer/") url
is_allowed send_space url = begins (SendSpace.api_base ++ text "/file/") url

-- A web that answers the allowed requests only.
abbrev pub guarded : Client → Web → Web
guarded client web = record web {
  send = λ n r. if is_allowed client r.url then web.send n r else not_sent (text "not allowed");
}

begins_of : (p s r : Text) → strip p s ≡ some r → begins p s ≡ true
unfolding begins
begins_of p s r h = rw (begins, h) refl

pub begins-append : (p q s : Text) → begins (p ++ q) (p ++ (q ++ s)) ≡ true
begins-append p q s =
    begins_of (p ++ q) _ s (rw (sym (append_assoc p q s)) (strip-append (p ++ q) s))

-- A request that is allowed gets the same answer.
pub guarded_same :
    (client : Client) (web : Web) (n : ℕ) (r : Request)
    → is_allowed client r.url ≡ true
    → web.send n r ≡ (guarded client web).send n r
guarded_same client web n r h = rw h refl

pub bind_same :
    {A B : Type 0} (o : Result A) (f g : A → Result B)
    → ((a : A) → f a ≡ g a)
    → (o >>= f) ≡ (o >>= g)
bind_same (ok a) f g h = h a
bind_same (failed e) f g h = refl
bind_same panicked f g h = refl

pub bind_ap :
    {A B : Type 0} {o p : Result A} {f g : A → Result B}
    → o ≡ p
    → ((a : A) → f a ≡ g a)
    → (o >>= f) ≡ (p >>= g)
bind_ap {o = o} {f = f} {g = g} e h = bind_same o f g h ∙ ap (λ x. x >>= g) e

-- ===== src/Clients/Services/Requests.antt =====
-- Which requests a client makes while it resolves a transfer.
use webridge.Prelude.{
  ℕ, zero, suc, Option, none, some, [], ◌++◌, Text, text, ◌≡◌, refl, ap, ◌∙◌, arith,
}
use webridge.Transfer.{Result, ok, ◌>>=◌, Web, Decoded, body_of, decoded_of}
use webridge.Clients.WeTransfer
use webridge.Clients.SendGb
use webridge.Clients.SendSpace
use webridge.Clients.TransferNow
use webridge.Clients.Wesendit
use webridge.Clients.Services.{
  Client, we_transfer, send_gb, transfer_now, wesendit, send_space, Json, resolve,
}
use webridge.Clients.Services.Guard.{
  is_allowed, guarded, begins-append, guarded_same, bind_same, bind_ap,
}

send_space_same :
    (web : Web) (decode : Text → Decoded SendSpace.SpaceFile) (password url : Text)
    → SendSpace.resolve web decode password url
      ≡ SendSpace.resolve (guarded send_space web) decode password url
unfolding SendSpace.resolve SendSpace.get_file_info is_allowed
send_space_same web decode password url =
    bind_same (SendSpace.parse_url web.parse_url url) _ _ λ code.
      ap
        (λ s.
          body_of (text "API request failed: ") s
          >>= (λ body. decoded_of (text "failed to parse API response: ") (decode body))
          >>= SendSpace.file_info)
        (guarded_same send_space web 0 (SendSpace.file_request web.query_escape code password)
          (begins-append SendSpace.api_base (text "/file/") _))

transfer_now_same :
    (web : Web) (decode : Text → Decoded TransferNow.NowTransfer) (password url : Text)
    → TransferNow.resolve web decode password url
      ≡ TransferNow.resolve (guarded transfer_now web) decode password url
unfolding TransferNow.resolve TransferNow.get_transfer_info is_allowed
transfer_now_same web decode password url =
    bind_same (TransferNow.parse_url web.parse_url url) _ _ λ code.
      ap
        (λ s.
          body_of (text "API request failed: ") s
          >>= (λ body. decoded_of (text "failed to parse API response: ") (decode body))
          >>= TransferNow.transfer_info)
        (guarded_same transfer_now web 0 (TransferNow.info_request web.query_escape code password)
          (begins-append TransferNow.api_base (text "/transfers/") _))

wesendit_same :
    (web : Web) (decode : Text → Decoded Wesendit.ItTransfer) (password url : Text)
    → Wesendit.resolve web decode password url
      ≡ Wesendit.resolve (guarded wesendit web) decode password url
unfolding Wesendit.resolve Wesendit.get_transfer_info is_allowed
wesendit_same web decode password url = bind_same (Wesendit.parse_url web.parse_url url) _ _ λ code.
    ap
      (λ s.
        body_of (text "API request failed: ") s
        >>= (λ body. decoded_of (text "failed to parse API response: ") (decode body))
        >>= Wesendit.transfer_info)
      (guarded_same wesendit web 0 (Wesendit.info_request web.query_escape code password)
        (begins-append Wesendit.api_base (text "/transfer/") _))

-- The three requests of SendGB.
get_info_same :
    (web : Web) (codec : SendGb.Codec) (password code : Text)
    → SendGb.get_transfer_info web codec password code
      ≡ SendGb.get_transfer_info (guarded send_gb web) codec password code
unfolding SendGb.get_transfer_info is_allowed
get_info_same web codec password code =
    ap
      (λ s.
        body_of [] s
        >>= (λ body. decoded_of [] (codec.decode_transfer body))
        >>= SendGb.transfer_info)
      (guarded_same send_gb web 0 (SendGb.info_request code password)
        (begins-append SendGb.api_base (text "/download/") _))

get_segments_same :
    (web : Web) (codec : SendGb.Codec) (password code : Text) (s : SendGb.GbSession)
    → SendGb.get_segments web codec password code s
      ≡ SendGb.get_segments (guarded send_gb web) codec password code s
unfolding SendGb.get_segments is_allowed text
get_segments_same web codec password code s =
    ap
      (λ x.
        body_of [] x
        >>= (λ body. decoded_of [] (codec.decode_segments body))
        >>= (λ r. SendGb.segments_url r.is_ok r.segments))
      (guarded_same send_gb web 2 (SendGb.segments_request code s) (
        begins-append SendGb.api_base (text "/download/")
          (text "waybill-session/" ++ (s.session_token ++ (text "?ulid=" ++ code)))))

get_download_url_same :
    (web : Web) (codec : SendGb.Codec) (password code key : Text)
    → SendGb.get_download_url web codec password code key
      ≡ SendGb.get_download_url (guarded send_gb web) codec password code key
unfolding SendGb.get_download_url is_allowed
get_download_url_same web codec password code key =
    bind_ap
      (ap
        (λ s.
          body_of [] s
          >>= (λ body. decoded_of [] (codec.decode_session body))
          >>= SendGb.session_ok)
        (guarded_same send_gb web 1 (SendGb.session_request codec.marshal_key code key password)
          (begins-append SendGb.api_base (text "/download/") _)))
      (get_segments_same web codec password code)

send_gb_same :
    (web : Web) (codec : SendGb.Codec) (password url : Text)
    → SendGb.resolve web codec password url
      ≡ SendGb.resolve (guarded send_gb web) codec password url
unfolding SendGb.resolve SendGb.resolve_code SendGb.get_transfer_info SendGb.get_download_url
    SendGb.get_segments is_allowed
send_gb_same web codec password url = bind_same (SendGb.parse_url web.parse_url url) _ _ λ code.
    bind_ap (get_info_same web codec password code) λ info.
      ap
        (λ o. o >>= λ url. ok (record {
          direct_url = url;
          file_name = info.file_name;
          file_size = info.file_size;
          file_count = 1;
        }))
        (get_download_url_same web codec password code info.file_key)

direct_link_same :
    (web : Web) (decode : Text → Decoded WeTransfer.DirectLink) (password : Text) (n : ℕ)
    (ids : WeTransfer.Ids)
    → WeTransfer.get_direct_link web decode password n ids
      ≡ WeTransfer.get_direct_link (guarded we_transfer web) decode password n ids
unfolding WeTransfer.get_direct_link is_allowed
direct_link_same web decode password n ids =
    ap
      (λ s.
        body_of (text "API request failed: ") s
        >>= (λ body. decoded_of (text "failed to parse API response: ") (decode body))
        >>= WeTransfer.link_info web.parse_url)
      (guarded_same we_transfer web n (WeTransfer.link_request ids password)
        (rw (begins-append WeTransfer.api_base (text "/") _) refl))

-- The short links are allowed, so the chain of redirects is the same.
hop_same :
    (web : Web) (n : ℕ) (url : Text)
    → WeTransfer.hop web n url ≡ WeTransfer.hop (guarded we_transfer web) n url
unfolding WeTransfer.hop is_allowed
hop_same web n url = ground arith

hop_go_same :
    {A : Type 0} (h : WeTransfer.Hop) (done : Result WeTransfer.Ids → A) (f g : Text → A)
    → ((t : Text) → f t ≡ g t)
    → WeTransfer.after_hop h done f ≡ WeTransfer.after_hop h done g
hop_go_same (WeTransfer.done r) done f g h = refl
hop_go_same (WeTransfer.follow t) done f g h = h t

parse_url_same :
    (web : Web) (fuel n : ℕ) (url : Text)
    → WeTransfer.parse_url web fuel n url
      ≡ WeTransfer.parse_url (guarded we_transfer web) fuel n url
unfolding WeTransfer.parse_url
parse_url_same web zero n url = refl
parse_url_same web (suc fuel) n url =
    hop_go_same (WeTransfer.hop web n url) _ _ _ (λ t. parse_url_same web fuel (suc n) t)
    ∙ ap
        (λ h.
          WeTransfer.after_hop h (λ ids. some (ids, suc n))
            (λ final. WeTransfer.parse_url (guarded we_transfer web) fuel (suc n) final))
        (hop_same web n url)

after_parse_same :
    (web : Web) (decode : Text → Decoded WeTransfer.DirectLink) (password : Text)
    (r : Option (Result WeTransfer.Ids × ℕ))
    → WeTransfer.after_parse web decode password r
      ≡ WeTransfer.after_parse (guarded we_transfer web) decode password r
unfolding WeTransfer.after_parse
after_parse_same web decode password none = refl
after_parse_same web decode password (some (ids, n)) =
    ap some (bind_same ids _ _ (direct_link_same web decode password n))

we_transfer_same :
    (web : Web) (decode : Text → Decoded WeTransfer.DirectLink) (password : Text) (fuel : ℕ)
    (url : Text)
    → WeTransfer.resolve web decode password fuel url
      ≡ WeTransfer.resolve (guarded we_transfer web) decode password fuel url
unfolding WeTransfer.resolve
we_transfer_same web decode password fuel url =
    after_parse_same web decode password (WeTransfer.parse_url web fuel 0 url)
    ∙ ap (WeTransfer.after_parse (guarded we_transfer web) decode password)
        (parse_url_same web fuel 0 url)

-- `Resolve` of each client gives the same result if every request is refused that is not for the API of
-- its own service or, for WeTransfer, for a short link. Where the redirects lead that net/http follows
-- is not said.
pub resolve-guarded :
    (client : Client) (web : Web) (json : Json) (fuel : ℕ) (password url : Text)
    → resolve web json fuel password client url
      ≡ resolve (guarded client web) json fuel password client url
unfolding resolve
resolve-guarded we_transfer web json fuel password url =
    we_transfer_same web json.direct_link password fuel url
resolve-guarded send_gb web json fuel password url =
    ap some (send_gb_same web json.sendgb password url)
resolve-guarded transfer_now web json fuel password url =
    ap some (transfer_now_same web json.now_transfer password url)
resolve-guarded wesendit web json fuel password url =
    ap some (wesendit_same web json.it_transfer password url)
resolve-guarded send_space web json fuel password url =
    ap some (send_space_same web json.space_file password url)

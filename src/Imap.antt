-- ===== src/Imap.antt =====
-- internal/auth/imap.go. The mail server is not modelled: a `MailServer` says what the connection of
-- github.com/emersion/go-imap answers.
pub mod Domains
mod Tests
use webridge.Prelude.{
  ℕ, Bool, true, false, ◌&&◌, ◌||◌, not, Option, none, some, List, [], ◌∷◌, map, keep,
  if◌then◌else◌, eqb, Text, text, ◌==◌, not_empty, ℤ, pos, is_zero, pos_part, neg_part,
}
use webridge.Prelude.Table.{lookup, insert}
use webridge.Strings.{to_lower, equal_fold, trim_space, after_last}
use webridge.Config.{ImapEmailConfig}
use webridge.Auth.{User, Service}
use webridge.Ldap.{Verdict, accepted, rejected, errored, external_user}

-- `DialStartTLS` and `DialTLS` of the host and port, and `LOGIN` of a name and a password.
pub record MailServer : Type 0 where
  pub dial_start_tls : Text → ℤ → Bool
  pub dial_tls : Text → ℤ → Bool
  pub login : Text → Text → Bool

unfoldable pub imap_auth : MailServer → ImapEmailConfig → Text → Text → Verdict
imap_auth m ic email password =
    let plain = (eqb (pos_part ic.port) 143 && eqb (neg_part ic.port) 0) && ic.use_start_tls in
    if not (if plain then m.dial_start_tls ic.host ic.port else m.dial_tls ic.host ic.port)
    then errored
    else if m.login email password
    then accepted
    else rejected

-- The loop over the domains.
listed : Text → List Text → Bool
listed dom [] = false
listed dom (d ∷ ds) = equal_fold (trim_space d) dom || listed dom ds

unfoldable pub imap_domain_allowed : ImapEmailConfig → Text → Bool
unfolding listed
imap_domain_allowed ic email = elim (after_last b'@' email) [
  | none ↦ false
  | some dom ↦ listed (to_lower dom) ic.allowed_domains
]

new_imap_user : Service → Text → Service × Option User
new_imap_user s email =
    let u = external_user (text "imap") s.imap_cfg.default_groups in
    if not s.imap_cfg.auto_provision
    then (s, none)
    else (record s { users = insert email u s.users }, some u)

provision_found : Service → Text → Option User → Service × Option User
provision_found s email none = new_imap_user s email
provision_found s email (some u) =
    if u.source == text "imap" then (s, some u) else new_imap_user s email

-- `none` is `errPendingApproval`.
unfoldable pub provision_imap : Service → Text → Service × Option User
unfolding provision_found new_imap_user
provision_imap s email = provision_found s email (lookup email s.users)

-- The two filtering loops of `normalizeIMAP`, over the texts once they are trimmed.
abbrev trimmed : List Text → List Text
trimmed ts = keep not_empty (map trim_space ts)

unfoldable pub normalize_imap : ImapEmailConfig → ImapEmailConfig
normalize_imap cfg = record cfg {
  port = if is_zero cfg.port then pos 993 else cfg.port;
  allowed_domains = keep not_empty (map (λ d. to_lower (trim_space d)) cfg.allowed_domains);
  default_groups = elim cfg.default_groups [
    | none ↦ some (text "users" ∷ [])
    | some gs ↦ some (trimmed gs)
  ];
}

-- ===== src/Login/Own.antt =====
-- What a login changes of the accounts (`Login` of internal/auth/auth.go, internal/auth/ldap.go,
-- internal/auth/imap.go).
use webridge.Prelude.{
  ◌≡◌, refl, ◌∙◌, Bool, true, false, ◌&&◌, not, Option, none, some, if_cases, Text, text, ◌==◌,
  not_empty, arith,
}
use webridge.Prelude.Table.{lookup, lookup-insert}
use webridge.Auth.{User, Service, verify}
use webridge.Bruteforce.{check}
use webridge.Ldap.{Verdict, accepted, rejected, errored, external_user, ldap_auth, provision_ldap}
use webridge.Imap.{imap_auth, imap_domain_allowed, provision_imap}
use webridge.World.{World, reply, with_service, audited}
use webridge.Login.{
  LoginRequest, Outside, Attempt, can_fallback, after_ldap, after_imap, with_imap_user, try_ldap,
  try_imap, local_attempt, authenticate, refuse, admit, finish, checked, login,
}

-- Only the user of the name may have changed.
pub record Keeps (name : Text) (s after : Service) : Type 0 where
  pub others : (k : Text) → (name == k) ≡ false → lookup k after.users ≡ lookup k s.users
  pub groups : after.groups ≡ s.groups
  pub ldap_cfg : after.ldap_cfg ≡ s.ldap_cfg
  pub imap_cfg : after.imap_cfg ≡ s.imap_cfg

Keeps-refl : (name : Text) (s : Service) → Keeps name s s
Keeps-refl name s = record { others = λ k h. refl; groups = refl; ldap_cfg = refl; imap_cfg = refl }

Keeps-trans : (name : Text) (s t u : Service) → Keeps name s t → Keeps name t u → Keeps name s u
Keeps-trans name s t u a b = record {
  others = λ k h. b.others k h ∙ a.others k h;
  groups = b.groups ∙ a.groups;
  ldap_cfg = b.ldap_cfg ∙ a.ldap_cfg;
  imap_cfg = b.imap_cfg ∙ a.imap_cfg;
}

provision_ldap-Keeps : (s : Service) (name : Text) → Keeps name s (provision_ldap s name).0
unfolding provision_ldap
provision_ldap-Keeps s name = record {
  others = λ k h. ground (
    arith,
    h,
    lookup-insert name k (external_user (text "ldap") s.ldap_cfg.default_groups) s.users,
  );
  groups = ground arith;
  ldap_cfg = ground arith;
  imap_cfg = ground arith;
}

provision_imap-Keeps : (s : Service) (name : Text) → Keeps name s (provision_imap s name).0
unfolding provision_imap
provision_imap-Keeps s name = record {
  others = λ k h. ground (
    arith,
    h,
    lookup-insert name k (external_user (text "imap") s.imap_cfg.default_groups) s.users,
  );
  groups = ground arith;
  ldap_cfg = ground arith;
  imap_cfg = ground arith;
}

after_ldap-Keeps :
    (a : Attempt) (name : Text) (v : Verdict) → Keeps name a.svc (after_ldap a name v).svc
unfolding after_ldap
after_ldap-Keeps a name accepted = provision_ldap-Keeps a.svc name
after_ldap-Keeps a name rejected = Keeps-refl name a.svc
after_ldap-Keeps a name errored = Keeps-refl name a.svc

svc-with_imap_user :
    (a : Attempt) (s : Service) (found : Option User) → (with_imap_user a s found).svc ≡ s
unfolding with_imap_user
svc-with_imap_user a s none = refl
svc-with_imap_user a s (some u) = refl

after_imap-Keeps :
    (a : Attempt) (name : Text) (v : Verdict) → Keeps name a.svc (after_imap a name v).svc
unfolding after_imap
after_imap-Keeps a name accepted =
    rw (svc-with_imap_user a (provision_imap a.svc name).0 (provision_imap a.svc name).1)
      (provision_imap-Keeps a.svc name)
after_imap-Keeps a name rejected = Keeps-refl name a.svc
after_imap-Keeps a name errored = Keeps-refl name a.svc

module _ (o : Outside) where
  try_ldap-Keeps :
      (fallback : Bool) (name password : Text) (a : Attempt)
      → Keeps name a.svc (try_ldap o fallback name password a).svc
  unfolding try_ldap
  try_ldap-Keeps fallback name password a =
      let v = ldap_auth o.directory a.svc.ldap_cfg name password in
      if_cases (λ b. Keeps name a.svc b.svc) (not a.ok && (fallback && a.svc.ldap_cfg.enabled))
        (after_ldap a name v) a (λ _. after_ldap-Keeps a name v) (λ _. Keeps-refl name a.svc)

  try_imap-Keeps :
      (fallback : Bool) (name password : Text) (a : Attempt)
      → Keeps name a.svc (try_imap o fallback name password a).svc
  unfolding try_imap
  try_imap-Keeps fallback name password a =
      let v = imap_auth o.mail a.svc.imap_cfg name password in
      if_cases (λ b. Keeps name a.svc b.svc)
        (not a.ok
          && (fallback && (a.svc.imap_cfg.enabled && imap_domain_allowed a.svc.imap_cfg name)))
        (after_imap a name v) a (λ _. after_imap-Keeps a name v) (λ _. Keeps-refl name a.svc)

  authenticate-Keeps :
      (s : Service) (name password : Text) → Keeps name s (authenticate o s name password).svc
  unfolding authenticate
  authenticate-Keeps s name password =
      let (u, exists, ok) = verify o.sha256 s name password in
      let fallback = can_fallback u exists in
      let a = local_attempt o s u ok in
      let b = try_ldap o fallback name password a in
      Keeps-trans name s b.svc (try_imap o fallback name password b).svc
        (try_ldap-Keeps fallback name password a) (try_imap-Keeps fallback name password b)

  finish-Keeps :
      (ip name : Text) (w : World) (a : Attempt) → Keeps name a.svc (finish o ip name w a).0.svc
  unfolding finish admit refuse audited
  finish-Keeps ip name w a = record {
    others = λ k h. ground arith;
    groups = ground arith;
    ldap_cfg = ground arith;
    imap_cfg = ground arith;
  }

  checked-Keeps :
      (ip : Text) (req : LoginRequest) (w : World) (locked : Bool × Text)
      → Keeps req.username w.svc (checked o ip req w locked).0.svc
  unfolding checked audited
  checked-Keeps ip req w (true, reason) = Keeps-refl req.username w.svc
  checked-Keeps ip req w (false, reason) =
      let a = authenticate o w.svc req.username req.password in
      Keeps-trans req.username w.svc a.svc (finish o ip req.username w a).0.svc
        (authenticate-Keeps w.svc req.username req.password) (finish-Keeps ip req.username w a)

  -- Whatever a login meets outside of the program, and however it is answered, it changes no user but the
  -- one of its name, no group and no settings.
  pub login-Keeps :
      (ip : Text) (w : World) (req : LoginRequest)
      → Keeps req.username w.svc (login o ip w (some req)).0.svc
  unfolding login
  login-Keeps ip w req =
      let (bf, answer) = check w.svc.bf o.clock.at_check o.clock.at_until ip req.username in
      let w' = with_service w (record w.svc { bf = bf }) in
      if_cases (λ r. Keeps req.username w.svc r.0.svc)
        (not (not_empty req.username && not_empty req.password))
        (w, reply 400 (text "username and password required")) (checked o ip req w' answer)
        (λ _. Keeps-refl req.username w.svc)
        (λ _.
          Keeps-trans req.username w.svc w'.svc (checked o ip req w' answer).0.svc
            (record { others = λ k h. refl; groups = refl; ldap_cfg = refl; imap_cfg = refl })
            (checked-Keeps ip req w' answer))

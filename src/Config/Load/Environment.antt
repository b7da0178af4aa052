-- ===== src/Config/Load/Environment.antt =====
-- What the environment changes of the settings.
use webridge.Prelude.{
  Bool, Option, some, Text, ℤ, ◌≡◌, refl, ap, ◌∙◌, sym, arith, Option-cases, ◌⊎◌, inl, inr,
}
use webridge.Config.{Config}
use webridge.Config.Load.{
  Env, set_str, set_int, set_dur, set_bool, apply_env, File, missing, unreadable, contents, over,
  load, defaults,
}

module _ (env : Env) where
  set_str_idem : (key p : Text) → set_str env key (set_str env key p) ≡ set_str env key p
  unfolding set_str
  set_str_idem key p = ground arith

  set_int_idem : (key : Text) (p : ℤ) → set_int env key (set_int env key p) ≡ set_int env key p
  unfolding set_int
  set_int_idem key p = ground arith

  set_dur_idem : (key : Text) (p : ℤ) → set_dur env key (set_dur env key p) ≡ set_dur env key p
  unfolding set_dur
  set_dur_idem key p = ground arith

  set_bool_idem :
      (key : Text) (p : Bool) → set_bool env key (set_bool env key p) ≡ set_bool env key p
  unfolding set_bool
  set_bool_idem key p = ground arith

  apply_env_idem : (c : Config) → apply_env env (apply_env env c) ≡ apply_env env c
  unfolding apply_env
  apply_env_idem c = simp (set_str_idem, set_int_idem, set_dur_idem, set_bool_idem) refl

-- The settings before the environment: the defaults, or what YAML made of the file and the defaults.
abbrev pub IsRead : (Text → Config → Option Config) → File → Config → Type 0
IsRead unmarshal file c =
    ((file ≡ missing) × (c ≡ defaults))
    ⊎ ((bytes : Text) × (file ≡ contents bytes) × (unmarshal bytes defaults ≡ some c))

over-IsRead :
    (unmarshal : Text → Config → Option Config) (file : File) (c : Config)
    → over unmarshal file ≡ some c
    → IsRead unmarshal file c
unfolding over
over-IsRead unmarshal missing c h = inl (refl, ground (arith, h))
over-IsRead unmarshal unreadable c h = ground (arith, h)
over-IsRead unmarshal (contents bytes) c h = inr (bytes, refl, h)

-- What `Load` returns is the defaults, for a missing file, or what YAML made of them; the environment
-- changes no account, no directory and no mail setting; and applying it again changes nothing.
pub load_lem :
    (env : Env) (unmarshal : Text → Config → Option Config) (file : File) (c : Config)
    → load env unmarshal file ≡ some c
    → (apply_env env c ≡ c)
      × ((y : Config) × IsRead unmarshal file y
          × (c.auth ≡ y.auth)
          × (c.ldap ≡ y.ldap)
          × (c.imap ≡ y.imap))
unfolding load apply_env
load_lem env unmarshal file c h = elim (Option-cases (over unmarshal file)) [
  | inl e ↦ ground (arith, e, h)
  | inr (y, e) ↦
      let same : apply_env env y ≡ c = ground (arith, e, h) in
      (
        ap (apply_env env) (sym same) ∙ apply_env_idem env y ∙ same,
        (
          y,
          over-IsRead unmarshal file y e,
          ap (λ x. x.auth) (sym same),
          ap (λ x. x.ldap) (sym same),
          ap (λ x. x.imap) (sym same),
        ),
      )
]

-- ===== src/Registry/Resolution.antt =====
-- The hosts that `ResolveProvider` of internal/providers/registry.go serves, whatever the order of its
-- loop.
use webridge.Prelude.{
  ◌≡◌, ◌⊎◌, inl, inr, refl, true, Option, none, some, [], ◌∷◌, Text, eq_iff, eq_refl, arith,
  Bool-cases, Option-cases,
}
use webridge.Prelude.Table.{Table, lookup, IsMap}
use webridge.Strings.{has_suffix}
use webridge.Registry.{Provider, Registry, found, by_suffix, by_host, host_name, resolve_provider}

-- The host is the domain `h`, or lies below it.
abbrev pub IsUnder : Text → Text → Type 0
IsUnder host h = (host ≡ h) ⊎ (has_suffix host (b'.' ∷ h) ≡ true)

by_suffix_sound :
    (host : Text) (m : Table Provider) (p : Provider)
    → IsMap m
    → by_suffix host m ≡ found p
    → (h : Text) × (lookup h m ≡ some p) × (has_suffix host (b'.' ∷ h) ≡ true)
unfolding by_suffix lookup
by_suffix_sound host [] p d e = cc
by_suffix_sound host ((h, q) ∷ m) p d e = elim (Bool-cases (has_suffix host (b'.' ∷ h))) [
  | inl y ↦ (h, ground (arith, eq_refl h), y)
  | inr n ↦
      let (h', there, under) = by_suffix_sound host m p d.1 (ground arith) in
      (h', ground (arith, eq_iff h h'), under)
]

by_suffix_complete :
    (host h : Text) (m : Table Provider) (p : Provider)
    → lookup h m ≡ some p
    → has_suffix host (b'.' ∷ h) ≡ true
    → (q : Provider) × (by_suffix host m ≡ found q)
unfolding by_suffix lookup
by_suffix_complete host h [] p e u = cc
by_suffix_complete host h ((j, q) ∷ m) p e u = elim (Bool-cases (has_suffix host (b'.' ∷ j))) [
  | inl y ↦ (q, ground arith)
  | inr n ↦
      let (q', later) = by_suffix_complete host h m p (ground (arith, eq_iff j h)) u in
      (q', ground (arith, later))
]

by_host_sound :
    (m : Table Provider) (host : Text) (o : Option Provider) (p : Provider)
    → IsMap m
    → lookup host m ≡ o
    → by_host m host o ≡ found p
    → (h : Text) × (lookup h m ≡ some p) × IsUnder host h
unfolding by_host
by_host_sound m host (some q) p d l e = (host, ground arith, inl refl)
by_host_sound m host none p d l e =
    let (h, there, under) = by_suffix_sound host m p d e in (h, there, inr under)

by_host_complete :
    (m : Table Provider) (host : Text) (o : Option Provider) (h : Text) (p : Provider)
    → lookup host m ≡ o
    → lookup h m ≡ some p
    → IsUnder host h
    → (q : Provider) × (by_host m host o ≡ found q)
unfolding by_host
by_host_complete m host (some q) h p l e u = (q, refl)
by_host_complete m host none h p l e (inl same) = cc
by_host_complete m host none h p l e (inr under) = by_suffix_complete host h m p e under

-- Where each domain stands once, a provider that is found is registered for a domain that the host is,
-- or lies below.
pub resolve_provider_sound :
    (parse : Text → Option Text) (r : Registry) (raw_url : Text) (p : Provider)
    → IsMap r.host_map
    → resolve_provider parse r raw_url ≡ found p
    → (host : Text) × (h : Text) × (parse raw_url ≡ some host)
      × (lookup h r.host_map ≡ some p)
      × IsUnder (host_name host) h
unfolding resolve_provider
resolve_provider_sound parse r raw_url p d e = elim (Option-cases (parse raw_url)) [
  | inl bad ↦ absurd (ground arith)
  | inr (host, good) ↦
      let (h, there, under) =
        by_host_sound r.host_map (host_name host) (lookup (host_name host) r.host_map) p d refl
          (ground arith) in
      (host, h, good, there, under)
]

-- No URL whose host is a registered domain, or lies below one, goes without a provider.
pub resolve_provider_complete :
    (parse : Text → Option Text) (r : Registry) (raw_url host h : Text) (p : Provider)
    → parse raw_url ≡ some host
    → lookup h r.host_map ≡ some p
    → IsUnder (host_name host) h
    → (q : Provider) × (resolve_provider parse r raw_url ≡ found q)
unfolding resolve_provider
resolve_provider_complete parse r raw_url host h p e there under =
    rw (e, resolve_provider)
      (by_host_complete r.host_map (host_name host) (lookup (host_name host) r.host_map) h p refl
        there under)

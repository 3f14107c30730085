-- ===== src/Registry/Stability.antt =====
-- `allocate` and `record` (box/lib/causb/registry.py): a name keeps its address, and no two names
-- share one.
use nebula_ca_harness.Prelude.{
  String, ◌≡◌, refl, ap, sym, subst, ◌∙◌, ◌⊎◌, inl, inr, false, Option, none, some, Option-cases,
  Bool-cases, List, arith, string_eq, Result, ok, err, ok-injective,
}
use nebula_ca_harness.Prelude.Dict.{lookup, put}
use nebula_ca_harness.Registry.{
  Reason, Network, Addressing, Host, Registry, assigned_ips, is_bound, cidr_of, choose_ip, enter,
  allocate, resolve_ip_hint,
}
use nebula_ca_harness.Registry.Pool.{next_free_ip-InRange, resolve_ip_hint-InRange, InRange}

module _ (lib : Addressing) where
  choose_ip-InRange :
      (o : Option Network) (hint : Option String) (assigned : List String) (ip : String)
      → choose_ip lib o hint assigned ≡ ok ip
      → (network : Network) × (o ≡ some network) × InRange lib network assigned ip
  unfolding choose_ip
  choose_ip-InRange none hint assigned ip h = absurd cc
  choose_ip-InRange (some network) hint assigned ip h =
      elim (Option-cases (resolve_ip_hint lib hint network assigned)) [
        | inl unusable ↦
            (network, refl, next_free_ip-InRange lib network assigned ip (rw unusable at h))
        | inr (t, usable) ↦ (
          network,
          refl,
          subst (InRange lib network assigned) (ok-injective (rw usable at h))
              (resolve_ip_hint-InRange lib network assigned hint t usable),
        )
      ]

-- The registry with the partial entry of a new name.
abbrev pub with_new : Registry → String → String → String → Registry
with_new reg name sha ip = record reg {
  hosts = put name (record { ip = ip; pubkey_sha256 = some sha; signed = none }) reg.hosts;
}

enter-eq-ok :
    (reg : Registry) (name sha : String) (r : Result Reason String) (p : String × Registry)
    → enter reg name sha r ≡ ok p
    → (r ≡ ok p.0) × (p.1 ≡ with_new reg name sha p.0)
enter-eq-ok reg name sha (ok x) p h =
    let e : (x, with_new reg name sha x) ≡ p = ok-injective h in
    (ap (λ q. ok q.0) e, sym (ap (λ q. q.1) e) ∙ ap (λ q. with_new reg name sha q.0) e)
enter-eq-ok reg name sha (err e) p h = absurd cc

module _ (lib : Addressing) (reg : Registry) (name sha : String) (cidr hint : Option String) where
  -- A new address: of the overlay network, free, for a new name with a new key.
  pub record IsNew (ip : String) : Type 0 where
    pub unknown : lookup name reg.hosts ≡ none
    pub unbound : is_bound sha reg.hosts ≡ false
    pub network : Network
    pub overlay : lib.network (cidr_of cidr reg) ≡ some network
    pub in_range : InRange lib network (assigned_ips reg.hosts) ip

  pub allocate-eq-ok :
      (ip : String) (reg2 : Registry)
      → allocate lib reg name sha cidr hint ≡ ok (ip, reg2)
      → ((host : Host) × (lookup name reg.hosts ≡ some host) × (ip ≡ host.ip) × (reg2 ≡ reg))
        ⊎ (IsNew ip × (reg2 ≡ with_new reg name sha ip))
  unfolding allocate
  allocate-eq-ok ip reg2 h = elim (Option-cases (lookup name reg.hosts)) [
    | inr (host, there) ↦
        let e : (host.ip, reg) ≡ (ip, reg2) = ok-injective (rw (there, allocate) at h) in
        inl (host, there, sym (ap (λ q. q.0) e), sym (ap (λ q. q.1) e))
    | inl absent ↦ elim (Bool-cases (is_bound sha reg.hosts)) [
      | inl bound ↦ absurd (ground (arith, rw (absent, allocate, bound) at h))
      | inr unbound ↦
          let (chosen, e) =
            enter-eq-ok reg name sha _ (ip, reg2) (rw (absent, allocate, unbound) at h) in
          let (network, overlay, in_range) =
            choose_ip-InRange lib (lib.network (cidr_of cidr reg)) hint (assigned_ips reg.hosts) ip
              chosen in
          inr (
            record {
              unknown = absent;
              unbound = unbound;
              network = network;
              overlay = overlay;
              in_range = in_range;
            },
            e,
          )
    ]
  ]

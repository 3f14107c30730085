-- ===== src/Registry/Unique.antt =====
-- No two names share an address (box/lib/causb/registry.py).
use mathlib.Core.Bool.{true≢false}
use nebula_ca_harness.Prelude.{
  String, ◌≡◌, ◌≢◌, ap, sym, subst, ◌∙◌, inl, inr, true, Option, some, List, [], ◌∷◌, contains,
  arith, ◌==◌, string_eq, str_iff, Bool-cases, ok, some_inj,
}
use nebula_ca_harness.Prelude.Dict.{Dict, lookup, put, lookup-put}
use nebula_ca_harness.Registry.{Addressing, Host, Registry, assigned_ips, allocate, record_host}
use nebula_ca_harness.Registry.Stability.{allocate-eq-ok}

-- No two names have one address.
abbrev pub IsUnique : Dict String Host → Type 0
IsUnique hosts =
    (m n : String) (g h : Host)
    → lookup m hosts ≡ some g
    → lookup n hosts ≡ some h
    → g.ip ≡ h.ip
    → m ≡ n

lookup-assigned :
    (n : String) (hosts : Dict String Host) (h : Host)
    → lookup n hosts ≡ some h
    → contains (assigned_ips hosts) h.ip ≡ true
unfolding lookup
lookup-assigned n [] h e = absurd cc
lookup-assigned n ((k, g) ∷ hosts) h e = elim (Bool-cases (k == n)) [
  | inl same ↦
      let x : g ≡ h = some_inj (rw same at e) in
      ground (arith, str_iff g.ip h.ip, ap (λ (y : Host). y.ip) x)
  | inr differ ↦ ground (arith, lookup-assigned n hosts h (rw differ at e))
]

-- An address that no host has keeps the names apart.
put-IsUnique :
    (name : String) (new : Host) (hosts : Dict String Host)
    → ((n : String) (h : Host) → lookup n hosts ≡ some h → n ≢ name → h.ip ≢ new.ip)
    → IsUnique hosts
    → IsUnique (put name new hosts)
put-IsUnique name new hosts apart unique m n g h em en same = elim (Bool-cases (name == m)) [
  | inl a ↦ elim (Bool-cases (name == n)) [
    | inl b ↦ sym ((str_iff name m).0 a) ∙ (str_iff name n).0 b
    | inr b ↦ absurd (
        apart n h (rw b at (rw lookup-put at en))
          (λ x. true≢false (sym ((str_iff name n).1 (sym x)) ∙ b))
          (sym same ∙ sym (ap (λ (y : Host). y.ip) (some_inj (rw a at (rw lookup-put at em))))))
  ]
  | inr a ↦ elim (Bool-cases (name == n)) [
    | inl b ↦ absurd (
        apart m g (rw a at (rw lookup-put at em))
          (λ x. true≢false (sym ((str_iff name m).1 (sym x)) ∙ a))
          (same ∙ sym (ap (λ (y : Host). y.ip) (some_inj (rw b at (rw lookup-put at en))))))
    | inr b ↦ unique m n g h (rw a at (rw lookup-put at em)) (rw b at (rw lookup-put at en)) same
  ]
]

-- Where no two names share an address, `allocate` leaves a registry where no two names share one.
pub allocate-IsUnique :
    (lib : Addressing) (reg : Registry) (name sha : String) (cidr hint : Option String)
    (ip : String) (reg2 : Registry)
    → IsUnique reg.hosts
    → allocate lib reg name sha cidr hint ≡ ok (ip, reg2)
    → IsUnique reg2.hosts
allocate-IsUnique lib reg name sha cidr hint ip reg2 unique h =
    elim (allocate-eq-ok lib reg name sha cidr hint ip reg2 h) [
      | inl (host, there, e, same) ↦ subst (λ (r : Registry). IsUnique r.hosts) (sym same) unique
      | inr (new, e) ↦
          subst (λ (r : Registry). IsUnique r.hosts) (sym e)
            (put-IsUnique name _ reg.hosts
              (λ n g there differ same.
                let (a, low, high, t, free) = new.in_range in
                true≢false
                  (sym (rw same at (lookup-assigned n reg.hosts g there)) ∙ rw (← t) at (free.1)))
              unique)
    ]

-- Where no two names share an address, `record` for a name that is there, with the name's own
-- address, leaves a registry where no two names share one.
pub record_host-IsUnique :
    (reg : Registry) (name sha pubkey fingerprint not_after : String) (groups : List String)
    (host : Host)
    → IsUnique reg.hosts
    → lookup name reg.hosts ≡ some host
    → IsUnique (record_host reg name host.ip sha pubkey fingerprint not_after groups).hosts
unfolding record_host
record_host-IsUnique reg name sha pubkey fingerprint not_after groups host unique there =
    put-IsUnique name _ reg.hosts
      (λ n h en differ same. differ (unique n name h host en there same)) unique

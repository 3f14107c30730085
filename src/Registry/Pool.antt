-- ===== src/Registry/Pool.antt =====
-- The search for a free address (`_next_free_ip`, `_resolve_ip_hint`), box/lib/causb/registry.py.
use native.Mathlib.Decide.{ℕ_discrete}
use nebula_ca_harness.Prelude.{
  ℕ, zero, suc, ◌+◌, ◌≤◌, ◌<◌, String, ◌≡◌, sym, subst, inl, inr, true, false, not, ◌&&◌, Option,
  none, some, List, contains, Bool-cases, arith, string_eq, ok, err,
}
use nebula_ca_harness.Registry.{
  Reason, pool_exhausted, Network, Addressing, is_allocatable, hosts_start, hosts_count, scan_free,
  next_free_ip, usable_hint, resolve_ip_hint,
}

module _ (lib : Addressing) (network : Network) (assigned : List String) where
  -- `a` may be handed out and is not.
  abbrev pub IsFree : ℕ → Type 0
  IsFree a = (is_allocatable network a ≡ true) × (contains assigned (lib.text a) ≡ false)

  -- The lowest free address from `start` on.
  pub record IsLowest (start : ℕ) (ip : String) : Type 0 where
    pub addr : ℕ
    pub from : start ≤ addr
    pub text : ip ≡ lib.text addr
    pub free : IsFree addr
    pub lowest : (b : ℕ) → start ≤ b → b < addr → ¬ IsFree b

  not-IsFree_from :
      (addr b : ℕ)
      → (is_allocatable network addr && not (contains assigned (lib.text addr))) ≡ false
      → addr ≤ b
      → (addr + 1 ≤ b → ¬ IsFree b)
      → ¬ IsFree b
  not-IsFree_from addr b taken low above free = elim (ℕ_discrete addr b) [
    | yes same ↦
        let free' : IsFree addr = subst IsFree (sym same) free in
        absurd (ground (arith, taken, free'))
    | no differ ↦ above (omega arith) free
  ]

  scan_free-IsLowest :
      (n addr : ℕ) (ip : String)
      → scan_free lib network assigned n addr ≡ ok ip
      → (r : IsLowest addr ip) × (r.addr < addr + n)
  unfolding scan_free
  scan_free-IsLowest zero addr ip h = absurd cc
  scan_free-IsLowest (suc n) addr ip h =
      elim (Bool-cases (is_allocatable network addr && not (contains assigned (lib.text addr)))) [
        | inl free ↦ (
          record {
            addr = addr;
            from = omega arith;
            text = ground (arith, free);
            free = ground (arith, free);
            lowest = λ b low high. absurd (omega arith);
          },
          omega arith,
        )
        | inr taken ↦
            let rest : scan_free lib network assigned n (addr + 1) ≡ ok ip =
              ground (arith, taken) in
            let (r, bound) = scan_free-IsLowest n (addr + 1) ip rest in
            (
              record {
                addr = r.addr;
                from = omega (arith, r.from);
                text = r.text;
                free = r.free;
                lowest = λ b low high. not-IsFree_from addr b taken low (λ h'. r.lowest b h' high);
              },
              omega (arith, bound),
            )
      ]

  scan_free-exhausted :
      (n addr : ℕ) (e : Reason)
      → scan_free lib network assigned n addr ≡ err e
      → (e ≡ pool_exhausted) × ((b : ℕ) → addr ≤ b → b < addr + n → ¬ IsFree b)
  unfolding scan_free
  scan_free-exhausted zero addr e h = (ground arith, λ b low high. absurd (omega arith))
  scan_free-exhausted (suc n) addr e h =
      elim (Bool-cases (is_allocatable network addr && not (contains assigned (lib.text addr)))) [
        | inl free ↦ absurd (ground (arith, free))
        | inr taken ↦
            let rest : scan_free lib network assigned n (addr + 1) ≡ err e =
              ground (arith, taken) in
            let (same, all) = scan_free-exhausted n (addr + 1) e rest in
            (same, λ b low high. not-IsFree_from addr b taken low (λ h'. all b h' (omega arith)))
      ]

  -- The free addresses that are hosts of the network are all behind the start of the search.
  is_allocatable-range :
      (a : ℕ) → is_allocatable network a ≡ true → a ≤ network.last → hosts_start network ≤ a
  unfolding is_allocatable
  is_allocatable-range a h top = ground arith

  is_allocatable-below :
      (a : ℕ)
      → is_allocatable network a ≡ true
      → a ≤ network.last
      → a < hosts_start network + hosts_count network
  unfolding is_allocatable
  is_allocatable-below a h top = ground arith

  -- When `_next_free_ip` raises, it raises pool_exhausted, and no address up to the broadcast
  -- address is free.
  pub next_free_ip-exhausted :
      (e : Reason) (a : ℕ)
      → next_free_ip lib network assigned ≡ err e
      → a ≤ network.last
      → (e ≡ pool_exhausted) × (¬ IsFree a)
  unfolding next_free_ip
  next_free_ip-exhausted e a h top =
      let (same, all) = scan_free-exhausted (hosts_count network) (hosts_start network) e h in
      (
        same,
        λ free. all a (is_allocatable-range a free.0 top) (is_allocatable-below a free.0 top) free,
      )

  -- A hint is used only if it is a free address of the network.
  usable_hint-eq-some :
      (o : Option ℕ) (ip : String)
      → usable_hint lib network assigned o ≡ some ip
      → (a : ℕ) × (network.first ≤ a) × (a ≤ network.last) × (ip ≡ lib.text a) × IsFree a
  unfolding usable_hint
  usable_hint-eq-some none ip h = absurd cc
  usable_hint-eq-some (some a) ip h = (a, ground arith, ground arith, ground arith, ground arith)

  -- The address is one of the network's, and free.
  abbrev pub InRange : String → Type 0
  InRange ip = (a : ℕ) × (network.first ≤ a) × (a ≤ network.last) × (ip ≡ lib.text a) × IsFree a

  range-hosts :
      (a : ℕ)
      → is_allocatable network a ≡ true
      → hosts_start network ≤ a
      → a < hosts_start network + hosts_count network
      → (network.first ≤ a) × (a ≤ network.last)
  unfolding is_allocatable
  range-hosts a h low high = ground arith

  pub next_free_ip-InRange : (ip : String) → next_free_ip lib network assigned ≡ ok ip → InRange ip
  unfolding next_free_ip
  next_free_ip-InRange ip h =
      let (r, below) = scan_free-IsLowest (hosts_count network) (hosts_start network) ip h in
      let (low, high) = range-hosts r.addr r.free.0 r.from below in
      (r.addr, low, high, r.text, r.free)

  pub resolve_ip_hint-InRange :
      (hint : Option String) (ip : String)
      → resolve_ip_hint lib hint network assigned ≡ some ip
      → InRange ip
  unfolding resolve_ip_hint
  resolve_ip_hint-InRange none ip h = absurd cc
  resolve_ip_hint-InRange (some text) ip h = usable_hint-eq-some (lib.address text) ip h

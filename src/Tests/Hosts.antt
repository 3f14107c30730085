-- ===== src/Tests/Hosts.antt =====
-- A small overlay network for box/lib/causb/registry.py.
use nebula_ca_harness.Prelude.{
  ℕ, String, ◌≡◌, refl, none, some, List, [], ◌∷◌, string_eq, arith, ok, err, ◌==◌, nat_eq,
  if◌then◌else◌,
}
use nebula_ca_harness.Prelude.Dict.{lookup, put}
use nebula_ca_harness.Registry.{
  Reason, pool_exhausted, Host, Registry, Network, Addressing, Allocation, is_allocatable,
  scan_free, next_free_ip, resolve_ip_hint, choose_ip, is_bound, allocate, reconcile, precedes,
  insert_sorted, sorted, replay_one, replay_all,
}
use nebula_ca_harness.Registry.Pool.{IsFree, next_free_ip-exhausted}
use nebula_ca_harness.Registry.Unique.{IsUnique, allocate-IsUnique}
use nebula_ca_harness.Registry.Rebuild.{ip_of, IsRebuilt, reconcile-IsRebuilt}

-- The network of the addresses 100 to 115, and two texts.
abbrev net : Network
net = record { first = 100; last = 115 }

abbrev text_of : ℕ → String
text_of a = if a == 110 then "ten" else "more"

abbrev addressing : Addressing
addressing = record { network = λ s. some net; address = λ s. none; text = text_of }

abbrev empty : Registry
empty = record { overlay_cidr = "net"; hosts = [] }

abbrev ten_host : Host
ten_host = record { ip = "ten"; pubkey_sha256 = some "sha"; signed = none }

abbrev with_ten : Registry
with_ten = record { overlay_cidr = "net"; hosts = ("alpha", ten_host) ∷ [] }

full_run : next_free_ip addressing net ("ten" ∷ "more" ∷ []) ≡ err pool_exhausted
unfolding next_free_ip scan_free is_allocatable
full_run = refl

next_free_ip-exhausted_example :
    ◌≡◌ {A = Reason} pool_exhausted pool_exhausted
    × (¬ IsFree addressing net ("ten" ∷ "more" ∷ []) 112)
next_free_ip-exhausted_example =
    next_free_ip-exhausted addressing net ("ten" ∷ "more" ∷ []) pool_exhausted 112 full_run
      (omega arith)

allocate_run : allocate addressing empty "alpha" "sha" none none ≡ ok ("ten", with_ten)
unfolding allocate lookup is_bound choose_ip resolve_ip_hint next_free_ip scan_free is_allocatable
    put
allocate_run = refl

empty-IsUnique : IsUnique empty.hosts
unfolding lookup
empty-IsUnique m n g h em en same = absurd cc

allocate-IsUnique_example : IsUnique with_ten.hosts
allocate-IsUnique_example =
    allocate-IsUnique addressing empty "alpha" "sha" none none "ten" with_ten empty-IsUnique
      allocate_run

abbrev allocation : String → ℕ → Allocation
allocation ip seq = record {
  name = "alpha";
  ip = ip;
  pubkey_sha256 = "sha";
  pubkey = none;
  fingerprint = "print";
  not_after = "2027";
  groups = [];
  seq = seq;
}

abbrev history : List Allocation
history = allocation "late" 7 ∷ allocation "ten" 3 ∷ []

reconcile_run : ip_of (lookup "alpha" (reconcile history "net").hosts) ≡ some "ten"
unfolding reconcile sorted insert_sorted precedes replay_all replay_one lookup put
reconcile_run = refl

reconcile-IsRebuilt_example :
    IsRebuilt "alpha" history (ip_of (lookup "alpha" (reconcile history "net").hosts))
reconcile-IsRebuilt_example = reconcile-IsRebuilt "alpha" "net" history

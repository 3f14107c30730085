-- ===== src/Registry.antt =====
-- box/lib/causb/registry.py: the overlay address of each host name. `ipaddress` is the parameter
-- `Addressing`: `ip_network(text, strict=False)` and `ip_address(text)` (`none` for a `ValueError`,
-- and for an IPv6 text, which is in no IPv4 network) and `str(address)`. Addresses are numbers.
pub mod Pool
pub mod Stability
pub mod Unique
pub mod Rebuild
pub mod File
use Prim.Native.Nat.{Ordering}
use Prim.Native.String.{compare}
use nebula_ca_harness.Prelude.{
  ℕ, zero, suc, ◌+◌, ◌-◌, String, Bool, true, false, not, ◌&&◌, ◌||◌, any, Option, none, some, List,
  [], ◌∷◌, contains, ltb, leb, ◌==◌, nat_eq, string_eq, if◌then◌else◌, Result, ok, err,
}
use nebula_ca_harness.Prelude.Dict.{Dict, lookup, put}

-- `RegistryError.reason`, and the `ValueError` of a malformed network text.
pub data Reason : Type 0 where
  name_conflict pool_exhausted value_error : Reason

-- What `record` adds to the partial entry of `allocate`.
pub record Signed : Type 0 where
  pub pubkey : Option String
  pub fingerprint : String
  pub not_after : String
  pub groups : List String

pub record Host : Type 0 where
  pub ip : String
  pub pubkey_sha256 : Option String
  pub signed : Option Signed

pub record Registry : Type 0 where
  pub overlay_cidr : String
  pub hosts : Dict String Host

-- `network_address` and `broadcast_address`
pub record Network : Type 0 where
  pub first : ℕ
  pub last : ℕ

pub record Addressing : Type 0 where
  pub network : String → Option Network
  pub address : String → Option ℕ
  pub text : ℕ → String

-- `config.LIGHTHOUSE_RESERVED`
abbrev pub lighthouse_reserved : ℕ
lighthouse_reserved = 9

-- `_empty_registry`, with `config.OVERLAY_CIDR`
abbrev pub empty_registry : Registry
empty_registry = record { overlay_cidr = "10.66.0.0/16"; hosts = [] }

-- `_offset` and `_is_allocatable`; an address below the network has no offset above the reserve.
unfoldable pub is_allocatable : Network → ℕ → Bool
is_allocatable network addr =
    not (addr == network.first || addr == network.last)
    && ltb lighthouse_reserved (addr - network.first)

-- `[host["ip"] for host in hosts.values()]`
abbrev pub assigned_ips : Dict String Host → List String
assigned_ips [] = []
assigned_ips ((name, host) ∷ hosts) = host.ip ∷ assigned_ips hosts

-- The first address of `network.hosts()`, and how many there are: the ends are left out of a network
-- of more than two addresses.
abbrev pub hosts_start : Network → ℕ
hosts_start network =
    if leb (network.last - network.first) 1 then network.first else network.first + 1

abbrev pub hosts_count : Network → ℕ
hosts_count network =
    if leb (network.last - network.first) 1
    then network.last - network.first + 1
    else network.last - network.first - 1

-- `host.get("pubkey_sha256") == pubkey_sha256`
abbrev pub has_key : String → Option String → Bool
has_key sha none = false
has_key sha (some s) = s == sha

unfoldable pub is_bound : String → Dict String Host → Bool
is_bound sha [] = false
is_bound sha ((name, host) ∷ hosts) = has_key sha host.pubkey_sha256 || is_bound sha hosts

-- `overlay_cidr or reg["overlay_cidr"]`
abbrev pub cidr_of : Option String → Registry → String
cidr_of none reg = reg.overlay_cidr
cidr_of (some cidr) reg = if cidr == "" then reg.overlay_cidr else cidr

abbrev pub enter :
    Registry → String → String → Result Reason String → Result Reason (String × Registry)
enter reg name sha (err e) = err e
enter reg name sha (ok ip) = ok (
  ip,
  record reg {
    hosts = put name (record { ip = ip; pubkey_sha256 = some sha; signed = none }) reg.hosts;
  },
)

module _ (lib : Addressing) where
  -- `_next_free_ip`, over `n` addresses from `addr` on.
  unfoldable pub scan_free : Network → List String → ℕ → ℕ → Result Reason String
  unfolding is_allocatable
  scan_free network assigned zero addr = err pool_exhausted
  scan_free network assigned (suc n) addr =
      let rest = scan_free network assigned n (addr + 1) in
      if is_allocatable network addr && not (contains assigned (lib.text addr))
      then ok (lib.text addr)
      else rest

  unfoldable pub next_free_ip : Network → List String → Result Reason String
  unfolding scan_free
  next_free_ip network assigned =
      scan_free network assigned (hosts_count network) (hosts_start network)

  -- The tests of `_resolve_ip_hint` on the parsed hint.
  unfoldable pub usable_hint : Network → List String → Option ℕ → Option String
  unfolding is_allocatable
  usable_hint network assigned none = none
  usable_hint network assigned (some addr) =
      if (leb network.first addr && leb addr network.last)
        && is_allocatable network addr
        && not (contains assigned (lib.text addr))
      then some (lib.text addr)
      else none

  unfoldable pub resolve_ip_hint : Option String → Network → List String → Option String
  unfolding usable_hint
  resolve_ip_hint none network assigned = none
  resolve_ip_hint (some hint) network assigned = usable_hint network assigned (lib.address hint)

  abbrev pub hinted : Option String → Result Reason String → Result Reason String
  hinted (some ip) r = ok ip
  hinted none r = r

  -- The address for a new name.
  unfoldable pub choose_ip : Option Network → Option String → List String → Result Reason String
  unfolding resolve_ip_hint next_free_ip
  choose_ip none ip_hint assigned = err value_error
  choose_ip (some network) ip_hint assigned =
      hinted (resolve_ip_hint ip_hint network assigned) (next_free_ip network assigned)

  -- `allocate`, where `sha` is the sha256 of `pubkey_bytes`.
  unfoldable pub allocate :
      Registry → String → String → Option String → Option String → Result Reason (String × Registry)
  allocate reg name sha overlay_cidr ip_hint = elim (lookup name reg.hosts) [
    | some host ↦ ok (host.ip, reg)
    | none ↦
        if is_bound sha reg.hosts
        then err name_conflict
        else enter reg name sha
            (choose_ip (lib.network (cidr_of overlay_cidr reg)) ip_hint (assigned_ips reg.hosts))
  ]

-- `record`, with the hash and the base64 text of `pubkey_bytes`.
unfoldable pub record_host :
    Registry → String → String → String → String → String → String → List String → Registry
record_host reg name ip sha pubkey fingerprint not_after groups = record reg {
  hosts =
      put name
        (record {
          ip = ip;
          pubkey_sha256 = some sha;
          signed = some (record {
            pubkey = some pubkey;
            fingerprint = fingerprint;
            not_after = not_after;
            groups = groups;
          });
        })
        reg.hosts;
}

-- `allocation_record`
pub record Allocation : Type 0 where
  pub name : String
  pub ip : String
  pub pubkey_sha256 : String
  pub pubkey : Option String
  pub fingerprint : String
  pub not_after : String
  pub groups : List String
  pub seq : ℕ

-- `a < b` on Python strings, by code points.
abbrev str_ltb : String → String → Bool
str_ltb a b = elim (compare a b) [ Ordering.lt ↦ true | _ ↦ false ]

-- `<` on the sort keys `(seq, name, pubkey_sha256)`.
unfoldable pub precedes : Allocation → Allocation → Bool
precedes a b =
    ltb a.seq b.seq
    || (a.seq == b.seq
        && (str_ltb a.name b.name || (a.name == b.name && str_ltb a.pubkey_sha256 b.pubkey_sha256)))

-- `sorted`: a later item of an equal key goes behind the earlier one.
unfoldable pub insert_sorted : Allocation → List Allocation → List Allocation
unfolding precedes
insert_sorted a [] = a ∷ []
insert_sorted a (b ∷ bs) = if precedes b a then b ∷ insert_sorted a bs else a ∷ b ∷ bs

unfoldable pub sorted : List Allocation → List Allocation
unfolding insert_sorted
sorted [] = []
sorted (a ∷ as') = insert_sorted a (sorted as')

-- `existing["ip"]`, or the record's own address for a new name.
abbrev pub first_ip : Option Host → String → String
first_ip none ip = ip
first_ip (some host) ip = host.ip

-- One turn of the loop of `reconcile`.
unfoldable pub replay_one : Allocation → Dict String Host → Dict String Host
replay_one r hosts =
    put r.name
      (record {
        ip = first_ip (lookup r.name hosts) r.ip;
        pubkey_sha256 = some r.pubkey_sha256;
        signed = some (record {
          pubkey = r.pubkey;
          fingerprint = r.fingerprint;
          not_after = r.not_after;
          groups = r.groups;
        });
      })
      hosts

unfoldable pub replay_all : List Allocation → Dict String Host → Dict String Host
unfolding replay_one
replay_all [] hosts = hosts
replay_all (r ∷ rs) hosts = replay_all rs (replay_one r hosts)

unfoldable pub reconcile : List Allocation → String → Registry
unfolding sorted replay_all
reconcile records overlay_cidr = record {
  overlay_cidr = overlay_cidr;
  hosts = replay_all (sorted records) [];
}

-- ===== src/Registry/Rebuild.antt =====
-- `reconcile` (box/lib/causb/registry.py): the rebuilt registry depends on the records, not on the
-- order in which a directory lists them.
use nebula_ca_harness.Prelude.{
  ℕ, ◌≤◌, String, ◌≡◌, ◌≢◌, refl, ◌⊎◌, inl, inr, true, false, Option, none, some, List, [], ◌∷◌,
  arith, if◌then◌else◌, ◌==◌, string_eq, str_iff, Bool-cases, All,
}
use nebula_ca_harness.Prelude.Dict.{Dict, lookup, lookup-put, lookup-nil}
use nebula_ca_harness.Registry.{
  Host, Allocation, first_ip, precedes, insert_sorted, sorted, replay_one, replay_all, reconcile,
}

abbrev pub ip_of : Option Host → Option String
ip_of none = none
ip_of (some host) = some host.ip

-- The address in the first record of a name.
abbrev pub earliest : String → List Allocation → Option String
earliest n [] = none
earliest n (r ∷ rs) = if r.name == n then some r.ip else earliest n rs

abbrev or_else : Option String → Option String → Option String
or_else (some a) o = some a
or_else none o = o

replay_one-ip :
    (n : String) (r : Allocation) (hosts : Dict String Host)
    → ip_of (lookup n (replay_one r hosts))
      ≡ or_else (ip_of (lookup n hosts)) (if r.name == n then some r.ip else none)
unfolding replay_one
replay_one-ip n r hosts = elim (Bool-cases (r.name == n)) [
  | inl same ↦
      let e = (str_iff r.name n).0 same in
      rw lookup-put (rw e (rw ((str_iff n n).1 refl) (known (lookup n hosts))))
  | inr differ ↦ rw lookup-put (rw differ (unknown (lookup n hosts)))
]
  where
    known : (o : Option Host) → some (first_ip o r.ip) ≡ or_else (ip_of o) (some r.ip)
    known none = refl
    known (some host) = refl

    unknown : (o : Option Host) → ip_of o ≡ or_else (ip_of o) none
    unknown none = refl
    unknown (some host) = refl

replay_all-ip :
    (n : String) (rs : List Allocation) (hosts : Dict String Host)
    → ip_of (lookup n (replay_all rs hosts)) ≡ or_else (ip_of (lookup n hosts)) (earliest n rs)
unfolding replay_all
replay_all-ip n [] hosts = ground arith
replay_all-ip n (r ∷ rs) hosts =
    ground (arith, replay_all-ip n rs (replay_one r hosts), replay_one-ip n r hosts)

-- A record is in a list.
abbrev pub Member : Allocation → List Allocation → Type 0
Member r [] = ⊥
Member r (x ∷ xs) = (r ≡ x) ⊎ Member r xs

abbrev IsSorted : List Allocation → Type 0
IsSorted [] = Unit
IsSorted (r ∷ rs) = All (λ x. r.seq ≤ x.seq) rs × IsSorted rs

precedes→le : (a b : Allocation) → precedes a b ≡ true → a.seq ≤ b.seq
unfolding precedes
precedes→le a b h = ground arith

not-precedes→le : (a b : Allocation) → precedes a b ≡ false → b.seq ≤ a.seq
unfolding precedes
not-precedes→le a b h = ground arith

insert_sorted-All :
    (P : Allocation → Type 0) (a : Allocation) (bs : List Allocation)
    → P a
    → All P bs
    → All P (insert_sorted a bs)
unfolding insert_sorted
insert_sorted-All P a [] h t = (h, tt)
insert_sorted-All P a (b ∷ bs) h (x, t) = elim (Bool-cases (precedes b a)) [
  | inl e ↦ rw e (x, insert_sorted-All P a bs h t)
  | inr e ↦ rw e (h, (x, t))
]

insert_sorted-All-inv :
    (P : Allocation → Type 0) (a : Allocation) (bs : List Allocation)
    → All P (insert_sorted a bs)
    → P a × All P bs
unfolding insert_sorted
insert_sorted-All-inv P a [] h = h
insert_sorted-All-inv P a (b ∷ bs) h = elim (Bool-cases (precedes b a)) [
  | inl e ↦
      let h' = rw e at h in let (pa, rest) = insert_sorted-All-inv P a bs h'.1 in (pa, (h'.0, rest))
  | inr e ↦ rw e at h
]

seq-All :
    (n m : ℕ) (bs : List Allocation) → n ≤ m → All (λ x. m ≤ x.seq) bs → All (λ x. n ≤ x.seq) bs
seq-All n m [] le h = tt
seq-All n m (b ∷ bs) le (x, h) = (omega (arith, le, x), seq-All n m bs le h)

insert_sorted-IsSorted :
    (a : Allocation) (bs : List Allocation) → IsSorted bs → IsSorted (insert_sorted a bs)
unfolding insert_sorted
insert_sorted-IsSorted a [] s = (tt, tt)
insert_sorted-IsSorted a (b ∷ bs) (low, s) = elim (Bool-cases (precedes b a)) [
  | inl e ↦ rw e (
    insert_sorted-All (λ x. b.seq ≤ x.seq) a bs (precedes→le b a e) low,
    insert_sorted-IsSorted a bs s,
  )
  | inr e ↦ let le = not-precedes→le b a e in rw e ((le, seq-All a.seq b.seq bs le low), (low, s))
]

sorted-IsSorted : (rs : List Allocation) → IsSorted (sorted rs)
unfolding sorted
sorted-IsSorted [] = tt
sorted-IsSorted (r ∷ rs) = insert_sorted-IsSorted r (sorted rs) (sorted-IsSorted rs)

sorted-All-inv : (P : Allocation → Type 0) (rs : List Allocation) → All P (sorted rs) → All P rs
unfolding sorted
sorted-All-inv P [] h = tt
sorted-All-inv P (r ∷ rs) h =
    let (p, rest) = insert_sorted-All-inv P r (sorted rs) h in (p, sorted-All-inv P rs rest)

insert_sorted-Member :
    (r a : Allocation) (bs : List Allocation)
    → Member r (insert_sorted a bs)
    → (r ≡ a) ⊎ Member r bs
unfolding insert_sorted
insert_sorted-Member r a [] h = h
insert_sorted-Member r a (b ∷ bs) h = elim (Bool-cases (precedes b a)) [
  | inl e ↦ elim (rw e at h) [
    | inl same ↦ inr (inl same)
    | inr rest ↦ elim (insert_sorted-Member r a bs rest) [
      | inl same ↦ inl same
      | inr there ↦ inr (inr there)
    ]
  ]
  | inr e ↦ rw e at h
]

sorted-Member : (r : Allocation) (rs : List Allocation) → Member r (sorted rs) → Member r rs
unfolding sorted
sorted-Member r [] h = h
sorted-Member r (a ∷ rs) h = elim (insert_sorted-Member r a (sorted rs) h) [
  | inl same ↦ inl same
  | inr there ↦ inr (sorted-Member r rs there)
]

-- A record of the name that no record of the name is older than, with the address.
abbrev pub IsFirstCome : String → List Allocation → String → Type 0
IsFirstCome n rs ip =
    (r : Allocation) × Member r rs
    × (r.name ≡ n)
    × (r.ip ≡ ip)
    × All (λ x. (x.name ≢ n) ⊎ (r.seq ≤ x.seq)) rs

-- What the rebuilt registry says of a name, given the records.
abbrev pub IsRebuilt : String → List Allocation → Option String → Type 0
IsRebuilt n rs none = All (λ x. x.name ≢ n) rs
IsRebuilt n rs (some ip) = IsFirstCome n rs ip

right-All :
    (n : String) (m : ℕ) (rs : List Allocation)
    → All (λ x. m ≤ x.seq) rs
    → All (λ x. (x.name ≢ n) ⊎ (m ≤ x.seq)) rs
right-All n m [] h = tt
right-All n m (r ∷ rs) (x, h) = (inr x, right-All n m rs h)

skip :
    (n : String) (r : Allocation) (rs : List Allocation) (o : Option String)
    → (r.name ≢ n)
    → IsRebuilt n rs o
    → IsRebuilt n (r ∷ rs) o
skip n r rs none ne h = (ne, h)
skip n r rs (some ip) ne (x, there, name, addr, low) = (x, inr there, name, addr, (inl ne, low))

earliest-IsRebuilt :
    (n : String) (rs : List Allocation) → IsSorted rs → IsRebuilt n rs (earliest n rs)
earliest-IsRebuilt n [] s = tt
earliest-IsRebuilt n (r ∷ rs) (low, s) = elim (Bool-cases (r.name == n)) [
  | inl e ↦
      rw e
        (r, inl refl, (str_iff r.name n).0 e, refl, (inr (omega arith), right-All n r.seq rs low))
  | inr e ↦ rw e (
      skip n r rs (earliest n rs) (λ same. absurd (cc (e, (str_iff r.name n).1 same)))
        (earliest-IsRebuilt n rs s))
]

unsort :
    (n : String) (rs : List Allocation) (o : Option String)
    → IsRebuilt n (sorted rs) o
    → IsRebuilt n rs o
unsort n rs none h = sorted-All-inv (λ x. x.name ≢ n) rs h
unsort n rs (some ip) (r, there, name, addr, low) = (
  r,
  sorted-Member r rs there,
  name,
  addr,
  sorted-All-inv (λ x. (x.name ≢ n) ⊎ (r.seq ≤ x.seq)) rs low,
)

-- In the registry that `reconcile` rebuilds from any records, a name has a host if and only if some
-- record bears the name, and the host's address is the one in a record of the name that has the
-- least `seq` of all the records of the name.
pub reconcile-IsRebuilt :
    (n cidr : String) (rs : List Allocation)
    → IsRebuilt n rs (ip_of (lookup n (reconcile rs cidr).hosts))
unfolding reconcile
reconcile-IsRebuilt n cidr rs = unsort n rs (ip_of (lookup n (reconcile rs cidr).hosts)) (
    rw (replay_all-ip n (sorted rs) [], lookup-nil n)
      (earliest-IsRebuilt n (sorted rs) (sorted-IsSorted rs)))

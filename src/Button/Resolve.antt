-- ===== src/Button/Resolve.antt =====
-- Which device is taken for K1 (`resolve_k1_path` of box/lib/causb/button.py).
use nebula_ca_harness.Prelude.{
  String, ◌≡◌, refl, ap, true, false, none, some, Option-cases, inl, inr, List, [], ◌∷◌, ◌++◌, All,
  contains, nat_eq, arith, ok,
}
use nebula_ca_harness.Button.{
  Device, k1_code, mask_code, is_gpio_keys, candidate_path, candidates, only_path, resolve_k1_path,
}

-- A device with K1's name that has its key, and not the recovery key, at the path.
abbrev pub IsK1 : Device → String → Type 0
IsK1 d path =
    (contains d.key_bits k1_code ≡ true)
    × (contains d.key_bits mask_code ≡ false)
    × (is_gpio_keys d.name ≡ true)
    × (d.event_path ≡ some path)

abbrev pub IsOther : Device → Type 0
IsOther d = candidate_path d ≡ none

-- The only one of the devices that is a candidate, and where it stands.
abbrev pub IsOnly : List Device → String → Type 0
IsOnly ds path =
    (xs : List Device) × (d : Device) × (ys : List Device) × (ds ≡ xs ++ (d ∷ ys))
    × All IsOther xs
    × IsK1 d path
    × All IsOther ys

candidate_path-IsK1 : (d : Device) (path : String) → candidate_path d ≡ some path → IsK1 d path
unfolding candidate_path
candidate_path-IsK1 d path h = ground arith

candidates-nil : (ds : List Device) → candidates ds ≡ [] → All IsOther ds
unfolding candidates
candidates-nil [] h = tt
candidates-nil (d ∷ ds) h = elim (Option-cases (candidate_path d)) [
  | inl e ↦ (e, candidates-nil ds (rw (e, candidates) at h))
  | inr (p, e) ↦ absurd (cc (rw (e, candidates) at h))
]

tail_nil : (p path : String) (ps : List String) → (p ∷ ps) ≡ (path ∷ []) → (p ≡ path) × (ps ≡ [])
tail_nil p path [] h = (cc, refl)
tail_nil p path (q ∷ ps) h = absurd cc

candidates-IsOnly : (ds : List Device) (path : String) → candidates ds ≡ path ∷ [] → IsOnly ds path
unfolding candidates
candidates-IsOnly [] path h = absurd cc
candidates-IsOnly (d ∷ ds) path h = elim (Option-cases (candidate_path d)) [
  | inl e ↦
      let (xs, k, ys, split, before, is_k1, after) =
        candidates-IsOnly ds path (rw (e, candidates) at h) in
      (d ∷ xs, k, ys, ap (λ zs. d ∷ zs) split, (e, before), is_k1, after)
  | inr (p, e) ↦
      let h' : (p ∷ candidates ds) ≡ (path ∷ []) = rw (e, candidates) at h in
      let (same, rest) = tail_nil p path (candidates ds) h' in
      ([], d, ds, refl, tt, candidate_path-IsK1 d path (cc (e, same)), candidates-nil ds rest)
]

only_path-eq-ok :
    (paths : List String) (path : String) → only_path paths ≡ ok path → paths ≡ path ∷ []
only_path-eq-ok [] path h = absurd cc
only_path-eq-ok (p ∷ []) path h = cc
only_path-eq-ok (p ∷ q ∷ paths) path h = absurd cc

-- A path is taken for K1's only if a single one of the devices is a candidate, and that one bears the
-- name gpio-keys, has key 257 and not the recovery key 158, and stands at that path.
pub resolve_k1_path-IsOnly :
    (devices : List Device) (path : String)
    → resolve_k1_path devices ≡ ok path
    → IsOnly devices path
unfolding resolve_k1_path
resolve_k1_path-IsOnly devices path h =
    candidates-IsOnly devices path (only_path-eq-ok (candidates devices) path h)

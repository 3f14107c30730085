-- ===== src/Mountctl/Pinned.antt =====
-- The pinned mount of box/lib/causb/mountctl.py.
use nebula_ca_harness.Prelude.{
  String, ◌≡◌, refl, ◌↔◌, ap, Bool, true, false, ◌&&◌, Option, none, some, Bool-cases, inl, inr,
  List, [], ◌∷◌, ◌++◌, string_eq, str_iff, ok, ◌≢◌, ◌⊎◌, All, sym, subst, ◌∙◌, some_inj, arith,
  ◌==◌,
}
use nebula_ca_harness.Text.{is_newline, lines_by, words}
use nebula_ca_harness.Mountctl.{
  Event, ran, Machine, is_zero, is_vfat, fstype_of, mounted_fstype, mount_argv, mount_ro,
}

is_vfat_iff : (o : Option String) → (is_vfat o ≡ true) ↔ (o ≡ some "vfat")
is_vfat_iff none = (λ h. absurd cc, λ h. absurd cc)
is_vfat_iff (some t) = (λ h. ap some ((str_iff t "vfat").0 h), λ h. (str_iff t "vfat").1 cc)

-- A line of /proc/mounts that is not a device, this mount point and a type.
abbrev pub IsOther : String → String → Type 0
IsOther mp line =
    (device fstype : String) (rest : List String) → words line ≢ device ∷ mp ∷ fstype ∷ rest

-- The first line for the mount point gives this type.
abbrev pub IsMountedAs : String → String → List String → Type 0
IsMountedAs mp fstype lines =
    (earlier : List String) × (line : String) × (later : List String) × (device : String)
    × (rest : List String) × (lines ≡ earlier ++ (line ∷ later))
    × All (IsOther mp) earlier
    × (words line ≡ device ∷ mp ∷ fstype ∷ rest)

tail_head : {a b c x y z : String} {us vs : List String} → a ∷ x ∷ b ∷ us ≡ c ∷ y ∷ z ∷ vs → x ≡ y
tail_head h = cc

-- A line tells of the mount point, or of none or another.
fstype_of-cases :
    (mp : String) (fields : List String)
    → ((device fstype : String) × (rest : List String) × (fields ≡ device ∷ mp ∷ fstype ∷ rest)
        × (fstype_of mp fields ≡ some fstype))
      ⊎ (((device fstype : String) (rest : List String) → fields ≢ device ∷ mp ∷ fstype ∷ rest)
          × (fstype_of mp fields ≡ none))
fstype_of-cases mp [] = inr (λ d f r e. absurd cc, refl)
fstype_of-cases mp (x ∷ []) = inr (λ d f r e. absurd cc, refl)
fstype_of-cases mp (x ∷ y ∷ []) = inr (λ d f r e. absurd cc, refl)
fstype_of-cases mp (device ∷ y ∷ fstype ∷ rest) = elim (Bool-cases (y == mp)) [
  | inl same ↦ inl (device, fstype, rest, rw ((str_iff y mp).0 same) refl, rw same refl)
  | inr other ↦
      inr (λ d f r e. absurd (ground (arith, str_iff y mp, other, tail_head e)), rw other refl)
]

type_of : {a b c x y z : String} {us vs : List String} → a ∷ x ∷ b ∷ us ≡ c ∷ y ∷ z ∷ vs → b ≡ z
type_of h = cc

-- A first line that tells of the mount point is the one that counts.
named_first :
    (mp fstype t line : String) (lines : List String) (device : String) (rest : List String)
    → words line ≡ device ∷ mp ∷ t ∷ rest
    → IsMountedAs mp fstype (line ∷ lines)
    → t ≡ fstype
named_first mp fstype t line lines device rest fields ([], l, later, d, r, split, _, h) =
    let same : line ≡ l = cc in type_of (sym fields ∙ ap words same ∙ h)
named_first mp fstype t line lines device rest fields
      (l ∷ earlier, _, later, d, r, split, (o, _), h) =
    let same : line ≡ l = cc in absurd (o device t rest (sym (ap words same) ∙ fields))

later_line :
    (mp fstype line : String) (lines : List String)
    → IsOther mp line
    → IsMountedAs mp fstype lines
    → IsMountedAs mp fstype (line ∷ lines)
later_line mp fstype line lines others (earlier, l, later, d, r, split, o, h) =
    (line ∷ earlier, l, later, d, r, ap (λ ls. line ∷ ls) split, (others, o), h)

not_first :
    (mp fstype line : String) (lines : List String)
    → IsOther mp line
    → IsMountedAs mp fstype (line ∷ lines)
    → IsMountedAs mp fstype lines
not_first mp fstype line lines others ([], l, later, d, r, split, o, h) =
    let same : line ≡ l = cc in absurd (others d fstype r (ap words same ∙ h))
not_first mp fstype line lines others (x ∷ earlier, l, later, d, r, split, (_, o), h) =
    (earlier, l, later, d, r, cc, o, h)

not_empty : (mp fstype : String) → IsMountedAs mp fstype [] → ⊥
not_empty mp fstype ([], l, later, d, r, split, o, h) = absurd cc
not_empty mp fstype (x ∷ earlier, l, later, d, r, split, o, h) = absurd cc

mounted_fstype_iff :
    (mp fstype : String) (lines : List String)
    → (mounted_fstype mp lines ≡ some fstype) ↔ IsMountedAs mp fstype lines
unfolding mounted_fstype
mounted_fstype_iff mp fstype [] = (λ h. absurd cc, λ h. absurd (not_empty mp fstype h))
mounted_fstype_iff mp fstype (line ∷ lines) = elim (fstype_of-cases mp (words line)) [
  | inl (device, t, rest, fields, e) ↦ (
    λ h.
        let same : t ≡ fstype = some_inj (rw (e, mounted_fstype) at h) in
        (
          [],
          line,
          lines,
          device,
          rest,
          refl,
          tt,
          subst (λ f. words line ≡ device ∷ mp ∷ f ∷ rest) same fields,
        ),
    λ h. rw (e, mounted_fstype) (ap some (named_first mp fstype t line lines device rest fields h)),
  )
  | inr (others, e) ↦
      let (found, back) = mounted_fstype_iff mp fstype lines in
      (
        λ h. later_line mp fstype line lines others (found (rw (e, mounted_fstype) at h)),
        λ h. rw (e, mounted_fstype) (back (not_first mp fstype line lines others h)),
      )
]

-- What `mount` may be run with: the type is vfat, and the stick is read-only, with no programs, no
-- set-user-id bits and no devices.
abbrev pub pinned_mount : String → String → List String
pinned_mount dev mp =
    "mount" ∷ "-t" ∷ "vfat" ∷ "-o" ∷ "ro,noexec,nosuid,nodev,iocharset=ascii,utf8=0" ∷ dev ∷ mp ∷ []

-- The command exits with 0, and then /proc/mounts says vfat of the mount point.
abbrev pub IsMounted : Machine → String → String → List Event → Type 0
IsMounted m dev mp before =
    (is_zero (m.runner before (pinned_mount dev mp)).returncode ≡ true)
    × IsMountedAs mp "vfat"
        (lines_by is_newline (m.mounts (before ++ (ran (pinned_mount dev mp) ∷ []))))

and_inv : (a b : Bool) → (a && b) ≡ true → (a ≡ true) × (b ≡ true)
and_inv true b h = (refl, h)
and_inv false b h = absurd cc

-- `mount_ro` runs one command, `mount -t vfat -o ro,noexec,nosuid,nodev,iocharset=ascii,utf8=0` for the
-- device and the mount point, and returns if and only if that exits with 0 and the first line of
-- /proc/mounts for the mount point, read after it, then gives the type vfat.
pub mount_ro_iff :
    (m : Machine) (dev mp : String) (before : List Event)
    → ((mount_ro m dev mp before).events ≡ before ++ (ran (pinned_mount dev mp) ∷ []))
      × (((mount_ro m dev mp before).result ≡ ok tt) ↔ IsMounted m dev mp before)
unfolding mount_ro
mount_ro_iff m dev mp before =
    let zero_code = is_zero (m.runner before (mount_argv dev mp)).returncode in
    let lines = lines_by is_newline (m.mounts (before ++ (ran (mount_argv dev mp) ∷ []))) in
    let fstype = mounted_fstype mp lines in
    let (found, back) = mounted_fstype_iff mp "vfat" lines in
    elim (Bool-cases (zero_code && is_vfat fstype)) [
      | inl e ↦
          let (z, v) = and_inv zero_code (is_vfat fstype) e in
          rw (e, mount_ro) (refl, (λ h. (z, found ((is_vfat_iff fstype).0 v)), λ h. refl))
      | inr e ↦
          rw (e, mount_ro)
            (refl, (λ h. absurd cc, λ (z, v). absurd (cc (e, z, (is_vfat_iff fstype).1 (back v)))))
    ]

-- ===== src/Verify/Cosign.antt =====
-- What a signature check of box/lib/causb/verify.py that passes has seen.
use nebula_ca_harness.Prelude.{
  ℕ, String, ◌≡◌, refl, subst, ◌↔◌, inl, inr, Bool, true, false, not, ◌||◌, Option, none, some,
  Option-cases, Bool-cases, some_inj, List, [], ◌∷◌, All, arith, Result, ok, err, ◌>>=◌, require,
  bind_inv, require_inv, ok-injective,
}
use nebula_ca_harness.Mountctl.{is_zero}
use nebula_ca_harness.Text.{ends_line, lines_by}
use nebula_ca_harness.Verify.{
  Reason, verify_failed, cosign_failed, value_error, Completed, Tools, is_abs, not_blank, only_line,
  principal_of, find_argv, verify_argv, Blob, has_blob, intersects, is_empty, folded,
  find_principal, verify_bytes, authenticate, verify_against_anchor, verify, key_blobs,
  verify_cosign,
}

-- `find-principals` on the one anchor file exits with 0 and prints one line that is not blank, the
-- principal, and `verify` exits with 0 for it on the bytes of the tar.
abbrev pub Vouches : Tools → String → String → String → String → Type 0
Vouches t tar sig anchor principal =
    (c : Completed) × (out : String) × (b : List ℕ) × (v : Completed) × (t.run
        (find_argv sig anchor) []
      ≡ some c)
    × (is_zero c.returncode ≡ true)
    × (c.stdout ≡ some out)
    × (only_line (not_blank (lines_by ends_line out)) ≡ some principal)
    × (t.bytes tar ≡ some b)
    × (t.run (verify_argv sig anchor principal) b ≡ some v)
    × (is_zero v.returncode ≡ true)

folded_inv {ℓ} :
    {A : Type ℓ} (reason : Reason) (o : Option A) {a : A} → folded reason o ≡ ok a → o ≡ some a
folded_inv reason none h = absurd cc
folded_inv reason (some a) h = cc

-- The form of what `find_principal` found.
abbrev Found : Tools → String → String → String → Type 0
Found t sig anchor p =
    (c : Completed) × (out : String) × (t.run (find_argv sig anchor) [] ≡ some c)
    × (is_zero c.returncode ≡ true)
    × (c.stdout ≡ some out)
    × (only_line (not_blank (lines_by ends_line out)) ≡ some p)

find_principal_inv :
    (t : Tools) (sig anchor : String) {p : String}
    → find_principal t sig anchor ≡ some (some p)
    → Found t sig anchor p
unfolding find_principal principal_of
find_principal_inv t sig anchor h = elim (Option-cases (t.run (find_argv sig anchor) [])) [
  | inl e ↦ absurd (cc (rw (e, find_principal) at h))
  | inr (c, e) ↦ elim (Bool-cases (is_zero c.returncode)) [
    | inl z ↦ elim (Option-cases c.stdout) [
      | inl e' ↦ absurd (cc (rw (e, z, e', find_principal) at h))
      | inr (out, e') ↦ (c, out, e, z, e', some_inj (rw (e, z, e', find_principal) at h))
    ]
    | inr z ↦ absurd (cc (rw (e, z, find_principal) at h))
  ]
]

verify_bytes_inv :
    (t : Tools) (tar sig anchor p : String)
    → verify_bytes t tar sig anchor p ≡ some true
    → (b : List ℕ) × (v : Completed) × (t.bytes tar ≡ some b)
      × (t.run (verify_argv sig anchor p) b ≡ some v)
      × (is_zero v.returncode ≡ true)
unfolding verify_bytes
verify_bytes_inv t tar sig anchor p h = elim (Option-cases (t.bytes tar)) [
  | inl e ↦ absurd (cc (rw (e, verify_bytes) at h))
  | inr (b, e) ↦ elim (Option-cases (t.run (verify_argv sig anchor p) b)) [
    | inl e' ↦ absurd (cc (rw (e, e', verify_bytes) at h))
    | inr (v, e') ↦ (b, v, e, e', some_inj (rw (e, e', verify_bytes) at h))
  ]
]

authenticate_sound :
    (t : Tools) (reason : Reason) (tar sig anchor p : String)
    → authenticate t reason tar sig anchor ≡ ok p
    → Vouches t tar sig anchor p
unfolding authenticate
authenticate_sound t reason tar sig anchor p h =
    bind_inv (folded reason (find_principal t sig anchor)) h λ found e1 h1.
      bind_inv (folded reason found) h1 λ q e2 h2.
        bind_inv (folded reason (verify_bytes t tar sig anchor q)) h2 λ good e3 h3.
          require_inv good reason h3 λ e4 h4.
            vouch q (ok-injective h4)
              (cc (folded_inv reason (find_principal t sig anchor) e1, folded_inv reason found e2))
              (cc (folded_inv reason (verify_bytes t tar sig anchor q) e3, e4))
  where
    vouch :
        (q : String)
        → q ≡ p
        → find_principal t sig anchor ≡ some (some q)
        → verify_bytes t tar sig anchor q ≡ some true
        → Vouches t tar sig anchor p
    vouch q same found good =
        let (c, out, e, z, e', one) = find_principal_inv t sig anchor found in
        let (b, v, r, r', z') = verify_bytes_inv t tar sig anchor q good in
        subst (λ x. Vouches t tar sig anchor x) same (c, out, b, v, e, z, e', one, r, r', z')

authenticate_complete :
    (t : Tools) (reason : Reason) (tar sig anchor p : String)
    → Vouches t tar sig anchor p
    → authenticate t reason tar sig anchor ≡ ok p
unfolding authenticate find_principal principal_of verify_bytes
authenticate_complete t reason tar sig anchor p (c, out, b, v, e, z, e', one, r, r', z') =
    rw (e, z, e', one, r, r', z', find_principal, verify_bytes) refl

-- `verify` accepts a tar and names a principal if and only if the anchor's path is absolute, the
-- program `ssh-keygen` found exactly this principal for the signature in that one file, and verified
-- the principal's signature of the tar's bytes; all exit codes were 0.
pub verify_iff :
    (t : Tools) (tar sig allowed principal : String)
    → (verify t tar sig allowed ≡ ok principal)
      ↔ ((is_abs allowed ≡ true) × Vouches t tar sig allowed principal)
unfolding verify verify_against_anchor
verify_iff t tar sig allowed principal = (
  λ h.
      require_inv (is_abs allowed) value_error h
        λ e h'. (e, authenticate_sound t verify_failed tar sig allowed principal h'),
  λ (e, v). rw e (authenticate_complete t verify_failed tar sig allowed principal v),
)

-- Two key sets, neither of them empty, have no key in common.
abbrev pub AreApart : List Blob → List Blob → Type 0
AreApart as' bs =
    (is_empty as' ≡ false) × (is_empty bs ≡ false) × All (λ b. has_blob bs b ≡ false) as'

apart-All : (as' bs : List Blob) → intersects as' bs ≡ false → All (λ b. has_blob bs b ≡ false) as'
apart-All [] bs h = tt
apart-All (a ∷ as') bs h = elim (Bool-cases (has_blob bs a)) [
  | inl e ↦ absurd (cc (rw e at h))
  | inr e ↦ (e, apart-All as' bs (rw e at h))
]

not_inv : (b : Bool) → not b ≡ true → b ≡ false
not_inv b h = ground arith

or_inv : (a b : Bool) → (a || b) ≡ false → (a ≡ false) × (b ≡ false)
or_inv true b h = absurd cc
or_inv false b h = (refl, h)

-- What `verify_cosign` has established when it returns.
abbrev pub IsCosigned : Tools → String → String → String → String → Type 0
IsCosigned t tar bg_sig breakglass allowed =
    (principal : String) × (allowed_keys : List Blob) × (breakglass_keys : List Blob) × Vouches t
      tar bg_sig breakglass principal
    × (key_blobs t allowed ≡ some allowed_keys)
    × (key_blobs t breakglass ≡ some breakglass_keys)
    × AreApart allowed_keys breakglass_keys

-- When `verify_cosign` returns, a principal of the break-glass anchor file alone has signed the tar's
-- bytes, both anchor files hold at least one key, and no key stands in both files.
pub verify_cosign-IsCosigned :
    (t : Tools) (tar bg_sig breakglass allowed : String)
    → verify_cosign t tar bg_sig breakglass allowed ≡ ok tt
    → IsCosigned t tar bg_sig breakglass allowed
unfolding verify_cosign
verify_cosign-IsCosigned t tar bg_sig breakglass allowed h =
    require_inv (is_abs breakglass) value_error h λ e1 h1.
      require_inv (is_abs allowed) value_error h1 λ e2 h2.
        bind_inv (authenticate t cosign_failed tar bg_sig breakglass) h2 λ p e3 h3.
          bind_inv (folded cosign_failed (key_blobs t allowed)) h3 λ as' e4 h4.
            bind_inv (folded cosign_failed (key_blobs t breakglass)) h4 λ bs e5 h5.
              require_inv (not (is_empty as' || is_empty bs)) cosign_failed h5 λ e6 h6.
                require_inv (not (intersects as' bs)) cosign_failed h6 λ e7 h7.
                  let filled =
                    or_inv (is_empty as') (is_empty bs)
                      (not_inv (is_empty as' || is_empty bs) e6) in
                  (
                    p,
                    as',
                    bs,
                    authenticate_sound t cosign_failed tar bg_sig breakglass p e3,
                    folded_inv cosign_failed (key_blobs t allowed) e4,
                    folded_inv cosign_failed (key_blobs t breakglass) e5,
                    (filled.0, filled.1, apart-All as' bs (not_inv (intersects as' bs) e7)),
                  )

-- An error of a chain is an error of its first step or of the rest.
bind_err {ℓ κ} :
    {A : Type ℓ} {B : Type κ} (m : Result Reason A) (f : A → Result Reason B) (e : Reason)
    (r : Reason)
    → (m ≡ err e → e ≡ r)
    → ((a : A) → f a ≡ err e → e ≡ r)
    → (m >>= f) ≡ err e
    → e ≡ r
bind_err (ok a) f e r first rest h = rest a h
bind_err (err x) f e r first rest h = first (cc h)

folded_err {ℓ} :
    {A : Type ℓ} (reason : Reason) (o : Option A) (e : Reason)
    → folded reason o ≡ err e
    → e ≡ reason
folded_err reason none e h = cc
folded_err reason (some a) e h = absurd cc

require_err : (b : Bool) (reason e : Reason) → require b reason ≡ err e → e ≡ reason
require_err true reason e h = absurd cc
require_err false reason e h = cc

authenticate_err :
    (t : Tools) (reason : Reason) (tar sig anchor : String) (e : Reason)
    → authenticate t reason tar sig anchor ≡ err e
    → e ≡ reason
unfolding authenticate
authenticate_err t reason tar sig anchor e h =
    bind_err (folded reason (find_principal t sig anchor)) _ e reason
      (folded_err reason (find_principal t sig anchor) e)
      (λ found. bind_err (folded reason found) _ e reason (folded_err reason found e) (λ q.
        bind_err (folded reason (verify_bytes t tar sig anchor q)) _ e reason
          (folded_err reason (verify_bytes t tar sig anchor q) e)
          (λ good.
            bind_err (require good reason) _ e reason (require_err good reason e)
              (λ _ h'. absurd cc))))
      h

-- With absolute anchor paths, whatever goes wrong in `verify_cosign` (a command, a file, a principal, a
-- signature, an empty or a shared key set) is reported as `cosign_failed`, and as nothing else.
pub verify_cosign_err :
    (t : Tools) (tar bg_sig breakglass allowed : String) (e : Reason)
    → is_abs breakglass ≡ true
    → is_abs allowed ≡ true
    → verify_cosign t tar bg_sig breakglass allowed ≡ err e
    → e ≡ cosign_failed
unfolding verify_cosign
verify_cosign_err t tar bg_sig breakglass allowed e abs1 abs2 h =
    bind_err (authenticate t cosign_failed tar bg_sig breakglass) _ e cosign_failed
      (authenticate_err t cosign_failed tar bg_sig breakglass e)
      (λ p.
        bind_err (folded cosign_failed (key_blobs t allowed)) _ e cosign_failed
          (folded_err cosign_failed (key_blobs t allowed) e)
          (λ as'.
            bind_err (folded cosign_failed (key_blobs t breakglass)) _ e cosign_failed
              (folded_err cosign_failed (key_blobs t breakglass) e)
              (λ bs.
                bind_err (require (not (is_empty as' || is_empty bs)) cosign_failed) _ e
                  cosign_failed (require_err (not (is_empty as' || is_empty bs)) cosign_failed e)
                  (λ _.
                    bind_err (require (not (intersects as' bs)) cosign_failed) _ e cosign_failed
                      (require_err (not (intersects as' bs)) cosign_failed e)
                      (λ _ h'. absurd cc)))))
      (rw (abs1, abs2) at h)

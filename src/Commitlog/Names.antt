-- ===== src/Commitlog/Names.antt =====
-- The temporary names of `_atomic_write`: a name that ends in `.tmp` is none of the control files.
use Prim.Native.Char.{code}
use Prim.Native.String.{◌++◌ as ◌<>◌}
use Prim.Native.String.append
use nebula_ca_harness.Prelude.{ℕ, String, ◌≡◌, ◌≢◌, refl, ap, arith}

-- The last character, or `d`.
last_code : ℕ → String → ℕ
last_code d String.[] = d
last_code d (String.◌∷◌ c s) = last_code (code c) s

last_code-tmp : (d : ℕ) (s : String) → last_code d (s <> ".tmp") ≡ b'p'
unfolding last_code
last_code-tmp d String.[] = refl
last_code-tmp d (String.◌∷◌ c s) = rw append.cons (last_code-tmp (code c) s)

pub tmp-ne-done : (s : String) → s <> ".tmp" ≢ "DONE"
unfolding last_code
tmp-ne-done s h = absurd (omega (arith, ap (last_code 0) h, last_code-tmp 0 s))

pub tmp-ne-status : (s : String) → s <> ".tmp" ≢ "status.json"
unfolding last_code
tmp-ne-status s h = absurd (omega (arith, ap (last_code 0) h, last_code-tmp 0 s))

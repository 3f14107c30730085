-- ===== src/Freshness.antt =====
-- box/lib/causb/freshness.py: box identity, clock, sequence number and replay, against the caches
-- `seq` and `consumed-jobs` of the store. The job ids are uuid4 texts, so a line of
-- `consumed-jobs` is its own `strip()`.
pub mod Admission
use nebula_ca_harness.Prelude.{
  ℕ, String, Bool, not, ◌&&◌, contains, leb, ◌==◌, string_eq, if◌then◌else◌,
}
use nebula_ca_harness.Manifest.{Manifest}
use nebula_ca_harness.Commitlog.{Store}

-- The strings that `check` returns.
pub data Verdict : Type 0 where
  fresh replay wrong_box clock_insane stale_seq : Verdict

-- `config.BOX_NAME`
abbrev pub box_name : String
box_name = "nebula-ca"

unfoldable pub clock_sane : ℕ → Bool
clock_sane now_year = leb 2026 now_year

unfoldable pub is_consumed : Store → String → Bool
is_consumed s job_id = contains s.consumed job_id

-- `_last_seq`
unfoldable pub last_seq : Store → ℕ
last_seq s = s.seq

unfoldable pub check : Store → Manifest → ℕ → String → Verdict
unfolding clock_sane is_consumed last_seq
check s manifest now_year op =
    if not (manifest.box == box_name)
    then wrong_box
    else if not (op == "set-time") && not (clock_sane now_year)
    then clock_insane
    else if leb manifest.seq (last_seq s)
    then stale_seq
    else if is_consumed s manifest.job_id
    then replay
    else fresh

-- ===== src/FailureLog.antt =====
-- The log of failing spawns (crates/ruscker-admin/src/scaler.rs, `FailureLog`): the first failure
-- and each new error is loud, a repeat is quiet for a window. The hash of an error message is given.
pub mod Rearm
use ruscker.Prelude.{
  ℕ, ◌+◌, ◌%◌, String, none, some, List, leb, if◌then◌else◌, ◌==◌, nat_key, string_key, pair_key,
}
use ruscker.Prelude.Assoc

abbrev pub failure_warn_window : ℕ
failure_warn_window = 300000000000

pub record FailState : Type 0 where
  pub hash : ℕ
  pub count : ℕ
  pub next_warn : ℕ

abbrev pub FailureLog : Type 0
FailureLog = List (String × FailState)

pub data FailVerdict : Type 0 where
  warn : ℕ → FailVerdict
  quiet : ℕ → FailVerdict

-- The same error again. The count is a u32.
abbrev pub repeated : String → ℕ → FailState → FailureLog → FailureLog × FailVerdict
repeated spec_id now st log =
    let n = (st.count + 1) % 4294967296 in
    if leb st.next_warn now
    then (
      Assoc.insert spec_id (record st { count = n; next_warn = now + failure_warn_window }) log,
      warn n,
    )
    else (Assoc.insert spec_id (record st { count = n }) log, quiet n)

abbrev pub rearmed : String → ℕ → ℕ → FailureLog → FailureLog × FailVerdict
rearmed spec_id hash now log = (
  Assoc.insert spec_id (record { hash = hash; count = 1; next_warn = now + failure_warn_window })
      log,
  warn 1,
)

unfoldable pub observe : String → ℕ → ℕ → FailureLog → FailureLog × FailVerdict
observe spec_id hash now log = elim (Assoc.lookup spec_id log) [
  | none ↦ rearmed spec_id hash now log
  | some st ↦ if st.hash == hash then repeated spec_id now st log else rearmed spec_id hash now log
]

unfoldable pub clear : String → FailureLog → FailureLog
clear spec_id log = Assoc.remove spec_id log

-- ===== src/Engine/Types.antt =====
-- Types of crates/hatp-engine/src/lib.rs that its components share: mutations and errors.
use hat_p.Prelude.{ℕ, Bytes}
use hat_p.Prelude.Result.{StdResult}
use Prim.Native.String.{String}

-- The payloads of `io`, `arrow` and `vortex` and the text of `corrupt_message` come from other
-- crates and from `format!`, and are left out.
pub data EngineError : Type 0 where
  io arrow vortex : EngineError
  out_of_range : String → EngineError
  corrupt : String → EngineError
  corrupt_message : EngineError
  empty_batch checksum_mismatch throttled : EngineError
  null_primary_key : String → String → EngineError
  write_conflict : ℕ → Bytes → EngineError
  read_write_conflict : ℕ → Bytes → EngineError

pub data Mutation : Type 0 where
  put : Bytes → Bytes → Mutation
  delete : Bytes → Mutation

-- `pub type Result<T> = std::result::Result<T, EngineError>`
abbrev pub EngineResult {ℓ} : Type ℓ → Type ℓ
EngineResult A = StdResult EngineError A

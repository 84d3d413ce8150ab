-- ===== src/Os.antt =====
-- src/os/mod.rs: the values that the platform layer and `run_impl` exchange. `K` stands for
-- `KillHandle`, whose fields differ by platform.
pub mod Command
pub mod Drain
mod Examples
pub mod Fixtures
pub mod Process
pub mod Unix
pub mod Windows
use aer_core.Base.{ℕ, String, Bool, Option, List}

-- `struct OsHandle`, less the `Child` of std
pub record OsHandle {ℓ} (K : Type ℓ) : Type ℓ where
  pub pid : ℕ
  pub kill : K

-- `enum ChunkMsg`
pub data ChunkMsg : Type 0 where
  stdout : (seq : ℕ) (bytes : List ℕ) → ChunkMsg
  stderr : (seq : ℕ) (bytes : List ℕ) → ChunkMsg

-- `struct SpawnOptions`
pub record SpawnOptions : Type 0 where
  pub env : List (String × String)
  pub clear_env : Bool
  pub cwd : Option String

-- `struct OutputSinks`; `S` is `Sender<ChunkMsg>`
pub record OutputSinks (S : Type 0) : Type 0 where
  pub stdout : Option S
  pub stderr : Option S

-- ===== src/Sandbox.antt =====
-- rl_sim/sandbox.py: the resource profiles and the isolation command. The children are the run of
-- one task, and the pool of workers.
pub mod Task
pub mod Outcome
pub mod Pool
pub mod Metrics
mod Tests
use llm_rl_cpu_poc.Common.{
  ℕ, ◌*◌, String, Bool, true, false, Option, none, some, List, [], ◌∷◌, ◌++◌, ◌==◌, text_key,
  if◌then◌else◌,
}

-- The keys of `PROFILES`.
pub data Tier : Type 0 where
  a b c mock : Tier

-- `profile not in PROFILES` is `none`.
unfoldable pub tier_of : String → Option Tier
tier_of name =
    if name == "A"
    then some a
    else if name == "B"
    then some b
    else if name == "C"
    then some c
    else if name == "MOCK"
    then some mock
    else none

pub record Profile : Type 0 where
  pub cpu_s : ℕ
  pub mem_mb : ℕ
  pub wall_s : ℕ
  pub fsize_mb : ℕ

unfoldable pub profile_of : Tier → Profile
profile_of a = record { cpu_s = 5; mem_mb = 512; wall_s = 10; fsize_mb = 16 }
profile_of b = record { cpu_s = 120; mem_mb = 4096; wall_s = 300; fsize_mb = 256 }
profile_of c = record { cpu_s = 10; mem_mb = 1024; wall_s = 300; fsize_mb = 64 }
profile_of mock = record { cpu_s = 5; mem_mb = 512; wall_s = 10; fsize_mb = 16 }

-- One word of a command line: a plain text, or a text with numbers printed behind it.
pub data Word : Type 0 where
  word : String → Word
  with_number : String → ℕ → Word
  with_pair : String → ℕ → ℕ → Word

-- The ids of nobody are given.
unfoldable pub isolation_prefix : ℕ → ℕ → Bool → List Word
isolation_prefix uid gid false = []
isolation_prefix uid gid true =
    word "unshare"
    ∷ word "-n"
    ∷ word "--"
    ∷ word "setpriv"
    ∷ with_number "--reuid=" uid
    ∷ with_number "--regid=" gid
    ∷ word "--clear-groups"
    ∷ word "--"
    ∷ []

-- The `prlimit` words that both commands share.
unfoldable pub limits : Profile → List Word
limits p =
    word "prlimit"
    ∷ with_number "--as=" (p.mem_mb * 1024 * 1024)
    ∷ with_pair "--cpu=" p.cpu_s p.cpu_s
    ∷ with_number "--fsize=" (p.fsize_mb * 1024 * 1024)
    ∷ []

unfoldable pub build_cmd : ℕ → ℕ → String → Profile → Bool → List Word
unfolding isolation_prefix limits
build_cmd uid gid python p isolated =
    isolation_prefix uid gid isolated
    ++ (limits p ++ (with_pair "--nofile=" 64 64 ∷ word python ∷ word "runner.py" ∷ []))

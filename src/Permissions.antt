-- ===== src/Permissions.antt =====
-- packages/permissions/src: verdicts and their strengths (ports.ts, rules.ts), shared by the rule
-- files, the session's rules, the approvals and the guard of a call.
pub mod Glob
pub mod Rules
pub mod Parse
pub mod Session
pub mod Approvals
pub mod Guard
mod Tests
use lisptc.Prelude.{ℕ, String, Option, none, some}

pub data Verdict : Type 0 where
  allow deny ask : Verdict

pub record Ruling : Type 0 where
  pub verdict : Verdict
  pub reason : Option String

pub data ServerAccess : Type 0 where
  open_access hidden : ServerAccess
  denied : Option String → ServerAccess

abbrev pub strength : Verdict → ℕ
strength allow = 0
strength ask = 1
strength deny = 2

abbrev pub server_strength : ServerAccess → ℕ
server_strength open_access = 0
server_strength (denied reason) = 1
server_strength hidden = 2

-- ===== src/Store/Observation.antt =====
-- crates/store/src/runners.rs: what a call to a runner tells the controller.
use bento.Shared.{ℕ, String, Option, Bool, true, false}
use bento.Shared.Int.{ℤ}

pub data HostHealth : Type 0 where
  unknown ok unreachable mismatched : HostHealth

unfoldable pub placeable : HostHealth → Bool
placeable HostHealth.ok = true
placeable _ = false

-- What one call to a runner produced.
pub record HostSeen : Type 0 where
  pub machine_id : Option String
  pub accepted_epoch : ℤ
  pub arch : Option String
  pub cpu_count : Option ℕ
  pub memory_total_mib : Option ℕ
  pub storage_total_gib : Option ℕ
  pub storage_available_gib : Option ℕ
  pub hypervisor_version : Option String
  pub error : Option String

pub record Observation : Type 0 where
  pub health : HostHealth
  pub last_contact_at : Option ℕ
  pub accepted_epoch : ℤ
  pub arch : Option String
  pub cpu_count : Option ℕ
  pub memory_total_mib : Option ℕ
  pub storage_total_gib : Option ℕ
  pub storage_available_gib : Option ℕ
  pub hypervisor_version : Option String
  pub last_error : Option String

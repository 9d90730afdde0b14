-- ===== src/Runner/Reply.antt =====
-- crates/runner/src/protocol.rs: what a runner answers.
use bento.Shared.{ℕ, Bool, String, List, Option}
use bento.Shared.Int.{ℤ}
use bento.Types.{State}

pub record Health : Type 0 where
  pub protocol : ℕ
  pub machine_id : String
  pub hostname : String
  pub accepted_epoch : ℤ
  pub boot_id : String

pub record Capabilities : Type 0 where
  pub arch : String
  pub cpu_count : ℕ
  pub memory_total_mib : ℕ
  pub storage_total_gib : ℕ
  pub storage_available_gib : ℕ
  pub hypervisor_version : String

pub record Domain : Type 0 where
  pub uuid : String
  pub name : String
  pub state : State

pub record Inventory : Type 0 where
  pub domains : List Domain

pub record CpuTimeSample : Type 0 where
  pub total : ℕ
  pub idle : ℕ

pub record HostSample : Type 0 where
  pub cpu : Option CpuTimeSample
  pub memory_total_bytes : ℕ
  pub memory_available_bytes : ℕ
  pub storage_total_bytes : ℕ
  pub storage_available_bytes : ℕ
  pub cpu_count : ℕ

pub record DomainUsage : Type 0 where
  pub uuid : String
  pub cpu_time_ns : ℕ
  pub vcpus : ℕ
  pub rss_kib : Option ℕ
  pub storage_used_bytes : ℕ

pub record Samples : Type 0 where
  pub host : HostSample
  pub domains : List DomainUsage

pub record NetworkCounts : Type 0 where
  pub bridges : ℕ
  pub routes_added : ℕ
  pub routes_removed : ℕ
  pub routes_unchanged : ℕ

pub record HeldImage : Type 0 where
  pub name : String
  pub checksum : String
  pub already_present : Bool
  pub size : ℕ

pub data Reply : Type 0 where
  health : Health → Reply
  capabilities : Capabilities → Reply
  inventory : Inventory → Reply
  samples : Samples → Reply
  changed : State → Reply
  network_applied : NetworkCounts → Reply
  provisioned : State → Reply
  image_ready : HeldImage → Reply

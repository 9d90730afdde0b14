-- ===== src/Runner/Protocol.antt =====
-- crates/runner/src/protocol.rs: a request, its operation, and the refusals. The descriptions of a
-- machine's network and of a seed image are carried and never read here, so their types are variables.
-- A time is a number of nanoseconds since the earliest `OffsetDateTime`.
use bento.Shared.{ℕ, Bool, true, false, String, Option}
use bento.Shared.Int.{ℤ}

abbrev pub protocol_version : ℕ
protocol_version = 1

pub record ObjectFence : Type 0 where
  pub object_id : String
  pub generation : ℤ
  pub digest : String

pub record InstanceRef : Type 0 where
  pub uuid : String
  pub name : String

pub record ImageRequest : Type 0 where
  pub name : String
  pub url : String
  pub have : Option String

pub record RedefineRequest : Type 0 where
  pub instance_ref : InstanceRef
  pub previous_name : Option String
  pub vcpu : ℕ
  pub memory_mib : ℕ
  pub nested : Bool
  pub ksm : Bool
  pub network : String
  pub mac : String

pub record ProvisionRequest (Seed : Type 0) : Type 0 where
  pub instance_ref : InstanceRef
  pub base_checksum : String
  pub disk_gib : ℕ
  pub vcpu : ℕ
  pub memory_mib : ℕ
  pub nested : Bool
  pub ksm : Bool
  pub network : String
  pub mac : String
  pub seed : Seed
  pub with_seed_iso : Bool
  pub start : Bool

module _ (MachineNetwork Seed : Type 0) where
  pub data Operation : Type 0 where
    health capabilities inventory sample : Operation
    ensure_image : ImageRequest → Operation
    apply_network : MachineNetwork → Operation
    provision_instance : ProvisionRequest Seed → Operation
    start_instance stop_instance reboot_instance remove_instance : InstanceRef → Operation
    redefine_instance : RedefineRequest → Operation
    resize_disk : InstanceRef → ℕ → Operation

  pub record Envelope : Type 0 where
    pub protocol : ℕ  -- `protocol_version`, a u32
    pub target_machine_id : Option String
    pub epoch : ℤ
    pub holder_id : String
    pub lease_expires_at : ℕ
    pub sent_at : ℕ
    pub request_id : String
    pub object : Option ObjectFence
    pub op : Operation

module _ {MachineNetwork Seed : Type 0} where
  -- Whether the operation changes runner state.
  unfoldable pub mutates : Operation MachineNetwork Seed → Bool
  mutates Operation.health = false
  mutates Operation.capabilities = false
  mutates Operation.inventory = false
  mutates Operation.sample = false
  mutates (Operation.ensure_image _) = true
  mutates (Operation.apply_network _) = true
  mutates (Operation.provision_instance _) = true
  mutates (Operation.start_instance _) = true
  mutates (Operation.stop_instance _) = true
  mutates (Operation.reboot_instance _) = true
  mutates (Operation.remove_instance _) = true
  mutates (Operation.redefine_instance _) = true
  mutates (Operation.resize_disk _ _) = true

-- The expired lease is named by its time, and not by the RFC 3339 text of it.
pub data Refusal : Type 0 where
  bad_protocol : (yours theirs : ℕ) → Refusal
  wrong_machine : (yours theirs : String) → Refusal
  unaddressed_change unfenced_change : Refusal
  stale_generation : String → (yours theirs : ℤ) → Refusal
  generation_conflict : String → ℤ → Refusal
  stale_epoch : (yours theirs : ℤ) → Refusal
  lease_expired : ℕ → Refusal
  clock_untrusted : ℤ → Refusal

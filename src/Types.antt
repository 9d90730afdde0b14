-- ===== src/Types.antt =====
-- crates/types/src/lib.rs: the domain types.
use bento.Shared.{
  ℕ, ◌-◌, ◌^◌, min, Bool, true, false, ◌&&◌, ◌||◌, if◌then◌else◌, ltb, leb, nat_beq, String, List,
  [], ◌∷◌, Option, string_eq, contains, length,
}
use bento.Shared.Texts.{Text}
use bento.Shared.Int.{ℤ}

pub data State : Type 0 where
  running stopped starting : State

pub data DesiredState : Type 0 where
  running stopped : DesiredState

pub data Visibility : Type 0 where
  off private public : Visibility

pub data Placement : Type 0 where
  active draining removed : Placement

pub record Host : Type 0 where
  pub id : ℤ
  pub machine_id : Option String
  pub name : String
  pub libvirt_uri : String
  pub endpoint : Option String
  pub underlay : Option String
  pub enabled : Bool
  pub placement : Placement
  pub created_at : ℕ

-- What a new instance needs from a machine.
pub record Placing : Type 0 where
  pub vcpu : ℕ
  pub memory_mib : ℕ
  pub disk_gib : ℕ
  pub arch : Option String

pub data SlotState : Type 0 where
  active draining moving : SlotState

abbrev pub slot_state_beq : SlotState → SlotState → Bool
slot_state_beq SlotState.active SlotState.active = true
slot_state_beq SlotState.draining SlotState.draining = true
slot_state_beq SlotState.moving SlotState.moving = true
slot_state_beq _ _ = false

-- A time is a number of nanoseconds since the earliest `OffsetDateTime`.
pub record Instance : Type 0 where
  pub uuid : String
  pub name : String
  pub owner_id : ℤ
  pub host_id : ℤ
  pub image_name : String
  pub base_checksum : String
  pub state : State
  pub desired_state : DesiredState
  pub address : String
  pub mac : String
  pub vcpu : ℕ
  pub memory_mib : ℕ
  pub disk_gib : ℕ
  pub nested : Bool
  pub ksm : Bool
  pub http_port : ℕ
  pub visibility : Visibility
  pub created_at : ℕ
  pub last_seen_at : Option ℕ
  pub slot : Option ℕ

abbrev pub default_http_port : ℕ
default_http_port = 80

unfoldable pub effective_http_port : Instance → ℕ
effective_http_port i = if nat_beq i.http_port 0 then default_http_port else i.http_port

pub data Ceiling : Type 0 where
  unbounded : Ceiling
  limit : ℕ → Ceiling

unfoldable pub exceeded_by : Ceiling → ℕ → Bool
exceeded_by unbounded total = false
exceeded_by (limit n) total = ltb n total

pub record Capacity : Type 0 where
  pub memory_mib : Ceiling
  pub disk_gib : Ceiling

pub record Slot : Type 0 where
  pub slot : ℕ
  pub state : SlotState
  pub owner_host_id : ℤ
  pub ownership_epoch : ℤ
  pub source_host_id : Option ℤ
  pub destination_host_id : Option ℤ
  pub operation_id : Option String

pub record Lease : Type 0 where
  pub holder_id : String
  pub epoch : ℤ
  pub expires_at : ℕ

pub record Deployment : Type 0 where
  pub runner_prefix : ℕ

-- `1 << (self.runner_prefix.saturating_sub(24)).min(3)`
unfoldable pub slot_count : Deployment → ℕ
slot_count d = 2 ^ min (d.runner_prefix - 24) 3

pub record ReleasedName : Type 0 where
  pub name : String
  pub previous_owner_id : ℤ
  pub released_at : ℕ

unfoldable pub is_reserved : String → List String → Bool
is_reserved name reserved = contains reserved name

-- The bytes of a name, which are its code points where it is ASCII.
abbrev pub label_char : ℕ → Bool
label_char byte = (leb b'a' byte && leb byte b'z') || (leb b'0' byte && leb byte b'9')

unfoldable pub ends_in_label : Text → Bool
ends_in_label [] = false
ends_in_label (c ∷ []) = label_char c
ends_in_label (c ∷ d ∷ cs) = ends_in_label (d ∷ cs)

unfoldable pub all_label : Text → Bool
all_label [] = true
all_label (c ∷ cs) = (label_char c || nat_beq c b'-') && all_label cs

unfoldable pub starts_with_label : Text → Bool
starts_with_label [] = false
starts_with_label (c ∷ cs) = label_char c

unfoldable pub valid_name : Text → Bool
valid_name name =
    leb (length name) 63 && (starts_with_label name && (ends_in_label name && all_label name))

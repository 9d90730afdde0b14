-- ===== src/Runner/Fence.antt =====
-- crates/runner/src/fence.rs: whether a request may act. `admit_as` is split where its checks turn to
-- the next question: the address, the epoch and the lease, the object, and the records of a change.
pub mod Reads
pub mod Growth
pub mod Changes
use bento.Shared.{
  ℕ, zero, suc, ◌+◌, ◌-◌, ◌/◌, Bool, true, false, ◌&&◌, not, if◌then◌else◌, ltb, leb, nat_beq,
  String, List, [], ◌∷◌, Option, none, some, ◌==◌, string_eq,
}
use bento.Shared.Int.{ℤ, pos, negsuc, ltb_ℤ, int_eq}
use bento.Runner.Protocol.{
  Envelope, ObjectFence, mutates, protocol_version, Refusal, bad_protocol, wrong_machine,
  unaddressed_change, unfenced_change, stale_generation, generation_conflict, stale_epoch,
  lease_expired, clock_untrusted,
}
use bento.Runner.Store.{
  Accepted, Tables, Sqlite, Db, pure, ◌>>=◌, ◌>>◌, accepted_epoch, accept_epoch, outcome,
  object_generation, accept_object, record_outcome,
}

pub record Fence : Type 0 where
  pub machine_id : String
  pub max_skew : ℕ  -- seconds

abbrev pub default_max_skew : ℕ
default_max_skew = 60

pub data Admission : Type 0 where
  allowed : Admission
  already_done : String → Admission
  refused : Refusal → Admission

abbrev pub nanos : ℕ
nanos = 1_000_000_000

-- `(now - sent_at).whole_seconds()`, rounded towards zero.
unfoldable pub skew_seconds : ℕ → ℕ → ℤ
skew_seconds now sent =
    if leb sent now
    then pos ((now - sent) / nanos)
    else elim ((sent - now) / nanos) [ zero ↦ pos 0 | suc n ↦ negsuc n ]

unfoldable pub unsigned_abs : ℤ → ℕ
unsigned_abs (pos n) = n
unsigned_abs (negsuc n) = n + 1

-- The object's place in its history.
unfoldable pub check_generation : ObjectFence → Option Accepted → Option Refusal
check_generation object none = none
check_generation object (some accepted) =
    if ltb_ℤ object.generation accepted.generation
    then some (stale_generation object.object_id object.generation accepted.generation)
    else if (object.generation == accepted.generation) && not (object.digest == accepted.digest)
    then some (generation_conflict object.object_id object.generation)
    else none

module _ {MachineNetwork Seed : Type 0} where
  -- The clocks, then the lease.
  unfoldable pub check_lease : Fence → ℕ → Envelope MachineNetwork Seed → Option Refusal
  unfolding skew_seconds unsigned_abs
  check_lease fence now envelope =
      if ltb fence.max_skew (unsigned_abs (skew_seconds now envelope.sent_at))
      then some (clock_untrusted (skew_seconds now envelope.sent_at))
      else if leb envelope.lease_expires_at now
      then some (lease_expired envelope.lease_expires_at)
      else none

  -- The version, then the machine.
  unfoldable pub check_address : Fence → Envelope MachineNetwork Seed → Bool → Option Refusal
  check_address fence envelope change =
      if not (nat_beq envelope.protocol protocol_version)
      then some (bad_protocol envelope.protocol protocol_version)
      else elim envelope.target_machine_id [
        | some target ↦
            if not (target == fence.machine_id)
            then some (wrong_machine target fence.machine_id)
            else none
        | none ↦ if change then some unaddressed_change else none
      ]

module _ (db : Sqlite) {MachineNetwork Seed : Type 0} where
  -- The end of a change: replay its outcome, or record the epoch and the generation.
  unfoldable pub admit_change : Envelope MachineNetwork Seed → ObjectFence → Db Admission
  admit_change envelope object = do
    found ← outcome db envelope.request_id
    elim found [
      | some text ↦ pure (already_done text)
      | none ↦ do
        accept_epoch db envelope.epoch
        accept_object db object.object_id object.generation object.digest
        pure allowed
    ]

  unfoldable pub admit_object : Envelope MachineNetwork Seed → Db Admission
  admit_object envelope = elim envelope.object [
    | none ↦ pure (refused unfenced_change)
    | some object ↦ do
      accepted ← object_generation db object.object_id
      elim (check_generation object accepted) [
        | some refusal ↦ pure (refused refusal)
        | none ↦ admit_change envelope object
      ]
  ]

  unfoldable pub admit_epoch : Fence → ℕ → Envelope MachineNetwork Seed → Bool → Db Admission
  admit_epoch fence now envelope change = do
    accepted ← accepted_epoch db
    if ltb_ℤ envelope.epoch accepted
        then pure (refused (stale_epoch envelope.epoch accepted))
        else elim (check_lease fence now envelope) [
          | some refusal ↦ pure (refused refusal)
          | none ↦ if not change then pure allowed else admit_object envelope
        ]

  unfoldable pub admit_as : Fence → ℕ → Envelope MachineNetwork Seed → Bool → Db Admission
  admit_as fence now envelope change = elim (check_address fence envelope change) [
    | some refusal ↦ pure (refused refusal)
    | none ↦ admit_epoch fence now envelope change
  ]

  unfoldable pub admit : Fence → ℕ → Envelope MachineNetwork Seed → Db Admission
  admit fence now envelope = admit_as fence now envelope (mutates envelope.op)

-- Records what a change did.
unfoldable pub finish : Sqlite → String → String → Db (Unit {0})
finish db = record_outcome db

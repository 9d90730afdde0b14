-- ===== src/Runner/Serve.antt =====
-- crates/runner/src/lib.rs: one request against the fence and then the host. The host is an interface, as
-- the trait `Host` is; `none` is a `HostError`. The JSON text of a reply is made by a library, a parameter.
pub mod Once
pub mod Overtaken
use bento.Shared.{ℕ, Bool, true, false, if◌then◌else◌, String, List, [], ◌∷◌, Option, none, some}
use bento.Types.{State}
use bento.Runner.Protocol.{
  Envelope, Operation, InstanceRef, ImageRequest, RedefineRequest, ProvisionRequest, Refusal,
  mutates,
}
use bento.Runner.Reply.{
  Reply, Health, Capabilities, Inventory, Samples, health, capabilities, inventory, samples,
  changed,
}
use bento.Runner.Store.{Tables, Sqlite}
use bento.Runner.Fence.{Fence, Admission, allowed, already_done, refused, admit, finish}

pub record Host (N S : Type 0) : Type 1 where
  pub Machine : Type 0
  pub read_health : Machine → Machine × Option Health
  pub read_capabilities : Machine → Machine × Option Capabilities
  pub read_inventory : Machine → Machine × Option Inventory
  pub read_sample : Machine → Machine × Option Samples
  pub ensure_image : ImageRequest → Machine → Machine × Option Reply
  pub apply_network : N → Machine → Machine × Option Reply
  pub provision : ProvisionRequest S → Machine → Machine × Option Reply
  pub start : InstanceRef → Machine → Machine × Option State
  pub stop : InstanceRef → Machine → Machine × Option State
  pub reboot : InstanceRef → Machine → Machine × Option State
  pub remove : InstanceRef → Machine → Machine × Option State
  pub redefine : RedefineRequest → Machine → Machine × Option State
  pub resize_disk : InstanceRef → ℕ → Machine → Machine × Option State

pub data Outcome : Type 0 where
  done : Reply → Outcome
  replayed : String → Outcome
  refused_by : Refusal → Outcome

module _ {N S : Type 0} (host : Host N S) (to_json : Reply → Option String) where
  open host use {Machine}

  abbrev pub reply_with : {A : Type 0} → (A → Reply) → Machine × Option A → Machine × Option Reply
  reply_with f r = (r.0, elim r.1 [ none ↦ none | some a ↦ some (f a) ])

  -- The match on the operation.
  unfoldable pub run : Operation N S → Machine → Machine × Option Reply
  run Operation.health m = reply_with health (host.read_health m)
  run Operation.capabilities m = reply_with capabilities (host.read_capabilities m)
  run Operation.inventory m = reply_with inventory (host.read_inventory m)
  run Operation.sample m = reply_with samples (host.read_sample m)
  run (Operation.ensure_image image) m = host.ensure_image image m
  run (Operation.apply_network network) m = host.apply_network network m
  run (Operation.provision_instance request) m = host.provision request m
  run (Operation.start_instance i) m = reply_with changed (host.start i m)
  run (Operation.stop_instance i) m = reply_with changed (host.stop i m)
  run (Operation.reboot_instance i) m = reply_with changed (host.reboot i m)
  run (Operation.remove_instance i) m = reply_with changed (host.remove i m)
  run (Operation.redefine_instance request) m = reply_with changed (host.redefine request m)
  run (Operation.resize_disk i gib) m = reply_with changed (host.resize_disk i gib m)

  pub record Runner : Type 0 where
    pub tables : Tables
    pub machine : Machine

  -- A change is recorded before the answer leaves.
  unfoldable pub answer : Sqlite → Envelope N S → Reply → Runner → Runner × Option Outcome
  unfolding finish
  answer db envelope reply r =
      if mutates envelope.op
      then elim (to_json reply) [
        | none ↦ (r, none)
        | some text ↦
            let (t, recorded) = finish db envelope.request_id text r.tables in
            (record r { tables = t }, elim recorded [ none ↦ none | some _ ↦ some (done reply) ])
      ]
      else (r, some (done reply))

  unfoldable pub act : Sqlite → Envelope N S → Runner → Runner × Option Outcome
  act db envelope r =
      let (m, reply) = run envelope.op r.machine in
      elim reply [
        | none ↦ (record r { machine = m }, none)
        | some reply ↦ answer db envelope reply (record r { machine = m })
      ]

  unfoldable pub decide :
      Sqlite → Envelope N S → Option Admission → Runner → Runner × Option Outcome
  decide db envelope none r = (r, none)
  decide db envelope (some (refused refusal)) r = (r, some (refused_by refusal))
  decide db envelope (some (already_done text)) r = (r, some (replayed text))
  decide db envelope (some allowed) r = act db envelope r

  unfoldable pub serve_one : Sqlite → Fence → ℕ → Envelope N S → Runner → Runner × Option Outcome
  unfolding decide
  serve_one db fence now envelope r =
      let (t, admission) = admit db fence now envelope r.tables in
      decide db envelope admission (record r { tables = t })

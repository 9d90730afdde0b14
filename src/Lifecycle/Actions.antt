-- ===== src/Lifecycle/Actions.antt =====
-- crates/lifecycle/src/actions.rs and rename.rs: the actions on an instance that exists.
pub mod Resize
pub mod Power
use bento.Shared.{
  ℕ, Bool, true, false, ◌&&◌, ◌||◌, not, if◌then◌else◌, ltb, nat_beq, String, Option, none, some,
  ◌==◌, string_eq,
}
use bento.Shared.Int.{ℤ, int_eq}
use bento.Shared.Result.{Result, ok, err}
use bento.Types.{Instance, State, DesiredState, Capacity}
use bento.Store.Instances.{
  get_instance_tx, set_desired_state, set_observed_state, check_resize, resize, delete_instance,
}
use bento.Lifecycle.Manager.{
  on_delete, on_desired, on_observed, on_check, on_resize, Error, operation, dependency,
  nested_unavailable, disk_shrink, StopResult, Removal, Manager, World, Step, return, fail, after,
  ◌>>=◌, external, store_read, store_call, machine_call, require,
}

pub record ResizeRequest : Type 0 where
  pub uuid : String
  pub vcpu : ℕ
  pub memory_mib : ℕ
  pub disk_gib : ℕ
  pub nested : Bool

pub record ResizeResult : Type 0 where
  pub restart_required : Bool
  pub disk_grown : Bool

unfoldable pub bool_beq : Bool → Bool → Bool
bool_beq true b = b
bool_beq false b = not b

module _ {M : Type 0} (m : Manager M) where
  unfoldable pub instance_of : String → Step M Instance
  instance_of uuid = store_read (get_instance_tx uuid)

  unfoldable pub hyp_for : Instance → Step M (Unit {0})
  hyp_for i w =
      if i.host_id == m.host_id
      then (w, ok tt)
      else require operation (m.machines.reaches w.machines i.host_id) w

  unfoldable pub start_domain : Instance → Step M (Unit {0})
  start_domain i = hyp_for i >>= λ _.
      machine_call (m.machines.start i.host_id i.name) >>= λ done. require operation done

  unfoldable pub start : String → Step M (Unit {0})
  start uuid = instance_of uuid >>= λ i. start_domain i >>= λ _.
      store_call (set_desired_state (m.backend on_desired) uuid DesiredState.running) >>= λ _.
      store_call (set_observed_state (m.backend on_observed) uuid State.running)

  unfoldable pub start_for_connection : String → Step M (Unit {0})
  start_for_connection uuid = instance_of uuid >>= start_domain

  unfoldable pub stopped_via : Option StopResult → Step M StopResult
  stopped_via none = fail operation
  stopped_via (some result) = return result

  unfoldable pub stop : String → Step M StopResult
  stop uuid = instance_of uuid >>= λ i.
      store_call (set_desired_state (m.backend on_desired) uuid DesiredState.stopped) >>= λ _.
      hyp_for i >>= λ _. machine_call (m.machines.stop i.host_id i.name) >>= λ answer.
      stopped_via answer >>= λ result.
      store_call (set_observed_state (m.backend on_observed) uuid State.stopped) >>= λ _.
      return result

  unfoldable pub restart : String → Step M (Unit {0})
  restart uuid = instance_of uuid >>= λ i. hyp_for i >>= λ _.
      machine_call (m.machines.reboot i.host_id i.name) >>= λ done. require operation done >>= λ _.
      store_call (set_desired_state (m.backend on_desired) uuid DesiredState.running)

  unfoldable pub undefined : Removal → Step M (Unit {0})
  undefined Removal.failed = fail operation
  undefined _ = return tt

  unfoldable pub remove : String → (now : ℕ) → Step M (Unit {0})
  remove uuid now = instance_of uuid >>= λ i. hyp_for i >>= λ _.
      machine_call (m.machines.remove i.host_id i.name) >>= λ answer. undefined answer >>= λ _.
      machine_call (λ machines. (m.machines.deprovision i machines, tt)) >>= λ (_ : Unit {0}).
      store_call (delete_instance (m.backend on_delete) uuid now) >>= λ _. return tt

  unfoldable pub check_nested : Step M (Unit {0})
  check_nested w = require nested_unavailable (m.machines.nested w.machines) w

  unfoldable pub host_capacity : ℤ → Step M Capacity
  host_capacity host_id w = elim (m.machines.capacity w.machines host_id) [
    | none ↦ (w, err dependency)
    | some capacity ↦ (w, ok capacity)
  ]

  unfoldable pub grow_disk : Instance → (disk_gib : ℕ) → Step M (Unit {0})
  grow_disk i disk_gib =
      machine_call (m.machines.grow_disk i disk_gib) >>= λ done. require dependency done

  unfoldable pub redefine_elsewhere : Instance → (previous_name : Option String) → Step M (Unit {0})
  redefine_elsewhere i previous_name = elim (m.network_of i.owner_id) [
    | none ↦ fail operation
    | some network ↦ machine_call (m.machines.redefine i network previous_name) >>= λ done.
        require operation done
  ]

  unfoldable pub redefine : Instance → Step M (Unit {0})
  redefine i w =
      if not (i.host_id == m.host_id)
      then redefine_elsewhere i none w
      else if not m.has_definer
      then (w, ok tt)
      else (require operation (m.machines.renders i w.machines) >>= λ _.
            machine_call (m.machines.define i) >>= λ done. require operation done)
          w

  -- The requirements that come before any look at the capacity.
  unfoldable pub check_shape : ResizeRequest → Instance → Step M (Unit {0})
  check_shape request i w =
      if nat_beq request.vcpu 0 || nat_beq request.memory_mib 0 || nat_beq request.disk_gib 0
      then (w, err operation)
      else if ltb request.disk_gib i.disk_gib
      then (w, err (disk_shrink i.disk_gib request.disk_gib))
      else if request.nested && not i.nested
      then check_nested w
      else (w, ok tt)

  unfoldable pub resize_result : ResizeRequest → Instance → ResizeResult
  resize_result request i = record {
    restart_required =
        not (nat_beq request.vcpu i.vcpu)
        || not (nat_beq request.memory_mib i.memory_mib)
        || not (bool_beq request.nested i.nested);
    disk_grown = ltb i.disk_gib request.disk_gib;
  }

  unfoldable pub resize_instance : ResizeRequest → Step M ResizeResult
  resize_instance request = instance_of request.uuid >>= λ i. check_shape request i >>= λ _.
      host_capacity i.host_id >>= λ capacity.
      store_call (
        check_resize (m.backend on_check) request.uuid request.memory_mib request.disk_gib capacity)
      >>= λ _.
          (if (resize_result request i).disk_grown then grow_disk i request.disk_gib else return tt)
          >>= λ _.
              store_call (
                resize (m.backend on_resize) request.uuid request.vcpu request.memory_mib
                  request.disk_gib request.nested capacity)
              >>= λ _.
                  (if (resize_result request i).restart_required
                    then redefine (record i {
                      vcpu = request.vcpu;
                      memory_mib = request.memory_mib;
                      disk_gib = request.disk_gib;
                      nested = request.nested;
                    })
                    else return tt)
                  >>= λ _. return (resize_result request i)

-- ===== src/Lifecycle/Rename.antt =====
-- crates/lifecycle/src/rename.rs: a new name for an instance that is stopped. A renaming that fails after the row
-- has changed takes the old name back; whether that succeeds shows in a log line only.
pub mod Steps
pub mod Undone
use bento.Shared.{
  ℕ, Bool, true, false, ◌&&◌, ◌||◌, not, if◌then◌else◌, String, Option, none, some, ◌==◌, string_eq,
}
use bento.Shared.Int.{ℤ, int_eq}
use bento.Shared.Result.{Result, ok, err}
use bento.Types.{Instance, State}
use bento.Store.Instances.{rename_instance}
use bento.Lifecycle.Manager.{
  on_rename, on_unwind, Error, operation, rename_needs_stop, Removal, DomainState, Manager, World,
  Step, return, fail, after, ◌>>=◌, store_call, machine_call,
}
use bento.Lifecycle.Actions.{instance_of, hyp_for, redefine_elsewhere}

-- Whether the domain is gone; it may not run.
unfoldable pub domain_gone : DomainState → Result Error Bool
domain_gone (DomainState.in_state State.stopped) = ok false
domain_gone (DomainState.in_state State.running) = err (rename_needs_stop State.running)
domain_gone (DomainState.in_state State.starting) = err (rename_needs_stop State.starting)
domain_gone DomainState.domain_not_found = ok true
domain_gone DomainState.failed = err operation

-- The readings of the clock: when the new name is claimed and the old one released, and when the old one is
-- claimed back and the new one released.
pub record Times : Type 0 where
  pub claimed_at : ℕ
  pub released_at : ℕ
  pub unwound_at : ℕ
  pub dropped_at : ℕ

module _ {M : Type 0} (m : Manager M) (times : Times) where
  unfoldable pub unwind_rename : {A : Type 0} → (uuid old_name : String) → Step M A
  unwind_rename uuid old_name w = (
    record w {
      db =
          (rename_instance (m.backend on_unwind) uuid old_name m.cooldown times.unwound_at
            times.dropped_at w.db).0;
    },
    err operation,
  )

  -- What a failed step of the redefinition leads to.
  unfoldable pub or_unwind :
      (uuid old_name : String)
      → World M × Result Error (Unit {0})
      → World M × Result Error (Unit {0})
  or_unwind uuid old_name (w, ok done) = (w, ok done)
  or_unwind uuid old_name (w, err e) = unwind_rename uuid old_name w

  unfoldable pub write_name : (uuid new_name : String) → Step M (Unit {0})
  write_name uuid new_name = store_call (
      rename_instance (m.backend on_rename) uuid new_name m.cooldown times.claimed_at
        times.released_at)

  -- A definition under the old name, where the new one could not be defined.
  unfoldable pub define_old : Instance → M → M
  define_old old machines =
      if m.machines.renders old machines then (m.machines.define old machines).0 else machines

  unfoldable pub defined : Instance → M × Bool → Step M (Unit {0})
  defined old (machines, true) w = (record w { machines = machines }, ok tt)
  defined old (machines, false) w = (record w { machines = define_old old machines }, err operation)

  unfoldable pub define_new : Instance → Instance → Step M (Unit {0})
  define_new old new w = defined old (m.machines.define new w.machines) w

  unfoldable pub is_gone : Removal → Bool
  is_gone Removal.removed = true
  is_gone Removal.domain_not_found = true
  is_gone Removal.failed = false

  -- The domain under the old name goes and the one under the new name comes.
  unfoldable pub replace_domain : Instance → Instance → Step M (Unit {0})
  replace_domain old new w =
      if not (m.machines.renders new w.machines)
      then (w, err operation)
      else (machine_call (m.machines.remove old.host_id old.name) >>= λ answer.
            if is_gone answer then define_new old new else fail operation)
          w

  unfoldable pub rename_here : Instance → String → (gone : Bool) → Step M (Unit {0})
  rename_here i new_name gone w =
      if not gone && not m.has_definer
      then (w, err operation)
      else after (write_name i.uuid new_name w) (λ _ w'.
        if gone
        then (w', ok tt)
        else or_unwind i.uuid i.name (replace_domain i (record i { name = new_name }) w'))

  unfoldable pub rename_elsewhere : Instance → String → (gone : Bool) → Step M (Unit {0})
  rename_elsewhere i new_name gone w = after (write_name i.uuid new_name w) (λ _ w'.
      if gone
      then (w', ok tt)
      else or_unwind i.uuid i.name
          (redefine_elsewhere m (record i { name = new_name }) (some i.name) w'))

  unfoldable pub rename_stopped : Instance → String → Result Error Bool → Step M (Unit {0})
  rename_stopped i new_name (err e) w = (w, err e)
  rename_stopped i new_name (ok gone) w =
      if i.host_id == m.host_id
      then rename_here i new_name gone w
      else rename_elsewhere i new_name gone w

  unfoldable pub rename_found : String → Instance → Step M (Unit {0})
  rename_found new_name i w =
      if new_name == i.name
      then (w, ok tt)
      else after (hyp_for m i w) (λ _ w'.
        rename_stopped i new_name
          (domain_gone (m.machines.domain_state i.host_id i.name w'.machines)) w')

  unfoldable pub rename : (uuid new_name : String) → Step M (Unit {0})
  rename uuid new_name = instance_of m uuid >>= rename_found new_name

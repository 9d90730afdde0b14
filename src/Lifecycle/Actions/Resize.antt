-- ===== src/Lifecycle/Actions/Resize.antt =====
-- What a resize changes, and in which order (crates/lifecycle/src/actions.rs).
use bento.Shared.{
  ℕ, ◌≤◌, ◌<◌, ◌≡◌, false, ◌⊎◌, inl, inr, refl, ap, arith, true, if◌then◌else◌, ltb, String, some,
  Bool-cases, Option-cases, ◌∙◌,
}
use bento.Shared.Int.{ℤ, int_eq}
use bento.Shared.Result.{ok}
use bento.Types.{Instance, Capacity}
use bento.Store.Database.{Database, Backend, with_tx_keeps, >>=-eq-ok, Result as StoreResult}
use bento.Store.Instances.{get_instance_tx, check_capacity_tx, check_resize, resize}
use bento.Lifecycle.Manager.{
  on_check, on_resize, Manager, World, Step, return, after, ◌>>=◌, store_read, store_call,
  machine_call, require, after-keeps, after-reads, external-ok,
}
use bento.Lifecycle.Actions.{
  ResizeRequest, instance_of, check_nested, check_shape, host_capacity, grow_disk,
  redefine_elsewhere, redefine, resize_result, resize_instance,
}

-- A check leaves the tables.
check_resize-unchanged :
    (b : Backend) (uuid : String) (memory disk : ℕ) (capacity : Capacity) (db : Database)
    → (check_resize b uuid memory disk capacity db).0 ≡ db
unfolding check_resize
check_resize-unchanged b uuid memory disk capacity db =
    with_tx_keeps (λ d. d ≡ db) b.commits _ db refl
      (λ db' a body.
        let (i, _, h1) = >>=-eq-ok (get_instance_tx uuid db) _ body in
        let (_, _, h2) =
          >>=-eq-ok (check_capacity_tx i.host_id uuid memory disk capacity db) _ h1 in
        ground (arith, h2))

module _ {M : Type 0} (m : Manager M) where
  check_shape-unchanged :
      (request : ResizeRequest) (i : Instance) (w : World M) → (check_shape m request i w).0 ≡ w
  unfolding check_shape check_nested require
  check_shape-unchanged request i w = ground arith

  -- No size of the request is zero, the disk does not shrink, and nesting comes anew only where the machine has it.
  pub record IsAllowed (request : ResizeRequest) (i : Instance) (w : World M) : Type 0 where
    pub vcpu : 0 < request.vcpu
    pub memory : 0 < request.memory_mib
    pub disk : 0 < request.disk_gib
    pub not_smaller : i.disk_gib ≤ request.disk_gib
    pub nesting : request.nested ≡ true → i.nested ≡ false → m.machines.nested w.machines ≡ true

  check_shape-ok :
      (request : ResizeRequest) (i : Instance) (w : World M) {u : Unit {0}}
      → (check_shape m request i w).1 ≡ ok u
      → IsAllowed request i w
  unfolding check_shape check_nested require
  check_shape-ok request i w h = record {
    vcpu = ground (arith, h);
    memory = ground (arith, h);
    disk = ground (arith, h);
    not_smaller = ground (arith, h);
    nesting = λ asks new. ground (arith, h, asks, new);
  }

  redefine-db : (i : Instance) (w : World M) → (redefine m i w).0.db ≡ w.db
  unfolding redefine redefine_elsewhere machine_call require after
  redefine-db i w = ground arith

  -- The request passes every check.
  abbrev pub Passed : ResizeRequest → Instance → Capacity → World M → Type 0
  Passed request i capacity w =
      (get_instance_tx request.uuid w.db ≡ StoreResult.ok i)
      × IsAllowed request i w
      × (m.machines.capacity w.machines i.host_id ≡ some capacity)
      × ((check_resize (m.backend on_check) request.uuid request.memory_mib request.disk_gib
            capacity w.db).1
          ≡ StoreResult.ok tt)

  -- The disk has the size of the request, or has grown to it.
  abbrev pub Grown : ResizeRequest → Instance → World M → Type 0
  Grown request i w =
      (i.disk_gib ≡ request.disk_gib)
      ⊎ ((m.machines.grow_disk i request.disk_gib w.machines).1 ≡ true)

  -- What may have changed when a resize ends: a machine only if the request passed every check, and the tables
  -- only if the disk has the size besides.
  pub record IsOrdered (request : ResizeRequest) (w w' : World M) : Type 0 where
    pub machines :
        (w'.machines ≡ w.machines)
        ⊎ ((i : Instance) × (capacity : Capacity) × Passed request i capacity w)
    pub tables :
        (w'.db ≡ w.db)
        ⊎ ((i : Instance) × (capacity : Capacity) × Passed request i capacity w
            × Grown request i w
            × (w'.db
                ≡ (resize
                    (m.backend on_resize)
                    request.uuid
                    request.vcpu
                    request.memory_mib
                    request.disk_gib
                    request.nested
                    capacity
                    w.db).0))

  pub host_capacity-unchanged : (host_id : ℤ) (w : World M) → (host_capacity m host_id w).0 ≡ w
  unfolding host_capacity
  host_capacity-unchanged host_id w = elim (Option-cases (m.machines.capacity w.machines host_id)) [
    | inl no_figure ↦ ground (arith, no_figure)
    | inr (capacity, figure) ↦ ground (arith, figure)
  ]

  host_capacity-ok :
      (host_id : ℤ) (w : World M) {capacity : Capacity}
      → (host_capacity m host_id w).1 ≡ ok capacity
      → m.machines.capacity w.machines host_id ≡ some capacity
  unfolding host_capacity
  host_capacity-ok host_id w h = elim (Option-cases (m.machines.capacity w.machines host_id)) [
    | inl no_figure ↦ absurd (ground (arith, no_figure, h))
    | inr (capacity, figure) ↦ ground (arith, figure, h)
  ]

  -- The step that grows the disk, if the request asks for more.
  abbrev grow_step : ResizeRequest → Instance → Step M (Unit {0})
  grow_step request i =
      if (resize_result m request i).disk_grown then grow_disk m i request.disk_gib else return tt

  grow_step-db :
      (request : ResizeRequest) (i : Instance) (w : World M) → (grow_step request i w).0.db ≡ w.db
  unfolding resize_result grow_disk machine_call require after
  grow_step-db request i w = ground arith

  grow_step-ok :
      (request : ResizeRequest) (i : Instance) (w : World M) {u : Unit {0}}
      → i.disk_gib ≤ request.disk_gib
      → (grow_step request i w).1 ≡ ok u
      → Grown request i w
  unfolding resize_result grow_disk machine_call require after
  grow_step-ok request i w fits h = elim (Bool-cases (ltb i.disk_gib request.disk_gib)) [
    | inl more ↦ inr (ground (arith, more, h))
    | inr same ↦ inl (ground (arith, same, fits))
  ]

  -- The step that defines the domain again, if the machine has to restart for the change.
  abbrev redefine_step : ResizeRequest → Instance → Step M (Unit {0})
  redefine_step request i =
      if (resize_result m request i).restart_required
      then redefine m (record i {
        vcpu = request.vcpu;
        memory_mib = request.memory_mib;
        disk_gib = request.disk_gib;
        nested = request.nested;
      })
      else return tt

  redefine_step-db :
      (request : ResizeRequest) (i : Instance) (w : World M)
      → (redefine_step request i w).0.db ≡ w.db
  redefine_step-db request i w = elim (Bool-cases (resize_result m request i).restart_required) [
    | inl again ↦ rw again (redefine-db _ w)
    | inr as_is ↦ rw as_is refl
  ]

  -- What comes after the checks.
  resize_rest :
      (request : ResizeRequest) (w : World M) (i : Instance) (capacity : Capacity)
      → Passed request i capacity w
      → IsOrdered request w
          (after (grow_step request i w) (λ _.
            store_call (
              resize
                (m.backend on_resize)
                request.uuid
                request.vcpu
                request.memory_mib
                request.disk_gib
                request.nested
                capacity)
            >>= λ _. redefine_step request i >>= λ _. return (resize_result m request i))).0
  unfolding store_call
  resize_rest request w i capacity passed =
      let P : World M → Type 0 = IsOrdered request w in
      let stored : Database → Database = λ d.
        (resize (m.backend on_resize) request.uuid request.vcpu request.memory_mib request.disk_gib
          request.nested capacity d).0 in
      let w2 : World M = (grow_step request i w).0 in
      let w3 : World M = record w2 { db = stored w2.db } in
      let same : w2.db ≡ w.db = grow_step-db request i w in
      let written : Grown request i w → (v : World M) → v.db ≡ w3.db → P v = λ grown v e. record {
        machines = inr (i, capacity, passed);
        tables = inr (i, capacity, passed, grown, e ∙ ap stored same);
      } in
      after-keeps P (grow_step request i w) _
        (λ e _. record { machines = inr (i, capacity, passed); tables = inl same })
        (λ _ done.
          let grown = grow_step-ok request i w passed.1.not_smaller done in
          after-keeps P _ _ (λ e _. written grown w3 refl)
            (λ _ _.
              let again =
                written grown (redefine_step request i w3).0 (redefine_step-db request i w3) in
              after-keeps P (redefine_step request i w3) _ (λ e _. again) (λ _ _. again)))

  -- However a resize ends, a machine has changed only if the request passed every check, of the ceiling too, and
  -- the tables have changed only if the disk has the size besides: then they are those that the store's resize
  -- leaves.
  pub resize_instance-IsOrdered :
      (request : ResizeRequest) (w : World M) → IsOrdered request w (resize_instance m request w).0
  unfolding resize_instance instance_of store_read store_call
  resize_instance-IsOrdered request w =
      let P : World M → Type 0 = IsOrdered request w in
      let stays : P w = record { machines = inl refl; tables = inl refl } in
      after-reads P w _ _ refl stays (λ i found.
        after-reads P w (check_shape m request i w) _ (check_shape-unchanged request i w) stays
          (λ _ shape.
            after-reads P w (host_capacity m i.host_id w) _ (host_capacity-unchanged i.host_id w)
              stays
              (λ capacity figure.
                after-reads P w _ _
                  (ap (λ d. record w { db = d })
                    (check_resize-unchanged (m.backend on_check) request.uuid request.memory_mib
                      request.disk_gib capacity w.db))
                  stays
                  (λ _ fits. resize_rest request w i capacity (
                    external-ok _ found,
                    check_shape-ok request i w shape,
                    host_capacity-ok i.host_id w figure,
                    external-ok _ fits,
                  )))))

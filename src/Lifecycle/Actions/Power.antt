-- ===== src/Lifecycle/Actions/Power.antt =====
-- What starting, stopping and removing an instance leave behind (crates/lifecycle/src/actions.rs).
use bento.Shared.{
  ℕ, ◌≡◌, ◌⊎◌, ◌≢◌, inl, inr, refl, sym, subst, arith, false, String, List, [], ◌∷◌, Option, none,
  some, ◌==◌, string_eq, find, Option-cases, Bool-cases,
}
use bento.Shared.Int.{ℤ, int_eq}
use bento.Shared.Result.{ok}
use bento.Types.{Instance, DesiredState, State}
use bento.Store.Database.{Backend, Database, Result as StoreResult}
use bento.Store.Instances.{
  get_instance_tx, update_rows, update_instance, set_desired_state, set_observed_state,
  delete_instance,
}
use bento.Store.Shares.{has_access}
use bento.Store.Shares.Access.{delete_instance-has_access}
use bento.Lifecycle.Manager.{
  on_delete, on_desired, on_observed, StopResult, Removal, Manager, World, return, after, ◌>>=◌,
  store_read, store_call, machine_call, require, after-keeps, after-reads, after-done, external-ok,
}
use bento.Lifecycle.Actions.{
  instance_of, hyp_for, start_domain, start, start_for_connection, stopped_via, stop, undefined,
  remove,
}

find-update_rows :
    (uuid : String) (change : Instance → Instance) (rows : List Instance)
    → ((i : Instance) → (change i).uuid ≡ i.uuid)
    → find (λ i. i.uuid == uuid) (update_rows uuid change rows)
      ≡ elim (find (λ i. i.uuid == uuid) rows) [ none ↦ none | some i ↦ some (change i) ]
unfolding update_rows
find-update_rows uuid change [] keeps = refl
find-update_rows uuid change (i ∷ rows) keeps =
    ground (arith, keeps i, find-update_rows uuid change rows keeps)

-- The row of the instance wants it stopped.
abbrev pub WantsStopped : String → Database → Type 0
WantsStopped uuid db =
    (i : Instance) × (get_instance_tx uuid db ≡ StoreResult.ok i)
    × (i.desired_state ≡ DesiredState.stopped)

get_instance_tx-update_instance :
    (b : Backend) (uuid : String) (change : Instance → Instance) (db : Database)
    → ((i : Instance) → (change i).uuid ≡ i.uuid)
    → (update_instance b uuid change db).1 ≡ StoreResult.ok tt
    → {i : Instance} → get_instance_tx uuid db ≡ StoreResult.ok i
    → get_instance_tx uuid (update_instance b uuid change db).0 ≡ StoreResult.ok (change i)
unfolding get_instance_tx update_instance
get_instance_tx-update_instance b uuid change db keeps done {i} h =
    elim (Option-cases (find (λ r. r.uuid == uuid) db.instances)) [
      | inl no_row ↦ absurd (ground (arith, no_row, h))
      | inr (j, found) ↦
          ground (arith, found, done, h, find-update_rows uuid change db.instances keeps)
    ]

-- A statement that fails leaves the tables.
update_instance-cases :
    (b : Backend) (uuid : String) (change : Instance → Instance) (db : Database)
    → ((update_instance b uuid change db).1 ≡ StoreResult.ok tt)
      ⊎ ((update_instance b uuid change db).0 ≡ db)
unfolding update_instance
update_instance-cases b uuid change db =
    elim (Option-cases (find (λ r. r.uuid == uuid) db.instances)) [
      | inl no_row ↦ inr (ground (arith, no_row))
      | inr (j, found) ↦ elim (Bool-cases b.commits) [
        | inl works ↦ inl (ground (arith, found, works))
        | inr fails ↦ inr (ground (arith, fails))
      ]
    ]

module _ {M : Type 0} (m : Manager M) where
  pub hyp_for-unchanged : (i : Instance) (w : World M) → (hyp_for m i w).0 ≡ w
  unfolding hyp_for require
  hyp_for-unchanged i w = ground arith

  start_domain-db : (i : Instance) (w : World M) → (start_domain m i w).0.db ≡ w.db
  unfolding start_domain hyp_for machine_call require after
  start_domain-db i w = ground arith

  -- Starting an instance for a connection leaves what its owner wants, as all of the tables.
  pub start_for_connection-db :
      (uuid : String) (w : World M) → (start_for_connection m uuid w).0.db ≡ w.db
  unfolding start_for_connection instance_of store_read
  start_for_connection-db uuid w =
      after-reads (λ v. v.db ≡ w.db) w _ (start_domain m) refl refl (λ i found. start_domain-db i w)

  observed-WantsStopped :
      (uuid : String) (state : State) (db : Database)
      → WantsStopped uuid db
      → WantsStopped uuid (set_observed_state (m.backend on_observed) uuid state db).0
  unfolding set_observed_state
  observed-WantsStopped uuid state db (i, found, wants) =
      let b = m.backend on_observed in
      let change : Instance → Instance = λ r. record r { state = state } in
      elim (update_instance-cases b uuid change db) [
        | inl done ↦ (
          record i { state = state },
          get_instance_tx-update_instance b uuid change db (λ r. refl) done found,
          wants,
        )
        | inr same ↦ subst (WantsStopped uuid) (sym same) (i, found, wants)
      ]

  stopped_via-unchanged :
      (answer : Option StopResult) (w : World M) → (stopped_via m answer w).0 ≡ w
  unfolding stopped_via
  stopped_via-unchanged none w = refl
  stopped_via-unchanged (some result) w = refl

  -- The wish stands through the rest of a stop.
  stop_rest :
      (uuid : String) (i : Instance) (w : World M)
      → WantsStopped uuid w.db
      → WantsStopped uuid
          (after (machine_call (m.machines.stop i.host_id i.name) w) (λ answer.
            stopped_via m answer >>= λ result.
            store_call (set_observed_state (m.backend on_observed) uuid State.stopped) >>= λ _.
            return result)).0.db
  unfolding machine_call store_call
  stop_rest uuid i w wants =
      let Q : World M → Type 0 = λ v. WantsStopped uuid v.db in
      let told : World M = record w {
        machines = (m.machines.stop i.host_id i.name w.machines).0;
      } in
      let seen = observed-WantsStopped uuid State.stopped w.db wants in
      after-keeps Q _ _ (λ e _. wants)
        (λ answer _.
          after-reads Q told (stopped_via m answer told) _ (stopped_via-unchanged answer told) wants
            (λ result _. after-keeps Q _ _ (λ e _. seen) (λ _ _. seen)))

  -- A machine is told to stop an instance only when the row wants it stopped, and the row then wants it stopped
  -- however the stop ends.
  pub stop-WantsStopped :
      (uuid : String) (w : World M)
      → ((stop m uuid w).0.machines ≡ w.machines) ⊎ WantsStopped uuid (stop m uuid w).0.db
  unfolding stop instance_of store_read store_call set_desired_state
  stop-WantsStopped uuid w =
      let P : World M → Type 0 = λ v. (v.machines ≡ w.machines) ⊎ WantsStopped uuid v.db in
      let w1 : World M = record w {
        db =
            (update_instance (m.backend on_desired) uuid
              (λ r. record r { desired_state = DesiredState.stopped }) w.db).0;
      } in
      after-reads P w _ _ refl (inl refl) (λ i found.
        after-keeps P _ _ (λ e _. inl refl)
          (λ _ done.
            let wants : WantsStopped uuid w1.db = (
              record i { desired_state = DesiredState.stopped },
              get_instance_tx-update_instance (m.backend on_desired) uuid
                  (λ r. record r { desired_state = DesiredState.stopped }) w.db (λ r. refl)
                  (external-ok _ done) (external-ok _ found),
              refl,
            ) in
            after-reads P w1 (hyp_for m i w1) _ (hyp_for-unchanged i w1) (inl refl)
              (λ _ _. inr (stop_rest uuid i w1 wants))))

  undefined-unchanged : (answer : Removal) (w : World M) → (undefined m answer w).0 ≡ w
  unfolding undefined
  undefined-unchanged Removal.removed w = refl
  undefined-unchanged Removal.domain_not_found w = refl
  undefined-unchanged Removal.failed w = refl

  undefined-ok :
      (answer : Removal) (w : World M) {u : Unit {0}}
      → (undefined m answer w).1 ≡ ok u
      → answer ≢ Removal.failed
  unfolding undefined
  undefined-ok Removal.removed w h = λ e. cc
  undefined-ok Removal.domain_not_found w h = λ e. cc
  undefined-ok Removal.failed w h = λ e. cc

  -- The tables lose an instance only when its machine has no domain of it any more.
  abbrev pub IsRemoval : String → (now : ℕ) → World M → World M → Type 0
  IsRemoval uuid now w w' =
      (w'.db ≡ w.db)
      ⊎ ((i : Instance) × (get_instance_tx uuid w.db ≡ StoreResult.ok i)
          × ((m.machines.remove i.host_id i.name w.machines).1 ≢ Removal.failed)
          × (w'.db ≡ (delete_instance (m.backend on_delete) uuid now w.db).0))

  -- However a removal ends, the tables are as before, or its machine has undefined the domain, or had none, and
  -- they are those that the store's deletion leaves.
  pub remove-IsRemoval :
      (uuid : String) (now : ℕ) (w : World M) → IsRemoval uuid now w (remove m uuid now w).0
  unfolding remove instance_of store_read store_call machine_call
  remove-IsRemoval uuid now w =
      let P : World M → Type 0 = IsRemoval uuid now w in
      after-reads P w _ _ refl (inl refl) (λ i found.
        let told : World M = record w {
          machines = (m.machines.remove i.host_id i.name w.machines).0;
        } in
        after-reads P w (hyp_for m i w) _ (hyp_for-unchanged i w) (inl refl) (λ _ _.
          after-keeps P _ _ (λ e _. inl refl)
            (λ answer asked.
              after-reads P told (undefined m answer told) _ (undefined-unchanged answer told)
                (inl refl)
                (λ _ gone.
                  let same : (m.machines.remove i.host_id i.name w.machines).1 ≡ answer =
                    ground (arith, asked) in
                  let deleted : (v : World M)
                      → v.db ≡ (delete_instance (m.backend on_delete) uuid now w.db).0
                      → P v =
                    λ v e. inr (
                      i,
                      external-ok _ found,
                      subst (λ r. r ≢ Removal.failed) (sym same) (undefined-ok answer told gone),
                      e,
                    ) in
                  let final : World M = record told {
                    db = (delete_instance (m.backend on_delete) uuid now w.db).0;
                    machines = m.machines.deprovision i told.machines;
                  } in
                  after-keeps P _ _ (λ e _. inl refl)
                    (λ _ _.
                      after-keeps P _ _ (λ e _. deleted final refl) (λ _ _. deleted final refl))))))

  -- When a removal has gone through, nobody has access to the instance any more.
  pub remove-has_access :
      (uuid : String) (now : ℕ) (w : World M) (user_id : ℤ)
      → (remove m uuid now w).1 ≡ ok tt
      → has_access uuid user_id (remove m uuid now w).0.db ≡ false
  unfolding remove store_call
  remove-has_access uuid now w user_id h =
      let P : World M → Type 0 = λ v. has_access uuid user_id v.db ≡ false in
      after-done P _ _ h (λ i _ h1. after-done P _ _ h1 (λ _ _ h2.
        after-done P _ _ h2 (λ answer _ h3. after-done P _ _ h3 (λ _ _ h4.
          after-done P _ _ h4 (λ _ _ h5. after-done P _ _ h5 (λ j deleted h6.
            delete_instance-has_access (m.backend on_delete) uuid now _ user_id
              (external-ok _ deleted)))))))

  -- When a start has gone through, the row says that the instance runs and is wanted to run.
  pub start-IsRunning :
      (uuid : String) (w : World M)
      → (start m uuid w).1 ≡ ok tt
      → (i : Instance) × (get_instance_tx uuid w.db ≡ StoreResult.ok i)
        × (get_instance_tx uuid (start m uuid w).0.db
            ≡ StoreResult.ok
                (record i { state = State.running; desired_state = DesiredState.running }))
  unfolding start store_call store_read instance_of set_observed_state set_desired_state
  start-IsRunning uuid w h =
      let P : World M → Type 0 = λ v.
        (i : Instance) × (get_instance_tx uuid w.db ≡ StoreResult.ok i)
        × (get_instance_tx uuid v.db
            ≡ StoreResult.ok
                (record i { state = State.running; desired_state = DesiredState.running })) in
      after-done P _ _ h (λ i found h1.
        let row = external-ok _ found in
        after-done P (start_domain m i w) _ h1 (λ _ _ h2.
          let w1 : World M = (start_domain m i w).0 in
          let here : get_instance_tx uuid w1.db ≡ StoreResult.ok i =
            subst (λ d. get_instance_tx uuid d ≡ StoreResult.ok i) (sym (start_domain-db i w))
              row in
          after-done P _ _ h2 (λ _ wished h3.
            let wanted =
              get_instance_tx-update_instance (m.backend on_desired) uuid
                (λ r. record r { desired_state = DesiredState.running }) w1.db (λ r. refl)
                (external-ok _ wished) here in
            (
              i,
              row,
              get_instance_tx-update_instance (m.backend on_observed) uuid
                  (λ r. record r { state = State.running }) _ (λ r. refl) (external-ok _ h3) wanted,
            ))))

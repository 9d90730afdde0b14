-- ===== src/Lifecycle/Create/Unwind.antt =====
-- What a creation that fails leaves behind (crates/lifecycle/src/new.rs).
use bento.Shared.{
  ℕ, ◌≡◌, refl, sym, ap, subst, ◌∙◌, arith, Bool, true, false, not, String, List, [], ◌∷◌, Option,
  none, some, ◌==◌, ==_refl, string_eq, select,
}
use bento.Shared.Result.{Result, err}
use bento.Types.{Instance, State, Capacity}
use bento.Network.Error.{Result as NetworkResult}
use bento.Network.Subnet.{GuestNetwork}
use bento.Store.Database.{
  Database, Backend, Result as StoreResult, Error as StoreError, settle, with_tx, settle-ok,
}
use bento.Store.Names.{release_name_tx}
use bento.Store.Instances.{
  collides, create_tx, create_instance, get_instance_tx, delete_row, delete_tx, delete_instance,
}
use bento.Store.Instances.Success.{stored, create_tx-ok, insert_instance-ok}
use bento.Lifecycle.Manager.{
  on_create, on_unwind, Error, Manager, World, after, external, store_call, machine_call, require,
  after-both, after-reads, external-ok,
}
use bento.Lifecycle.Actions.{check_nested, host_capacity}
use bento.Lifecycle.Actions.Resize.{host_capacity-unchanged}
use bento.Lifecycle.Create.{
  NewRequest, Lookups, Plan, settled, check_request, allocate_step, plan_new, unwind_new,
  record_built, build_on, build_for, build, create,
}

-- A row that is in the table under a UUID of its own goes alone.
select-lacking :
    (new : Instance) (rows : List Instance)
    → collides new rows ≡ false
    → select (λ i. not (i.uuid == new.uuid)) rows ≡ rows
unfolding collides
select-lacking new [] h = refl
select-lacking new (i ∷ rows) h = ground (arith, h, select-lacking new rows (ground (arith, h)))

-- The deletion of a new row brings the instances back.
delete_instance-new :
    (b : Backend) (new : Instance) (created_at now : ℕ) (db : Database)
    → b.commits ≡ true
    → b.formats now ≡ true
    → collides new db.instances ≡ false
    → (delete_instance b new.uuid now
        (record db { instances = stored new created_at ∷ db.instances })).0.instances
      ≡ db.instances
unfolding delete_instance with_tx settle delete_tx get_instance_tx delete_row release_name_tx
delete_instance-new b new created_at now db commits formats fresh =
    ground (arith, commits, formats, ==_refl new.uuid, select-lacking new db.instances fresh)

-- A creation in the store that succeeds puts the row in front.
create_instance-row :
    (b : Backend) (new : Instance) (cooldown checked_at created_at : ℕ) (capacity : Capacity)
    (db : Database)
    → (create_instance b new cooldown capacity checked_at created_at db).1 ≡ StoreResult.ok tt
    → (b.commits ≡ true)
      × (collides new db.instances ≡ false)
      × ((t : ℕ) × ((create_instance b new cooldown capacity checked_at created_at db).0
            ≡ record db { instances = stored new t ∷ db.instances }))
unfolding create_instance with_tx
create_instance-row b new cooldown checked_at created_at capacity db h =
    let (commits, body) =
      settle-ok b.commits db (create_tx b new cooldown capacity checked_at created_at db) h in
    let (_, _, inserted) = create_tx-ok b new cooldown capacity checked_at created_at db _ body in
    let (row, fresh, _, _) = insert_instance-ok b new _ db _ inserted in (commits, fresh, (_, row))

settle-err :
    {R A : Type 0} (commits : Bool) (db : R) (body : StoreResult (R × A)) {x : StoreError}
    → (settle commits db body).1 ≡ StoreResult.err x
    → (settle commits db body).0 ≡ db
unfolding settle
settle-err commits db (StoreResult.err e) h = refl
settle-err true db (StoreResult.ok (db', a)) h = cc
settle-err false db (StoreResult.ok (db', a)) h = refl

create_instance-failed :
    (b : Backend) (new : Instance) (cooldown checked_at created_at : ℕ) (capacity : Capacity)
    (db : Database) {x : StoreError}
    → (create_instance b new cooldown capacity checked_at created_at db).1 ≡ StoreResult.err x
    → (create_instance b new cooldown capacity checked_at created_at db).0 ≡ db
unfolding create_instance with_tx
create_instance-failed b new cooldown checked_at created_at capacity db h =
    settle-err b.commits db (create_tx b new cooldown capacity checked_at created_at db) h

external-err :
    {A : Type 0} (r : StoreResult A) {e : Error}
    → external r ≡ err e
    → (x : StoreError) × (r ≡ StoreResult.err x)
unfolding external
external-err (StoreResult.ok a) h = cc
external-err (StoreResult.err x) h = (x, refl)

module _ {M : Type 0} (m : Manager M) (lookups : Lookups) where
  pub check_request-unchanged :
      (request : NewRequest) (w : World M) → (check_request m lookups request w).0 ≡ w
  unfolding check_request check_nested require
  check_request-unchanged request w = ground arith

  -- The checks change nothing.
  plan_new-unchanged :
      (request : NewRequest) (now : ℕ) (w : World M) → (plan_new m lookups request now w).0 ≡ w
  unfolding plan_new settled allocate_step
  plan_new-unchanged request now w =
      let P : World M → Type 0 = λ v. v ≡ w in
      after-reads P w (check_request m lookups request w) _ (check_request-unchanged request w) refl
        (λ _ _. after-reads P w _ _ refl refl (λ checksum _. after-reads P w _ _ refl refl (λ _ _.
          after-reads P w _ _ refl refl (λ is_oci _. after-reads P w _ _ refl refl (λ subnet _.
            after-reads P w _ _ refl refl (λ host_id _. after-reads P w _ _ refl refl (λ place _.
              after-reads P w (host_capacity m host_id w) _ (host_capacity-unchanged m host_id w)
                refl (λ capacity _. refl))))))))

  -- A failure leaves the instances that there were.
  abbrev Restores : Database → {A : Type 0} → World M × Result Error A → Type 0
  Restores db r = (e : Error) → r.1 ≡ err e → r.0.db.instances ≡ db.instances

  unwind_new-Restores :
      (i : Instance) (t now : ℕ) (db : Database) (w : World M)
      → (m.backend on_unwind).commits ≡ true
      → (m.backend on_unwind).formats now ≡ true
      → collides i db.instances ≡ false
      → w.db ≡ record db { instances = stored i t ∷ db.instances }
      → Restores db (unwind_new m lookups {A = Instance} i now w)
  unfolding unwind_new
  unwind_new-Restores i t now db w commits formats fresh row e h =
      ap (λ d. (delete_instance (m.backend on_unwind) i.uuid now d).0.instances) row
      ∙ delete_instance-new (m.backend on_unwind) i t now db commits formats fresh

  record_built-Restores :
      (i : Instance) (t now : ℕ) (answer : Option State) (db : Database) (w : World M)
      → (m.backend on_unwind).commits ≡ true
      → (m.backend on_unwind).formats now ≡ true
      → collides i db.instances ≡ false
      → w.db ≡ record db { instances = stored i t ∷ db.instances }
      → Restores db (record_built m lookups i now answer w)
  unfolding record_built
  record_built-Restores i t now none db w commits formats fresh row =
      unwind_new-Restores i t now db w commits formats fresh row
  record_built-Restores i t now (some observed) db w commits formats fresh row = λ e h. cc

  build_on-Restores :
      (request : NewRequest) (plan : Plan) (guest : GuestNetwork ℕ) (network : Option String)
      (t now : ℕ) (db : Database) (w : World M)
      → (m.backend on_unwind).commits ≡ true
      → (m.backend on_unwind).formats now ≡ true
      → collides plan.instance db.instances ≡ false
      → w.db ≡ record db { instances = stored plan.instance t ∷ db.instances }
      → Restores db (build_on m lookups request now plan guest network w)
  unfolding build_on machine_call
  build_on-Restores request plan guest none t now db w commits formats fresh row =
      unwind_new-Restores plan.instance t now db w commits formats fresh row
  build_on-Restores request plan guest (some network) t now db w commits formats fresh row =
      after-both (Restores db) _ _ (λ e failed. absurd (ground (arith, failed)))
        (λ answer _.
          record_built-Restores plan.instance t now answer db _ commits formats fresh row)

  build_for-Restores :
      (request : NewRequest) (plan : Plan) (guest : NetworkResult (GuestNetwork ℕ)) (t now : ℕ)
      (db : Database) (w : World M)
      → (m.backend on_unwind).commits ≡ true
      → (m.backend on_unwind).formats now ≡ true
      → collides plan.instance db.instances ≡ false
      → w.db ≡ record db { instances = stored plan.instance t ∷ db.instances }
      → Restores db (build_for m lookups request now plan guest w)
  unfolding build_for
  build_for-Restores request plan (NetworkResult.err _) t now db w commits formats fresh row =
      unwind_new-Restores plan.instance t now db w commits formats fresh row
  build_for-Restores request plan (NetworkResult.ok guest) t now db w commits formats fresh row =
      build_on-Restores request plan guest (m.network_of request.owner_id) t now db w commits
        formats fresh row

  -- The insertion of the row, and what follows.
  written-Restores :
      (request : NewRequest) (plan : Plan) (checked_at created_at unwound_at : ℕ) (w : World M)
      → (m.backend on_unwind).commits ≡ true
      → (m.backend on_unwind).formats unwound_at ≡ true
      → Restores w.db (
          after
            (store_call
              (create_instance
                (m.backend on_create)
                plan.instance
                m.cooldown
                plan.capacity
                checked_at
                created_at)
              w)
            (λ _. build m lookups request unwound_at plan))
  unfolding store_call build
  written-Restores request plan checked_at created_at unwound_at w commits formats =
      after-both (Restores w.db) _ _
        (λ x failed y h.
          ap (λ d. d.instances)
            (create_instance-failed (m.backend on_create) plan.instance m.cooldown checked_at
              created_at plan.capacity w.db (external-err _ failed).1))
        (λ _ done.
          let (_, fresh, row) =
            create_instance-row (m.backend on_create) plan.instance m.cooldown checked_at created_at
              plan.capacity w.db (external-ok _ done) in
          build_for-Restores request plan _ row.0 unwound_at w.db _ commits formats fresh row.1)

  -- A creation that fails at whatever step leaves the instances that there were, if the clean-up can be done: its
  -- transaction commits, whatever the others do, and its time can be written.
  pub create-Restores :
      (request : NewRequest) (minted_at checked_at created_at unwound_at : ℕ) (w : World M)
      (e : Error)
      → (m.backend on_unwind).commits ≡ true
      → (m.backend on_unwind).formats unwound_at ≡ true
      → (create m lookups request minted_at checked_at created_at unwound_at w).1 ≡ err e
      → (create m lookups request minted_at checked_at created_at unwound_at w).0.db.instances
        ≡ w.db.instances
  unfolding create store_call build
  create-Restores request minted_at checked_at created_at unwound_at w e commits formats =
      let Q : World M × Result Error Instance → Type 0 = Restores w.db in
      let planned = plan_new m lookups request minted_at w in
      let before : planned.0 ≡ w = plan_new-unchanged request minted_at w in
      after-both Q planned _ (λ x _ y h. ap (λ v. v.db.instances) before)
        (λ plan _.
          subst
            (λ v. Q (
              after
                (store_call
                  (create_instance (m.backend on_create) plan.instance m.cooldown plan.capacity
                    checked_at created_at)
                  v)
                (λ _. build m lookups request unwound_at plan)))
            (sym before)
            (written-Restores request plan checked_at created_at unwound_at w commits formats))
        e

-- ===== src/Store/Instances/Kept.antt =====
-- The operations of crates/store/src/instances.rs and names.rs as requests, and the keys of the rows.
use bento.Shared.{
  ℕ, ◌≡◌, refl, arith, Bool, false, not, if◌then◌else◌, String, List, [], ◌∷◌, ◌==◌, string_eq,
  find, select, inl, inr, Option-cases, Bool-cases, nat_beq,
}
use bento.Shared.Int.{ℤ}
use bento.Types.{Instance, State, DesiredState, Visibility, Capacity}
use bento.Store.Database.{Database, Backend, ok}
use bento.Store.Names.{is_live, claim_name_tx, claim_name}
use bento.Store.Instances.{
  update_rows, collides, create_tx, create_instance, delete_row, delete_tx, delete_instance,
  rename_tx, rename_instance, resize_tx, resize, check_resize, update_instance, set_desired_state,
  set_observed_state, set_visibility, set_http_port, touch_last_seen, observe_states,
  update_observed_states,
}
use bento.Store.Instances.Success.{
  stored, insert_instance-ok, create_tx-ok, release_name_tx-ok, delete_tx-ok, rename_tx-ok,
  resize_tx-ok,
}
use bento.Store.Instances.Keys.{
  Lacks, IsDistinct, IsDistinct-select, IsDistinct-update, IsDistinct-rename, collides-false,
  is_live-false,
}

-- UUIDs, names, addresses and MAC addresses are unique.
pub record IsKeyed (rows : List Instance) : Type 0 where
  pub uuids : IsDistinct (λ i. i.uuid) rows
  pub names : IsDistinct (λ i. i.name) rows
  pub addresses : IsDistinct (λ i. i.address) rows
  pub macs : IsDistinct (λ i. i.mac) rows

pub data Request : Type 0 where
  create : Instance → (name_cooldown : ℕ) → Capacity → (checked_at created_at : ℕ) → Request
  delete : String → (now : ℕ) → Request
  rename : String → String → (name_cooldown claimed_at released_at : ℕ) → Request
  resizing : String → (vcpu memory_mib disk_gib : ℕ) → Bool → Capacity → Request
  checking_resize : String → (memory_mib disk_gib : ℕ) → Capacity → Request
  claiming : String → ℤ → (cooldown now : ℕ) → Request
  desired_state : String → DesiredState → Request
  observed_state : String → State → Request
  observed_states : List (String × State) → Request
  visibility : String → Visibility → Request
  http_port : String → ℕ → Request
  last_seen : String → ℕ → Request

-- The tables after a request.
unfoldable pub perform : Backend → Request → Database → Database
perform b (create i cooldown capacity checked_at created_at) db =
    (create_instance b i cooldown capacity checked_at created_at db).0
perform b (delete uuid now) db = (delete_instance b uuid now db).0
perform b (rename uuid name cooldown claimed_at released_at) db =
    (rename_instance b uuid name cooldown claimed_at released_at db).0
perform b (resizing uuid vcpu memory disk nested capacity) db =
    (resize b uuid vcpu memory disk nested capacity db).0
perform b (checking_resize uuid memory disk capacity) db =
    (check_resize b uuid memory disk capacity db).0
perform b (claiming name user_id cooldown now) db = (claim_name b name user_id cooldown now db).0
perform b (desired_state uuid state) db = (set_desired_state b uuid state db).0
perform b (observed_state uuid state) db = (set_observed_state b uuid state db).0
perform b (observed_states states) db = (update_observed_states b states db).0
perform b (visibility uuid v) db = (set_visibility b uuid v db).0
perform b (http_port uuid port) db = (set_http_port b uuid port db).0
perform b (last_seen uuid now) db = (touch_last_seen b uuid now db).0

-- A change of a row that leaves its keys alone.
pub record KeepsKeys (change : Instance → Instance) : Type 0 where
  pub uuid : (i : Instance) → (change i).uuid ≡ i.uuid
  pub name : (i : Instance) → (change i).name ≡ i.name
  pub address : (i : Instance) → (change i).address ≡ i.address
  pub mac : (i : Instance) → (change i).mac ≡ i.mac

claimed_free :
    (name : String) (user_id : ℤ) (cooldown now : ℕ) (db : Database)
    → claim_name_tx name user_id cooldown now db ≡ ok tt
    → is_live name db.instances ≡ false
unfolding claim_name_tx
claimed_free name user_id cooldown now db h = ground arith

IsKeyed-update :
    (uuid : String) (change : Instance → Instance) (rows : List Instance)
    → KeepsKeys change
    → IsKeyed rows
    → IsKeyed (update_rows uuid change rows)
IsKeyed-update uuid change rows same h = record {
  uuids = IsDistinct-update (λ i. i.uuid) uuid change rows same.uuid h.uuids;
  names = IsDistinct-update (λ i. i.name) uuid change rows same.name h.names;
  addresses = IsDistinct-update (λ i. i.address) uuid change rows same.address h.addresses;
  macs = IsDistinct-update (λ i. i.mac) uuid change rows same.mac h.macs;
}

pub update_instance-IsKeyed :
    (b : Backend) (uuid : String) (change : Instance → Instance) (db : Database)
    → KeepsKeys change
    → IsKeyed db.instances
    → IsKeyed (update_instance b uuid change db).0.instances
unfolding update_instance
update_instance-IsKeyed b uuid change db same h = elim (Bool-cases b.commits) [
  | inr fails ↦ rw fails h
  | inl works ↦ elim (Option-cases (find (λ i. i.uuid == uuid) db.instances)) [
    | inl absent ↦ rw (update_instance, works, absent) h
    | inr (i, found) ↦
        rw (update_instance, works, found) (IsKeyed-update uuid change db.instances same h)
  ]
]

stored-IsKeyed :
    (i : Instance) (rows : List Instance) (at : ℕ)
    → collides i rows ≡ false
    → IsKeyed rows
    → IsKeyed (stored i at ∷ rows)
stored-IsKeyed i rows at new h =
    let (u, n, a, m) = collides-false i rows new in
    record {
      uuids = (u, h.uuids);
      names = (n, h.names);
      addresses = (a, h.addresses);
      macs = (m, h.macs);
    }

pub create-IsKeyed :
    (b : Backend) (i : Instance) (cooldown : ℕ) (capacity : Capacity) (checked_at created_at : ℕ)
    (db db' : Database)
    → create_tx b i cooldown capacity checked_at created_at db ≡ ok (db', tt)
    → IsKeyed db.instances
    → IsKeyed db'.instances
create-IsKeyed b i cooldown capacity checked_at created_at db db' h keyed =
    let (_, _, inserted) = create_tx-ok b i cooldown capacity checked_at created_at db db' h in
    let (rows, new, _, _) =
      insert_instance-ok b i
        (if nat_beq i.created_at b.unix_epoch then created_at else i.created_at) db db' inserted in
    rw rows (stored-IsKeyed i db.instances _ new keyed)

IsKeyed-select :
    (test : Instance → Bool) (rows : List Instance) → IsKeyed rows → IsKeyed (select test rows)
IsKeyed-select test rows h = record {
  uuids = IsDistinct-select (λ i. i.uuid) test rows h.uuids;
  names = IsDistinct-select (λ i. i.name) test rows h.names;
  addresses = IsDistinct-select (λ i. i.address) test rows h.addresses;
  macs = IsDistinct-select (λ i. i.mac) test rows h.macs;
}

pub delete-IsKeyed :
    (b : Backend) (uuid : String) (now : ℕ) (db db' : Database) {i : Instance}
    → delete_tx b uuid now db ≡ ok (db', i)
    → IsKeyed db.instances
    → IsKeyed db'.instances
unfolding delete_row
delete-IsKeyed b uuid now db db' h keyed =
    let (_, released) = delete_tx-ok b uuid now db db' h in
    let (rows, _, _) = release_name_tx-ok b _ _ now (delete_row b uuid db) db' released in
    rw rows (IsKeyed-select (λ i. not (i.uuid == uuid)) db.instances keyed)

pub rename-IsKeyed :
    (b : Backend) (uuid name : String) (cooldown claimed_at released_at : ℕ) (db db' : Database)
    → rename_tx b uuid name cooldown claimed_at released_at db ≡ ok (db', tt)
    → IsKeyed db.instances
    → IsKeyed db'.instances
rename-IsKeyed b uuid name cooldown claimed_at released_at db db' h keyed =
    let (i, _, way) = rename_tx-ok b uuid name cooldown claimed_at released_at db db' h in
    elim way [
      | inl (_, same) ↦ rw same keyed
      | inr (claimed, released) ↦
          let (rows, _, _) = release_name_tx-ok b i.name i.owner_id released_at _ db' released in
          let free : Lacks (λ i. i.name) name db.instances =
            is_live-false name db.instances
              (claimed_free name i.owner_id cooldown claimed_at db claimed) in
          rw rows (record {
            uuids = IsDistinct-update (λ i. i.uuid) uuid _ db.instances (λ i. refl) keyed.uuids;
            names = IsDistinct-rename uuid name db.instances keyed.uuids keyed.names free;
            addresses =
                IsDistinct-update (λ i. i.address) uuid _ db.instances (λ i. refl) keyed.addresses;
            macs = IsDistinct-update (λ i. i.mac) uuid _ db.instances (λ i. refl) keyed.macs;
          })
    ]

pub resize-IsKeyed :
    (b : Backend) (uuid : String) (vcpu memory disk : ℕ) (nested : Bool) (capacity : Capacity)
    (db db' : Database)
    → resize_tx b uuid vcpu memory disk nested capacity db ≡ ok (db', tt)
    → IsKeyed db.instances
    → IsKeyed db'.instances
resize-IsKeyed b uuid vcpu memory disk nested capacity db db' h keyed =
    let (_, _, _, _, _, rows) = resize_tx-ok b uuid vcpu memory disk nested capacity db db' h in
    rw rows (
      IsKeyed-update uuid _ db.instances
        (record { uuid = λ i. refl; name = λ i. refl; address = λ i. refl; mac = λ i. refl }) keyed)

pub observe_states-IsKeyed :
    (states : List (String × State)) (rows : List Instance)
    → IsKeyed rows
    → IsKeyed (observe_states states rows)
unfolding observe_states
observe_states-IsKeyed [] rows h = h
observe_states-IsKeyed ((uuid, state) ∷ states) rows h = observe_states-IsKeyed states _ (
    IsKeyed-update uuid _ rows
      (record { uuid = λ i. refl; name = λ i. refl; address = λ i. refl; mac = λ i. refl }) h)

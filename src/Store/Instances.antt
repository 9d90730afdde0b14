-- ===== src/Store/Instances.antt =====
-- crates/store/src/instances.rs: the transactions on instances. Each reading of the clock is an argument.
-- A claim comes before each write of a name, so the index on names never refuses the write; the other
-- keys of a new row are checked at its insertion, as the schema has them.
pub mod Keys
pub mod Success
pub mod Kept
pub mod Requests
pub mod Room
pub mod Handover
pub mod Renaming
use bento.Shared.{
  ℕ, ◌+◌, ◌^◌, ◌-◌, min, Bool, true, false, ◌&&◌, ◌||◌, not, if◌then◌else◌, ltb, leb, nat_beq,
  String, List, [], ◌∷◌, Option, none, some, ◌==◌, string_eq, find, select, map,
}
use bento.Shared.Int.{ℤ, int_eq}
use bento.Types.{
  Instance, State, DesiredState, Visibility, Ceiling, limit, unbounded, Capacity, exceeded_by,
}
use bento.Store.Database.{
  Database, Backend, Tx, Result, ok, err, ◌>>=◌, Error, name_taken, not_found, sqlite, Resource,
  with_tx, Share,
}
use bento.Store.Names.{claim_name_tx, release_name_tx}

-- Integers are stored as i64.
unfoldable pub to_sql_int : ℕ → Result ℕ
to_sql_int value = if ltb value (2 ^ 63) then ok value else err sqlite

-- `used.saturating_add(requested)` on u64.
unfoldable pub saturating_add : ℕ → ℕ → ℕ
saturating_add a b = min (a + b) (2 ^ 64 - 1)

-- `COALESCE(SUM(column), 0) … WHERE host_id = ? AND uuid != ?`
unfoldable pub sum_on : (Instance → ℕ) → ℤ → String → List Instance → ℕ
sum_on column host_id exclude [] = 0
sum_on column host_id exclude (i ∷ rows) =
    if (i.host_id == host_id) && not (i.uuid == exclude)
    then column i + sum_on column host_id exclude rows
    else sum_on column host_id exclude rows

-- One turn of the loop over memory and disk.
unfoldable pub check_resource : Resource → (used requested : ℕ) → Ceiling → Result (Unit {0})
check_resource resource used requested unbounded = ok tt
check_resource resource used requested (limit n) =
    if exceeded_by (limit n) (saturating_add used requested)
    then err (Error.capacity resource used requested n)
    else ok tt

-- SQLite fails a sum beyond an i64.
unfoldable pub check_capacity_tx :
    (host_id : ℤ) (exclude_uuid : String) (add_memory add_disk : ℕ)
    → Capacity
    → Database
    → Result (Unit {0})
check_capacity_tx host_id exclude_uuid add_memory add_disk capacity db =
    to_sql_int (sum_on (λ i. i.memory_mib) host_id exclude_uuid db.instances) >>= λ memory.
    to_sql_int (sum_on (λ i. i.disk_gib) host_id exclude_uuid db.instances) >>= λ disk.
    check_resource Resource.memory memory add_memory capacity.memory_mib >>= λ _.
    check_resource Resource.disk disk add_disk capacity.disk_gib

unfoldable pub get_instance_tx : String → Database → Result Instance
get_instance_tx uuid db = elim (find (λ i. i.uuid == uuid) db.instances) [
  | none ↦ err not_found
  | some i ↦ ok i
]

-- `UPDATE instances SET … WHERE uuid = ?`
unfoldable pub update_rows : String → (Instance → Instance) → List Instance → List Instance
update_rows uuid change [] = []
update_rows uuid change (i ∷ rows) =
    (if i.uuid == uuid then change i else i) ∷ update_rows uuid change rows

-- The row collides with one in the table on a column that is a key.
unfoldable pub collides : Instance → List Instance → Bool
collides new [] = false
collides new (i ∷ rows) =
    (i.uuid == new.uuid)
    || (i.name == new.name)
    || (i.address == new.address)
    || (i.mac == new.mac)
    || collides new rows

unfoldable pub slot_to_sql : Option ℕ → Result (Option ℕ)
slot_to_sql none = ok none
slot_to_sql (some n) = to_sql_int n >>= λ m. ok (some m)

-- The column defaults to none: an insertion does not name `last_seen_at`.
unfoldable pub insert_instance : Backend → Instance → (created_at : ℕ) → Database → Result Database
insert_instance backend i created_at db = to_sql_int i.memory_mib >>= λ memory.
    to_sql_int i.disk_gib >>= λ disk.
    (if backend.formats created_at then ok tt else err sqlite) >>= λ (_ : Unit {0}).
    slot_to_sql i.slot >>= λ slot.
    if collides i db.instances || not (backend.instance_references i)
    then err sqlite
    else ok (record db {
      instances =
          record i {
            memory_mib = memory;
            disk_gib = disk;
            created_at = created_at;
            last_seen_at = none;
            slot = slot;
          }
          ∷ db.instances;
    })

module _ (backend : Backend) where
  unfoldable pub create_tx :
      Instance → (name_cooldown : ℕ) → Capacity → (checked_at created_at : ℕ) → Tx (Unit {0})
  create_tx i name_cooldown capacity checked_at created_at db =
      claim_name_tx i.name i.owner_id name_cooldown checked_at db >>= λ _.
      check_capacity_tx i.host_id "" i.memory_mib i.disk_gib capacity db >>= λ _.
      insert_instance backend i
        (if nat_beq i.created_at backend.unix_epoch then created_at else i.created_at) db
      >>= λ db'. ok (db', tt)

  unfoldable pub create_instance :
      Instance
      → (name_cooldown : ℕ) → Capacity
      → (checked_at created_at : ℕ) → Database
      → Database × Result (Unit {0})
  create_instance i name_cooldown capacity checked_at created_at =
      with_tx backend.commits (create_tx i name_cooldown capacity checked_at created_at)

  -- The deletion of the row, which takes its shares with it.
  unfoldable pub delete_row : String → Database → Database
  delete_row uuid db = record db {
    instances = select (λ i. not (i.uuid == uuid)) db.instances;
    shares = select (λ s. not (s.instance_uuid == uuid)) db.shares;
  }

  unfoldable pub delete_tx : String → (now : ℕ) → Tx Instance
  delete_tx uuid now db = get_instance_tx uuid db >>= λ i.
      release_name_tx backend i.name i.owner_id now (delete_row uuid db) >>= λ (db', _). ok (db', i)

  unfoldable pub delete_instance : String → (now : ℕ) → Database → Database × Result Instance
  delete_instance uuid now = with_tx backend.commits (delete_tx uuid now)

  unfoldable pub rename_tx :
      String → String → (name_cooldown : ℕ) → (claimed_at released_at : ℕ) → Tx (Unit {0})
  rename_tx uuid new_name name_cooldown claimed_at released_at db = get_instance_tx uuid db >>= λ i.
      if i.name == new_name
      then ok (db, tt)
      else (claim_name_tx new_name i.owner_id name_cooldown claimed_at db >>= λ _.
          release_name_tx backend i.name i.owner_id released_at (record db {
            instances = update_rows uuid (λ r. record r { name = new_name }) db.instances;
          }))

  unfoldable pub rename_instance :
      String
      → String
      → (name_cooldown : ℕ) → (claimed_at released_at : ℕ) → Database
      → Database × Result (Unit {0})
  rename_instance uuid new_name name_cooldown claimed_at released_at =
      with_tx backend.commits (rename_tx uuid new_name name_cooldown claimed_at released_at)

  unfoldable pub resize_tx :
      String → (vcpu memory_mib disk_gib : ℕ) → Bool → Capacity → Tx (Unit {0})
  resize_tx uuid vcpu memory_mib disk_gib nested capacity db =
      get_instance_tx uuid db >>= λ existing.
      check_capacity_tx existing.host_id uuid memory_mib disk_gib capacity db >>= λ _.
      to_sql_int memory_mib >>= λ memory. to_sql_int disk_gib >>= λ disk. ok (
        record db {
          instances =
              update_rows uuid
                (λ r. record r {
                  vcpu = vcpu;
                  memory_mib = memory;
                  disk_gib = disk;
                  nested = nested;
                })
                db.instances;
        },
        tt,
      )

  unfoldable pub resize :
      String
      → (vcpu memory_mib disk_gib : ℕ) → Bool
      → Capacity
      → Database
      → Database × Result (Unit {0})
  resize uuid vcpu memory_mib disk_gib nested capacity =
      with_tx backend.commits (resize_tx uuid vcpu memory_mib disk_gib nested capacity)

  unfoldable pub check_resize :
      String → (memory_mib disk_gib : ℕ) → Capacity → Database → Database × Result (Unit {0})
  check_resize uuid memory_mib disk_gib capacity = with_tx backend.commits (λ db.
      get_instance_tx uuid db >>= λ existing.
      check_capacity_tx existing.host_id uuid memory_mib disk_gib capacity db >>= λ _. ok (db, tt))

-- `update_instance`: one column of one row. The statement commits by itself.
unfoldable pub update_instance :
    Backend → String → (Instance → Instance) → Database → Database × Result (Unit {0})
update_instance backend uuid change db =
    if not backend.commits
    then (db, err sqlite)
    else (elim (find (λ i. i.uuid == uuid) db.instances) [
      | none ↦ (db, err not_found)
      | some _ ↦ (record db { instances = update_rows uuid change db.instances }, ok tt)
    ])

unfoldable pub set_desired_state :
    Backend → String → DesiredState → Database → Database × Result (Unit {0})
set_desired_state backend uuid state =
    update_instance backend uuid (λ r. record r { desired_state = state })

unfoldable pub set_observed_state :
    Backend → String → State → Database → Database × Result (Unit {0})
set_observed_state backend uuid state =
    update_instance backend uuid (λ r. record r { state = state })

unfoldable pub set_visibility :
    Backend → String → Visibility → Database → Database × Result (Unit {0})
set_visibility backend uuid visibility =
    update_instance backend uuid (λ r. record r { visibility = visibility })

unfoldable pub set_http_port : Backend → String → ℕ → Database → Database × Result (Unit {0})
set_http_port backend uuid port = update_instance backend uuid (λ r. record r { http_port = port })

unfoldable pub touch_last_seen :
    Backend → String → (now : ℕ) → Database → Database × Result (Unit {0})
touch_last_seen backend uuid now db =
    if backend.formats now
    then update_instance backend uuid (λ r. record r { last_seen_at = some now }) db
    else (db, err sqlite)

-- The poll of the domains; a UUID without a row is skipped.
unfoldable pub observe_states : List (String × State) → List Instance → List Instance
observe_states [] rows = rows
observe_states ((uuid, state) ∷ states) rows =
    observe_states states (update_rows uuid (λ r. record r { state = state }) rows)

unfoldable pub update_observed_states :
    Backend → List (String × State) → Database → Database × Result (Unit {0})
update_observed_states backend [] db = (db, ok tt)
update_observed_states backend (s ∷ states) db =
    with_tx backend.commits
      (λ d. ok (record d { instances = observe_states (s ∷ states) d.instances }, tt)) db

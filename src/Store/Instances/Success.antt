-- ===== src/Store/Instances/Success.antt =====
-- What a transaction of crates/store/src/instances.rs goes through on its way to success.
use bento.Shared.{
  ℕ, ◌<◌, ◌^◌, ◌≡◌, ◌⊎◌, ==_iff, refl, subst, arith, Bool, false, if◌then◌else◌, String, ◌∷◌, ◌==◌,
  string_eq, none, Bool-cases, inl, inr, Option-cases, nat_beq,
}
use bento.Shared.Int.{ℤ}
use bento.Types.{Instance, Capacity}
use bento.Store.Database.{Database, Backend, Result, ok, err, ◌>>=◌, >>=-eq-ok}
use bento.Store.Names.{put_release, claim_name_tx, release_name_tx}
use bento.Store.Instances.{
  to_sql_int, slot_to_sql, check_capacity_tx, get_instance_tx, update_rows, collides,
  insert_instance, create_tx, delete_row, delete_tx, rename_tx, resize_tx,
}

-- The row that an insertion makes of an instance.
abbrev pub stored : Instance → ℕ → Instance
stored i created_at = record i { created_at = created_at; last_seen_at = none }

pub insert_instance-ok :
    (b : Backend) (i : Instance) (created_at : ℕ) (db db' : Database)
    → insert_instance b i created_at db ≡ ok db'
    → (db' ≡ record db { instances = stored i created_at ∷ db.instances })
      × (collides i db.instances ≡ false)
      × (i.memory_mib < 2 ^ 63)
      × (i.disk_gib < 2 ^ 63)
unfolding insert_instance to_sql_int slot_to_sql
insert_instance-ok b i created_at db db' h = elim (Option-cases i.slot) [
  | inl no_slot ↦ ground (arith, no_slot)
  | inr (slot, has_slot) ↦ ground (arith, has_slot)
]

-- What a creation that succeeds went through.
pub create_tx-ok :
    (b : Backend) (i : Instance) (cooldown : ℕ) (capacity : Capacity) (checked_at created_at : ℕ)
    (db db' : Database)
    → create_tx b i cooldown capacity checked_at created_at db ≡ ok (db', tt)
    → (claim_name_tx i.name i.owner_id cooldown checked_at db ≡ ok tt)
      × (check_capacity_tx i.host_id "" i.memory_mib i.disk_gib capacity db ≡ ok tt)
      × (insert_instance b i
            (if nat_beq i.created_at b.unix_epoch then created_at else i.created_at)
            db
          ≡ ok db')
unfolding create_tx
create_tx-ok b i cooldown capacity checked_at created_at db db' h =
    let (_, claimed, h1) = >>=-eq-ok (claim_name_tx i.name i.owner_id cooldown checked_at db) _ h in
    let (_, room, h2) =
      >>=-eq-ok (check_capacity_tx i.host_id "" i.memory_mib i.disk_gib capacity db) _ h1 in
    let (new, inserted, h3) =
      >>=-eq-ok
        (insert_instance b i
          (if nat_beq i.created_at b.unix_epoch then created_at else i.created_at) db)
        _ h2 in
    (claimed, room, ground (arith, inserted, h3))

-- A release writes its own table only.
pub release_name_tx-ok :
    (b : Backend) (name : String) (owner : ℤ) (now : ℕ) (db db' : Database)
    → release_name_tx b name owner now db ≡ ok (db', tt)
    → (db'.instances ≡ db.instances)
      × (db'.shares ≡ db.shares)
      × (db'.released_names
          ≡ put_release
              (record { name = name; previous_owner_id = owner; released_at = now })
              db.released_names)
unfolding release_name_tx
release_name_tx-ok b name owner now db db' h = ground arith

-- What a deletion that succeeds went through.
pub delete_tx-ok :
    (b : Backend) (uuid : String) (now : ℕ) (db db' : Database) {i : Instance}
    → delete_tx b uuid now db ≡ ok (db', i)
    → (get_instance_tx uuid db ≡ ok i)
      × (release_name_tx b i.name i.owner_id now (delete_row b uuid db) ≡ ok (db', tt))
unfolding delete_tx
delete_tx-ok b uuid now db db' {i} h =
    let (j, found, h1) = >>=-eq-ok (get_instance_tx uuid db) _ h in
    let ((db1, _), released, h2) =
      >>=-eq-ok (release_name_tx b j.name j.owner_id now (delete_row b uuid db)) _ h1 in
    let same : j ≡ i = ground (arith, h2) in
    let tables : db1 ≡ db' = ground (arith, h2) in
    (
      subst (λ k. get_instance_tx uuid db ≡ ok k) same found,
      subst (λ k. release_name_tx b k.name k.owner_id now (delete_row b uuid db) ≡ ok (db', tt))
          same
          (subst (λ d. release_name_tx b j.name j.owner_id now (delete_row b uuid db) ≡ ok (d, tt))
            tables released),
    )

-- What a renaming that succeeds went through, if it had something to do.
pub rename_tx-ok :
    (b : Backend) (uuid name : String) (cooldown claimed_at released_at : ℕ) (db db' : Database)
    → rename_tx b uuid name cooldown claimed_at released_at db ≡ ok (db', tt)
    → (i : Instance) × (get_instance_tx uuid db ≡ ok i)
      × (((i.name ≡ name) × (db' ≡ db))
          ⊎ ((claim_name_tx name i.owner_id cooldown claimed_at db ≡ ok tt)
              × (release_name_tx b i.name i.owner_id released_at (record db {
                instances = update_rows uuid (λ r. record r { name = name }) db.instances;
              })
                  ≡ ok (db', tt))))
unfolding rename_tx
rename_tx-ok b uuid name cooldown claimed_at released_at db db' h =
    let (i, found, h1) = >>=-eq-ok (get_instance_tx uuid db) _ h in
    (
      i,
      found,
      elim (Bool-cases (i.name == name)) [
        | inl same ↦ inl ((==_iff i.name name).0 same, ground (arith, h1, same))
        | inr other ↦
            inr
              (>>=-eq-tt (claim_name_tx name i.owner_id cooldown claimed_at db) _ (rw other at h1))
      ],
    )
  where
    >>=-eq-tt :
        {B : Type 0} (m : Result (Unit {0})) (k : Result B) {c : B}
        → (m >>= λ _. k) ≡ ok c
        → (m ≡ ok tt) × (k ≡ ok c)
    >>=-eq-tt (ok _) k h = (refl, h)
    >>=-eq-tt (err e) k h = cc

-- What a resize that succeeds went through.
pub resize_tx-ok :
    (b : Backend) (uuid : String) (vcpu memory disk : ℕ) (nested : Bool) (capacity : Capacity)
    (db db' : Database)
    → resize_tx b uuid vcpu memory disk nested capacity db ≡ ok (db', tt)
    → (i : Instance) × (get_instance_tx uuid db ≡ ok i)
      × (check_capacity_tx i.host_id uuid memory disk capacity db ≡ ok tt)
      × (memory < 2 ^ 63)
      × (disk < 2 ^ 63)
      × (db' ≡ record db {
        instances =
            update_rows uuid
              (λ r. record r { vcpu = vcpu; memory_mib = memory; disk_gib = disk; nested = nested })
              db.instances;
      })
unfolding resize_tx to_sql_int
resize_tx-ok b uuid vcpu memory disk nested capacity db db' h =
    let (i, found, h1) = >>=-eq-ok (get_instance_tx uuid db) _ h in
    let (_, room, h2) = >>=-eq-ok (check_capacity_tx i.host_id uuid memory disk capacity db) _ h1 in
    (i, found, room, ground (arith, h2), ground (arith, h2), ground (arith, h2))

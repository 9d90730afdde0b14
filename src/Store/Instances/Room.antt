-- ===== src/Store/Instances/Room.antt =====
-- `check_capacity_tx` of crates/store/src/instances.rs and what a machine is provisioned with.
use bento.Shared.{
  ℕ, ◌+◌, ◌-◌, ◌≤◌, ◌<◌, ◌^◌, min, ◌≡◌, refl, ap, subst, arith, inl, inr, Bool, true, if◌then◌else◌,
  String, List, [], ◌∷◌, ◌==◌, ==_iff, string_eq, some, find, Bool-cases, Option-cases,
}
use bento.Shared.Int.{ℤ, int_eq}
use bento.Types.{Instance, Ceiling, limit, unbounded, Capacity, exceeded_by}
use bento.Store.Database.{Database, Backend, ok, >>=-eq-ok, with_tx-ok, Resource}
use bento.Store.Instances.{
  sum_on, saturating_add, check_resource, check_capacity_tx, to_sql_int, get_instance_tx,
  update_rows, create_tx, create_instance, resize_tx, resize,
}
use bento.Store.Instances.Keys.{Lacks, IsDistinct, update_rows-absent}
use bento.Store.Instances.Success.{stored, create_tx-ok, insert_instance-ok, resize_tx-ok}

-- What the instances of a machine have together of one resource.
unfoldable pub provisioned : (Instance → ℕ) → ℤ → List Instance → ℕ
provisioned column host_id [] = 0
provisioned column host_id (i ∷ rows) =
    if i.host_id == host_id
    then column i + provisioned column host_id rows
    else provisioned column host_id rows

-- The total is within the ceiling.
abbrev pub Within : Ceiling → ℕ → Type 0
Within unbounded total = Unit
Within (limit n) total = total ≤ n

-- Leaving out a UUID that no row has leaves out nothing.
sum_on-absent :
    (column : Instance → ℕ) (host_id : ℤ) (uuid : String) (rows : List Instance)
    → Lacks (λ i. i.uuid) uuid rows
    → sum_on column host_id uuid rows ≡ provisioned column host_id rows
unfolding sum_on provisioned
sum_on-absent column host_id uuid [] h = refl
sum_on-absent column host_id uuid (i ∷ rows) (h, t) =
    ground (arith, ==_iff i.uuid uuid, sum_on-absent column host_id uuid rows t)

check_resource-Within :
    (resource : Resource) (used requested : ℕ) (ceiling : Ceiling)
    → used < 2 ^ 63
    → requested < 2 ^ 63
    → check_resource resource used requested ceiling ≡ ok tt
    → Within ceiling (used + requested)
unfolding check_resource exceeded_by saturating_add
check_resource-Within resource used requested unbounded small new h = tt
check_resource-Within resource used requested (limit n) small new h =
    let fits : min (used + requested) (2 ^ 64 - 1) ≤ n = ground arith in omega arith

to_sql_int-ok : (n : ℕ) {m : ℕ} → to_sql_int n ≡ ok m → (m ≡ n) × (n < 2 ^ 63)
unfolding to_sql_int
to_sql_int-ok n h = ground arith

check_capacity_tx-Within :
    (host_id : ℤ) (exclude : String) (memory disk : ℕ) (capacity : Capacity) (db : Database)
    → check_capacity_tx host_id exclude memory disk capacity db ≡ ok tt
    → memory < 2 ^ 63
    → disk < 2 ^ 63
    → Within capacity.memory_mib (sum_on (λ i. i.memory_mib) host_id exclude db.instances + memory)
      × Within capacity.disk_gib (sum_on (λ i. i.disk_gib) host_id exclude db.instances + disk)
unfolding check_capacity_tx
check_capacity_tx-Within host_id exclude memory disk capacity db h m d =
    let (used_memory, s1, h1) =
      >>=-eq-ok (to_sql_int (sum_on (λ i. i.memory_mib) host_id exclude db.instances)) _ h in
    let (used_disk, s2, h2) =
      >>=-eq-ok (to_sql_int (sum_on (λ i. i.disk_gib) host_id exclude db.instances)) _ h1 in
    let (_, fits_memory, fits_disk) =
      >>=-eq-ok (check_resource Resource.memory used_memory memory capacity.memory_mib) _ h2 in
    let (e1, small1) = to_sql_int-ok _ s1 in
    let (e2, small2) = to_sql_int-ok _ s2 in
    (
      subst (λ used. Within capacity.memory_mib (used + memory)) e1
          (check_resource-Within Resource.memory used_memory memory capacity.memory_mib
            (rw e1 small1) m fits_memory),
      subst (λ used. Within capacity.disk_gib (used + disk)) e2
          (check_resource-Within Resource.disk used_disk disk capacity.disk_gib (rw e2 small2) d
            fits_disk),
    )

-- Giving one row its new figure replaces its old one in the sum.
provisioned-update :
    (column : Instance → ℕ) (change : Instance → Instance) (new : ℕ) (uuid : String)
    (rows : List Instance) {i : Instance}
    → ((r : Instance) → (column (change r) ≡ new) × ((change r).host_id ≡ r.host_id))
    → IsDistinct (λ i. i.uuid) rows
    → find (λ i. i.uuid == uuid) rows ≡ some i
    → provisioned column i.host_id (update_rows uuid change rows)
      ≡ sum_on column i.host_id uuid rows + new
unfolding provisioned update_rows sum_on
provisioned-update column change new uuid [] what distinct found = cc
provisioned-update column change new uuid (r ∷ rows) {i} what (u, us) found =
    elim (Bool-cases (r.uuid == uuid)) [
      | inl here ↦
          let absent : Lacks (λ i. i.uuid) uuid rows =
            subst (λ k. Lacks (λ i. i.uuid) k rows) ((==_iff r.uuid uuid).0 here) u in
          let this : r ≡ i = ground (arith, found, here) in
          let host : (r.host_id == i.host_id) ≡ true =
            (==_iff r.host_id i.host_id).1 (ap (λ i. i.host_id) this) in
          let (figure, machine) = what r in
          let moved : ((change r).host_id == i.host_id) ≡ true = rw machine host in
          ground (
            arith,
            here,
            host,
            moved,
            figure,
            update_rows-absent uuid change rows absent,
            sum_on-absent column i.host_id uuid rows absent,
          )
      | inr other ↦
          let ih =
            provisioned-update column change new uuid rows {i = i} what us
              (ground (arith, found, other)) in
          ground (arith, ih, other)
    ]

pub get_instance_tx-ok :
    (uuid : String) (db : Database) {i : Instance}
    → get_instance_tx uuid db ≡ ok i
    → find (λ i. i.uuid == uuid) db.instances ≡ some i
unfolding get_instance_tx
get_instance_tx-ok uuid db h = elim (Option-cases (find (λ i. i.uuid == uuid) db.instances)) [
  | inl absent ↦ absurd (ground (arith, absent))
  | inr (j, found) ↦ ground (arith, found)
]

added :
    (column : Instance → ℕ) (i : Instance) (at : ℕ) (rows : List Instance) (ceiling : Ceiling)
    → Lacks (λ i. i.uuid) "" rows
    → column (stored i at) ≡ column i
    → Within ceiling (sum_on column i.host_id "" rows + column i)
    → Within ceiling (provisioned column i.host_id (stored i at ∷ rows))
unfolding provisioned
added column i at rows ceiling unnamed same within =
    subst (Within ceiling)
      (ground
        (arith, same, sum_on-absent column i.host_id "" rows unnamed, ==_iff i.host_id i.host_id))
      within

module _ (b : Backend) where
  -- After a resize that succeeds, the instances on the machine of the resized instance have together no more
  -- memory and no more disk than the ceilings that the resize was checked against, if UUIDs are unique.
  pub resize-Within :
      (uuid : String) (vcpu memory disk : ℕ) (nested : Bool) (capacity : Capacity) (db : Database)
      {i : Instance}
      → IsDistinct (λ i. i.uuid) db.instances
      → get_instance_tx uuid db ≡ ok i
      → (resize b uuid vcpu memory disk nested capacity db).1 ≡ ok tt
      → Within capacity.memory_mib (
          provisioned
            (λ i. i.memory_mib)
            i.host_id
            (resize b uuid vcpu memory disk nested capacity db).0.instances)
        × Within capacity.disk_gib (
            provisioned
              (λ i. i.disk_gib)
              i.host_id
              (resize b uuid vcpu memory disk nested capacity db).0.instances)
  unfolding resize
  resize-Within uuid vcpu memory disk nested capacity db {i} distinct known h =
      let done = with_tx-ok b.commits (resize_tx b uuid vcpu memory disk nested capacity) db h in
      let (j, found, room, m, d, rows) =
        resize_tx-ok b uuid vcpu memory disk nested capacity db _ done in
      let same : j ≡ i = ground (arith, found, known) in
      let (in_memory, in_disk) =
        check_capacity_tx-Within i.host_id uuid memory disk capacity db
          (subst (λ k. check_capacity_tx k.host_id uuid memory disk capacity db ≡ ok tt) same room)
          m d in
      let change : Instance → Instance =
        λ r. record r { vcpu = vcpu; memory_mib = memory; disk_gib = disk; nested = nested } in
      let row = get_instance_tx-ok uuid db known in
      rw rows (
        rw
            (provisioned-update (λ i. i.memory_mib) change memory uuid db.instances
              (λ r. (refl, refl)) distinct row)
            in_memory,
        rw
            (provisioned-update (λ i. i.disk_gib) change disk uuid db.instances (λ r. (refl, refl))
              distinct row)
            in_disk,
      )

  -- After a creation that succeeds, the instances on the machine of the new one have together no more memory
  -- and no more disk than the ceilings that the creation was checked against, if no instance has an empty UUID.
  pub create_instance-Within :
      (i : Instance) (cooldown : ℕ) (capacity : Capacity) (checked_at created_at : ℕ)
      (db : Database)
      → Lacks (λ i. i.uuid) "" db.instances
      → (create_instance b i cooldown capacity checked_at created_at db).1 ≡ ok tt
      → Within capacity.memory_mib (
          provisioned
            (λ i. i.memory_mib)
            i.host_id
            (create_instance b i cooldown capacity checked_at created_at db).0.instances)
        × Within capacity.disk_gib (
            provisioned
              (λ i. i.disk_gib)
              i.host_id
              (create_instance b i cooldown capacity checked_at created_at db).0.instances)
  unfolding create_instance
  create_instance-Within i cooldown capacity checked_at created_at db unnamed h =
      let done =
        with_tx-ok b.commits (create_tx b i cooldown capacity checked_at created_at) db h in
      let (_, room, inserted) =
        create_tx-ok b i cooldown capacity checked_at created_at db _ done in
      let (rows, _, m, d) = insert_instance-ok b i _ db _ inserted in
      let (in_memory, in_disk) =
        check_capacity_tx-Within i.host_id "" i.memory_mib i.disk_gib capacity db room m d in
      rw rows (
        added (λ i. i.memory_mib) i _ db.instances capacity.memory_mib unnamed refl in_memory,
        added (λ i. i.disk_gib) i _ db.instances capacity.disk_gib unnamed refl in_disk,
      )

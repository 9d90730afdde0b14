-- ===== src/Store/Slots.antt =====
-- crates/store/src/runners.rs: the runner prefix, which says how many slots a user's /24 divides into,
-- and the rows that say which host owns each slot. The rows of `runner_slots` stand in the order of their
-- key. Whether a host exists, which `owner_host_id` refers to, is a parameter.
pub mod Owners
pub mod Claims
pub mod Numbers
pub mod Moved
pub mod Kept
mod Tests
pub mod Ranges
use bento.Shared.{
  ℕ, zero, suc, ◌+◌, ◌*◌, ◌-◌, ◌^◌, ◌/◌, ◌≡◌, refl, arith, Bool, true, false, ◌&&◌, not,
  if◌then◌else◌, ltb, leb, nat_beq, String, List, [], ◌∷◌, Option, none, some, ◌==◌, find, ◌++◌,
}
use bento.Shared.Int.{ℤ, int_eq}
use bento.Shared.Parse.{chars, last_part, parse_u8}
use bento.Types.{Instance, Slot, SlotState, slot_state_beq, Deployment, slot_count}
use bento.Store.Database.{
  Result, ok, err, ◌>>=◌, settle, sqlite, runner_prefix_outside, runner_prefix_strands_slot,
  runner_prefix_splits_owners, no_such_slot, slot_in_use,
}
use bento.Store.Instances.{to_sql_int}
use bento.Store.Lease.{succ_ℤ}

-- The tables that divide the addresses between the hosts.
pub record Division : Type 0 where
  pub prefix : ℕ  -- u8
  pub slots : List Slot
  pub instances : List Instance

-- `SELECT … WHERE slot = ?`
unfoldable pub slot_row : ℕ → List Slot → Option Slot
slot_row n [] = none
slot_row n (s ∷ rows) = if nat_beq s.slot n then some s else slot_row n rows

-- `8 - prefix.saturating_sub(24)`
unfoldable pub octet_shift : ℕ → ℕ
octet_shift prefix = 8 - (prefix - 24)

-- `octet >> shift` for the number after the last dot of the address.
unfoldable pub slot_of_address : String → (shift : ℕ) → Option ℕ
slot_of_address address shift = elim (parse_u8 (last_part b'.' (chars address))) [
  | none ↦ none
  | some octet ↦ some (octet / 2 ^ shift)
]

-- `MAX(slot)`
unfoldable pub highest_slot : List Slot → Option ℕ
highest_slot [] = none
highest_slot (s ∷ rows) = elim (highest_slot rows) [
  | none ↦ some s.slot
  | some n ↦ if ltb n s.slot then some s.slot else some n
]

-- `(0..ratio).map(|k| first + k)`
unfoldable pub run_from : ℕ → ℕ → List ℕ
run_from first zero = []
run_from first (suc n) = first ∷ run_from (first + 1) n

unfoldable pub children : (old new slot : ℕ) → List ℕ
children old new slot =
    if ltb old new
    then run_from (slot * 2 ^ (new - old)) (2 ^ (new - old))
    else (slot / 2 ^ (old - new)) ∷ []

-- One turn of the inner loop: the row is put under the number, unless a row of the same owner is there.
unfoldable pub put_child : (prefix : ℕ) → Slot → (slot : ℕ) → List Slot → Result (List Slot)
put_child prefix row slot next = elim (slot_row slot next) [
  | none ↦ ok (next ++ record row { slot = slot } ∷ [])
  | some existing ↦
      if (existing.owner_host_id == row.owner_host_id) && slot_state_beq existing.state row.state
      then ok next
      else err (runner_prefix_splits_owners prefix slot)
]

unfoldable pub put_children : (prefix : ℕ) → Slot → List ℕ → List Slot → Result (List Slot)
put_children prefix row [] next = ok next
put_children prefix row (slot ∷ rest) next =
    put_child prefix row slot next >>= λ more. put_children prefix row rest more

unfoldable pub renumbered : (old new : ℕ) → List Slot → List Slot → Result (List Slot)
renumbered old new [] next = ok next
renumbered old new (row ∷ rows) next =
    put_children new row (children old new row.slot) next >>= λ more. renumbered old new rows more

-- `INSERT INTO runner_slots`, for a number that has no row yet.
unfoldable pub insert_row : Slot → List Slot → List Slot
insert_row s [] = s ∷ []
insert_row s (r ∷ rows) = if ltb s.slot r.slot then s ∷ r ∷ rows else r ∷ insert_row s rows

unfoldable pub insert_rows : List Slot → List Slot → Result (List Slot)
insert_rows [] table = ok table
insert_rows (s ∷ rest) table = to_sql_int s.slot >>= λ _. elim (slot_row s.slot table) [
  | none ↦ insert_rows rest (insert_row s table)
  | some _ ↦ err sqlite
]

-- Each instance moves to the slot that holds its address, which has to be a row.
unfoldable pub place_instances :
    (shift : ℕ) (slots : List Slot) → List Instance → Result (List Instance)
place_instances shift slots [] = ok []
place_instances shift slots (i ∷ rows) =
    (elim (slot_of_address i.address shift) [
      | none ↦ ok (record i { slot = none })
      | some n ↦ elim (slot_row n slots) [
        | none ↦ err sqlite
        | some _ ↦ ok (record i { slot = some n })
      ]
    ])
    >>= λ placed. place_instances shift slots rows >>= λ rest. ok (placed ∷ rest)

unfoldable pub renumber_slots : (old new : ℕ) → Division → Result Division
renumber_slots old new d = renumbered old new d.slots [] >>= λ next.
    insert_rows next [] >>= λ slots.
    place_instances (octet_shift new) slots d.instances >>= λ instances.
    ok (record d { slots = slots; instances = instances })

unfoldable pub check_highest : (prefix : ℕ) → List Slot → Result (Unit {0})
check_highest prefix slots = elim (highest_slot slots) [
  | none ↦ ok tt
  | some highest ↦
      if leb (slot_count (record { runner_prefix = prefix })) highest
      then err (runner_prefix_strands_slot prefix highest)
      else ok tt
]

unfoldable pub set_prefix_tx : (prefix : ℕ) → Division → Result (Division × Deployment)
set_prefix_tx prefix d = check_highest prefix d.slots >>= λ _.
    (if nat_beq d.prefix prefix then ok d else renumber_slots d.prefix prefix d) >>= λ moved.
    ok (record moved { prefix = prefix }, record { runner_prefix = prefix })

unfoldable pub set_runner_prefix : Bool → (prefix : ℕ) → Division → Division × Result Deployment
set_runner_prefix commits prefix d =
    if not (leb 24 prefix && leb prefix 27)
    then (d, err (runner_prefix_outside prefix))
    else settle commits d (set_prefix_tx prefix d)

-- How many instances of other hosts have an address in the slot; one with no slot does not count.
unfoldable pub occupied_by_others : (shift slot : ℕ) (host_id : ℤ) → List Instance → ℕ
occupied_by_others shift slot host_id [] = 0
occupied_by_others shift slot host_id (i ∷ rows) =
    (elim i.slot [
      | none ↦ 0
      | some _ ↦ if i.host_id == host_id then 0 else (elim (slot_of_address i.address shift) [
        | none ↦ 0
        | some n ↦ if nat_beq n slot then 1 else 0
      ])
    ])
    + occupied_by_others shift slot host_id rows

-- The columns that `ON CONFLICT` sets.
unfoldable pub change_owner : ℤ → Slot → Slot
change_owner host_id s = record s {
  owner_host_id = host_id;
  ownership_epoch = succ_ℤ s.ownership_epoch;
  state = SlotState.active;
  source_host_id = none;
  destination_host_id = none;
  operation_id = none;
}

unfoldable pub update_slot : ℕ → (Slot → Slot) → List Slot → List Slot
update_slot n change [] = []
update_slot n change (s ∷ rows) =
    (if nat_beq s.slot n then change s else s) ∷ update_slot n change rows

unfoldable pub new_slot : ℕ → ℤ → Slot
new_slot slot host_id = record {
  slot = slot;
  state = SlotState.active;
  owner_host_id = host_id;
  ownership_epoch = ℤ.pos 0;
  source_host_id = none;
  destination_host_id = none;
  operation_id = none;
}

module _ (host_exists : ℤ → Bool) where
  -- The insertion or the update.
  unfoldable pub upsert_slot : ℕ → ℤ → List Slot → Result (List Slot)
  upsert_slot slot host_id rows = elim (slot_row slot rows) [
    | none ↦
        if host_exists host_id then ok (insert_row (new_slot slot host_id) rows) else err sqlite
    | some s ↦
        if (s.owner_host_id == host_id)
        then ok rows
        else if host_exists host_id
        then ok (update_slot slot (change_owner host_id) rows)
        else err sqlite
  ]

  unfoldable pub claim_slot_tx : (slot : ℕ) → ℤ → Division → Result (Division × Slot)
  claim_slot_tx slot host_id d =
      let count = slot_count (record { runner_prefix = d.prefix }) in
      let occupied = occupied_by_others (octet_shift d.prefix) slot host_id d.instances in
      if leb count slot
      then err (no_such_slot slot count)
      else if ltb 0 occupied
      then err (slot_in_use slot occupied)
      else (to_sql_int slot >>= λ _. upsert_slot slot host_id d.slots >>= λ rows.
          elim (slot_row slot rows) [
            | none ↦ err sqlite
            | some s ↦ ok (record d { slots = rows }, s)
          ])

  unfoldable pub claim_slot : Bool → (slot : ℕ) → ℤ → Division → Division × Result Slot
  claim_slot commits slot host_id d = settle commits d (claim_slot_tx slot host_id d)

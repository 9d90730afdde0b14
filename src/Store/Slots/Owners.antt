-- ===== src/Store/Slots/Owners.antt =====
-- Who owns which addresses, before and after the runner prefix changes (crates/store/src/runners.rs).
use bento.Shared.{
  ℕ, ◌-◌, ◌^◌, ◌/◌, ◌≡◌, refl, sym, subst, arith, Bool, true, ◌&&◌, if◌then◌else◌, leb, nat_beq,
  ◌⊎◌, inl, inr, List, [], ◌∷◌, ◌++◌, none, some, ◌==◌, ==_iff, All, Bool-cases, Option-cases,
}
use bento.Shared.Int.{int_eq}
use bento.Types.{Slot, SlotState, slot_state_beq, Deployment}
use bento.Store.Database.{ok, ◌>>=◌, >>=-eq-ok, settle, settle-ok}
use bento.Store.Instances.{to_sql_int}
use bento.Store.Slots.{
  Division, slot_row, octet_shift, children, put_child, put_children, renumbered, insert_row,
  insert_rows, place_instances, renumber_slots, check_highest, set_prefix_tx, set_runner_prefix,
}
use bento.Store.Slots.Ranges.{IsRunnerPrefix, All-children}

-- The number has a row with the owner and the state of another.
abbrev pub HasOwner : Slot → List Slot → ℕ → Type 0
HasOwner s rows n =
    (r : Slot) × (slot_row n rows ≡ some r)
    × (r.owner_host_id ≡ s.owner_host_id)
    × (r.state ≡ s.state)

-- Every number that has a row keeps it.
abbrev Kept : List Slot → List Slot → Type 0
Kept rows more = (n : ℕ) (r : Slot) → slot_row n rows ≡ some r → slot_row n more ≡ some r

HasOwner-Kept :
    (s : Slot) (rows more : List Slot) (n : ℕ)
    → Kept rows more
    → HasOwner s rows n
    → HasOwner s more n
HasOwner-Kept s rows more n kept (r, found, owner, state) = (r, kept n r found, owner, state)

All-Kept :
    (s : Slot) (rows more : List Slot) (ns : List ℕ)
    → Kept rows more
    → All (HasOwner s rows) ns
    → All (HasOwner s more) ns
All-Kept s rows more [] kept all = tt
All-Kept s rows more (n ∷ ns) kept (here, rest) =
    (HasOwner-Kept s rows more n kept here, All-Kept s rows more ns kept rest)

slot_row-append :
    (n : ℕ) (rows : List Slot) (s : Slot)
    → slot_row n (rows ++ s ∷ []) ≡ elim (slot_row n rows) [
      | none ↦ if nat_beq s.slot n then some s else none
      | some r ↦ some r
    ]
unfolding slot_row
slot_row-append n [] s = refl
slot_row-append n (r ∷ rows) s = ground (arith, slot_row-append n rows s)

slot_state_beq-eq : (a b : SlotState) → slot_state_beq a b ≡ true → a ≡ b
slot_state_beq-eq SlotState.active SlotState.active h = refl
slot_state_beq-eq SlotState.draining SlotState.draining h = refl
slot_state_beq-eq SlotState.moving SlotState.moving h = refl
slot_state_beq-eq SlotState.active SlotState.draining h = cc
slot_state_beq-eq SlotState.active SlotState.moving h = cc
slot_state_beq-eq SlotState.draining SlotState.active h = cc
slot_state_beq-eq SlotState.draining SlotState.moving h = cc
slot_state_beq-eq SlotState.moving SlotState.active h = cc
slot_state_beq-eq SlotState.moving SlotState.draining h = cc

put_child-ok :
    (prefix : ℕ) (row : Slot) (slot : ℕ) (next : List Slot) {more : List Slot}
    → put_child prefix row slot next ≡ ok more
    → HasOwner row more slot × Kept next more
unfolding put_child
put_child-ok prefix row slot next {more} h = elim (Option-cases (slot_row slot next)) [
  | inl fresh ↦
      let new : Slot = record row { slot = slot } in
      let e : next ++ new ∷ [] ≡ more = ground (arith, h, fresh) in
      subst (λ m. HasOwner row m slot × Kept next m) e
        (
          (new, ground (arith, slot_row-append slot next new, fresh), refl, refl),
          λ n r found. ground (arith, slot_row-append n next new, found),
        )
  | inr (r, found) ↦
      let same : (((r.owner_host_id == row.owner_host_id) && slot_state_beq r.state row.state)
            ≡ true)
          × (next ≡ more) =
        ground (arith, h, found) in
      subst (λ m. HasOwner row m slot × Kept next m) same.1
        (
          (
            r,
            found,
            ground (arith, same.0, ==_iff r.owner_host_id row.owner_host_id),
            slot_state_beq-eq r.state row.state (ground (arith, same.0)),
          ),
          λ n s e. e,
        )
]

put_children-ok :
    (prefix : ℕ) (row : Slot) (ns : List ℕ) (next : List Slot) {more : List Slot}
    → put_children prefix row ns next ≡ ok more
    → All (HasOwner row more) ns × Kept next more
unfolding put_children
put_children-ok prefix row [] next h = (tt, subst (Kept next) (ground (arith, h)) (λ n r e. e))
put_children-ok prefix row (n ∷ ns) next {more} h =
    let (mid, first, rest) = >>=-eq-ok (put_child prefix row n next) _ h in
    let (here, kept) = put_child-ok prefix row n next first in
    let (all, later) = put_children-ok prefix row ns mid rest in
    ((HasOwner-Kept row mid more n later here, all), λ m r e. later m r (kept m r e))

renumbered-ok :
    (old new : ℕ) (rows next : List Slot) {more : List Slot}
    → renumbered old new rows next ≡ ok more
    → ((n : ℕ) (s : Slot) → slot_row n rows ≡ some s → All (HasOwner s more) (children old new n))
      × Kept next more
unfolding renumbered slot_row
renumbered-ok old new [] next h =
    (λ n s e. absurd (ground (arith, e)), subst (Kept next) (ground (arith, h)) (λ n r e. e))
renumbered-ok old new (row ∷ rows) next {more} h =
    let (mid, first, rest) =
      >>=-eq-ok (put_children new row (children old new row.slot) next) _ h in
    let (here, kept) = put_children-ok new row (children old new row.slot) next first in
    let (all, later) = renumbered-ok old new rows mid rest in
    (
      λ n s e. elim (Bool-cases (nat_beq row.slot n)) [
        | inl this ↦
            let number : row.slot ≡ n = ground (arith, this) in
            let it : row ≡ s = ground (arith, this, e) in
            subst (λ r. All (HasOwner r more) (children old new n)) it
              (subst (λ m. All (HasOwner row more) (children old new m)) number
                (All-Kept row mid more (children old new row.slot) later here))
        | inr other ↦ all n s (ground (arith, other, e))
      ],
      λ m r e. later m r (kept m r e),
    )

pub slot_row-insert_row :
    (n : ℕ) (s : Slot) (rows : List Slot)
    → slot_row s.slot rows ≡ none
    → slot_row n (insert_row s rows) ≡ (if nat_beq s.slot n then some s else slot_row n rows)
unfolding slot_row insert_row
slot_row-insert_row n s [] fresh = refl
slot_row-insert_row n s (r ∷ rows) fresh =
    let ih : slot_row s.slot rows ≡ none
        → slot_row n (insert_row s rows) ≡ (if nat_beq s.slot n then some s else slot_row n rows) =
      slot_row-insert_row n s rows in
    elim (Bool-cases (nat_beq r.slot s.slot)) [
      | inl same ↦ absurd (ground (arith, same, fresh))
      | inr other ↦ ground (arith, other, fresh, ih (ground (arith, other, fresh)))
    ]

insert_row-Kept :
    (s : Slot) (rows : List Slot) → slot_row s.slot rows ≡ none → Kept rows (insert_row s rows)
insert_row-Kept s rows fresh n r found = elim (Bool-cases (nat_beq s.slot n)) [
  | inl same ↦
      let e : s.slot ≡ n = ground (arith, same) in
      absurd (ground (arith, subst (λ m. slot_row m rows ≡ none) e fresh, found))
  | inr other ↦ ground (arith, slot_row-insert_row n s rows fresh, other, found)
]

pub insert_rows-ok :
    (rows table : List Slot) {slots : List Slot}
    → insert_rows rows table ≡ ok slots
    → Kept rows slots × Kept table slots
unfolding insert_rows slot_row
insert_rows-ok [] table h =
    (λ n r e. absurd (ground (arith, e)), subst (Kept table) (ground (arith, h)) (λ n r e. e))
insert_rows-ok (s ∷ rest) table {slots} h =
    let (_, _, h1) = >>=-eq-ok (to_sql_int s.slot) _ h in
    elim (Option-cases (slot_row s.slot table)) [
      | inl fresh ↦
          let (later, kept) = insert_rows-ok rest (insert_row s table) (rw fresh at h1) in
          (
            λ n r e. elim (Bool-cases (nat_beq s.slot n)) [
              | inl this ↦ kept n r (ground (arith, slot_row-insert_row n s table fresh, this, e))
              | inr other ↦ later n r (ground (arith, other, e))
            ],
            λ n r e. kept n r (insert_row-Kept s table fresh n r e),
          )
      | inr (r, taken) ↦ absurd (ground (arith, taken, h1))
    ]

renumber_slots-ok :
    (old new : ℕ) (d : Division) {d' : Division}
    → renumber_slots old new d ≡ ok d'
    → (n : ℕ) (s : Slot) → slot_row n d.slots ≡ some s
    → All (HasOwner s d'.slots) (children old new n)
unfolding renumber_slots
renumber_slots-ok old new d {d'} h n s found =
    let (next, h1, k1) = >>=-eq-ok (renumbered old new d.slots []) _ h in
    let (slots, h2, k2) = >>=-eq-ok (insert_rows next []) _ k1 in
    let (placed, h3, k3) = >>=-eq-ok (place_instances (octet_shift new) slots d.instances) _ k2 in
    let e : slots ≡ d'.slots = ground (arith, k3) in
    subst (λ r. All (HasOwner s r) (children old new n)) e
      (All-Kept s next slots (children old new n) (insert_rows-ok next [] h2).0
        ((renumbered-ok old new d.slots [] h1).0 n s found))

pub set_runner_prefix-ok :
    (commits : Bool) (prefix : ℕ) (d : Division) {deployment : Deployment}
    → (set_runner_prefix commits prefix d).1 ≡ ok deployment
    → IsRunnerPrefix prefix
      × (set_prefix_tx prefix d ≡ ok ((set_runner_prefix commits prefix d).0, deployment))
unfolding set_runner_prefix
set_runner_prefix-ok commits prefix d {deployment} h =
    elim (Bool-cases (leb 24 prefix && leb prefix 27)) [
      | inl inside ↦
          let body : (settle commits d (set_prefix_tx prefix d)).1 ≡ ok deployment =
            ground (arith, inside, h) in
          let (_, run) = settle-ok commits d (set_prefix_tx prefix d) body in
          (ground (arith, inside), rw inside run)
      | inr outside ↦ absurd (ground (arith, outside, h))
    ]

-- The tables that a change of the prefix leaves.
pub set_prefix_tx-ok :
    (prefix : ℕ) (d d' : Division) {deployment : Deployment}
    → set_prefix_tx prefix d ≡ ok (d', deployment)
    → (d' ≡ record d { prefix = prefix }) × (d.prefix ≡ prefix)
      ⊎ ((moved : Division) × (renumber_slots d.prefix prefix d ≡ ok moved)
          × (d' ≡ record moved { prefix = prefix }))
unfolding set_prefix_tx
set_prefix_tx-ok prefix d d' {deployment} h =
    let (_, _, h1) = >>=-eq-ok (check_highest prefix d.slots) _ h in
    elim (Bool-cases (nat_beq d.prefix prefix)) [
      | inl same ↦ inl (ground (arith, same, h1), ground (arith, same))
      | inr other ↦
          let k : (renumber_slots d.prefix prefix d >>= λ moved.
          ok (record moved { prefix = prefix }, record { runner_prefix = prefix }))
              ≡ ok (d', deployment) =
            rw other at h1 in
          let (moved, run, k1) = >>=-eq-ok (renumber_slots d.prefix prefix d) _ k in
          inr (moved, run, ground (arith, k1))
    ]

set_runner_prefix-kept :
    (commits : Bool) (prefix : ℕ) (d : Division) (octet : ℕ) {s : Slot} {deployment : Deployment}
    → IsRunnerPrefix d.prefix
    → (set_runner_prefix commits prefix d).1 ≡ ok deployment
    → slot_row (octet / 2 ^ octet_shift d.prefix) d.slots ≡ some s
    → HasOwner s (set_runner_prefix commits prefix d).0.slots (octet / 2 ^ octet_shift prefix)
set_runner_prefix-kept commits prefix d octet {s} valid h found =
    let d' = (set_runner_prefix commits prefix d).0 in
    let (inside, body) = set_runner_prefix-ok commits prefix d h in
    elim (set_prefix_tx-ok prefix d d' body) [
      | inl (left, same) ↦
          let e : slot_row (octet / 2 ^ octet_shift prefix) d'.slots ≡ some s =
            rw (left, sym same) found in
          (s, e, refl, refl)
      | inr (moved, run, left) ↦
          let all = renumber_slots-ok d.prefix prefix d run _ s found in
          let owned =
            All-children (HasOwner s moved.slots) d.prefix prefix octet valid inside all in
          subst (λ r. HasOwner s r.slots (octet / 2 ^ octet_shift prefix)) (sym left) owned
    ]

octet_shift-width : (prefix : ℕ) → IsRunnerPrefix prefix → octet_shift prefix ≡ 32 - prefix
unfolding octet_shift
octet_shift-width prefix inside = omega (arith, inside)

-- When the runner prefix has changed, an address whose slot had an owner lies in a slot with a row again, with the
-- same owner and state (one whose slot had none may have got one, by a merge); for a prefix between 24 and 27 before.
pub set_runner_prefix-HasOwner :
    (commits : Bool) (prefix : ℕ) (d : Division) (octet : ℕ) {s : Slot} {deployment : Deployment}
    → IsRunnerPrefix d.prefix
    → (set_runner_prefix commits prefix d).1 ≡ ok deployment
    → slot_row (octet / 2 ^ (32 - d.prefix)) d.slots ≡ some s
    → HasOwner s (set_runner_prefix commits prefix d).0.slots (octet / 2 ^ (32 - prefix))
set_runner_prefix-HasOwner commits prefix d octet {s} valid h found =
    let inside = (set_runner_prefix-ok commits prefix d h).0 in
    subst (λ w. HasOwner s (set_runner_prefix commits prefix d).0.slots (octet / 2 ^ w))
      (octet_shift-width prefix inside)
      (set_runner_prefix-kept commits prefix d octet {s = s} valid h (
        subst (λ w. slot_row (octet / 2 ^ w) d.slots ≡ some s)
          (sym (octet_shift-width d.prefix valid)) found))

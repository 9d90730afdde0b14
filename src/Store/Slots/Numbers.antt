-- ===== src/Store/Slots/Numbers.antt =====
-- The numbers of the rows, and their order (crates/store/src/runners.rs).
use bento.Shared.{
  ℕ, zero, suc, ◌+◌, ◌*◌, ◌-◌, ◌^◌, ◌/◌, ◌≤◌, ◌<◌, ◌≡◌, subst, arith, false, ltb, nat_beq, inl, inr,
  List, [], ◌∷◌, ◌++◌, none, All, Bool-cases, Option-cases,
}
use bento.Shared.Int.{int_eq}
use bento.Types.{Slot, slot_count}
use bento.Store.Database.{ok, >>=-eq-ok}
use bento.Store.Instances.{to_sql_int}
use bento.Store.Slots.{
  slot_row, run_from, children, put_child, put_children, renumbered, insert_row, insert_rows,
  update_slot,
}
use bento.Store.Slots.Ranges.{IsRunnerPrefix, Cases, prefix-Cases}

-- The rows stand in the order of their numbers, all different.
abbrev pub Ascending : ℕ → List Slot → Type 0
Ascending low [] = Unit
Ascending low (s ∷ rows) = (low ≤ s.slot) × Ascending (s.slot + 1) rows

abbrev pub Exists : ℕ → Slot → Type 0
Exists prefix s = s.slot < slot_count (record { runner_prefix = prefix })

module _ {κ} (P : Slot → Type κ) where
  All-append : (rows : List Slot) (s : Slot) → All P rows → P s → All P (rows ++ s ∷ [])
  All-append [] s all here = (here, tt)
  All-append (r ∷ rows) s (first, rest) here = (first, All-append rows s rest here)

  pub All-insert_row : (s : Slot) (rows : List Slot) → All P rows → P s → All P (insert_row s rows)
  unfolding insert_row
  All-insert_row s [] all here = (here, tt)
  All-insert_row s (r ∷ rows) (first, rest) here = elim (Bool-cases (ltb s.slot r.slot)) [
    | inl before ↦ rw before (here, (first, rest))
    | inr after ↦ rw after (first, All-insert_row s rows rest here)
  ]

  pub All-update_slot :
      (n : ℕ) (change : Slot → Slot) (rows : List Slot)
      → All P rows
      → ((s : Slot) → P s → P (change s))
      → All P (update_slot n change rows)
  unfolding update_slot
  All-update_slot n change [] all keeps = tt
  All-update_slot n change (r ∷ rows) (first, rest) keeps = elim (Bool-cases (nat_beq r.slot n)) [
    | inl this ↦ rw this (keeps r first, All-update_slot n change rows rest keeps)
    | inr other ↦ rw other (first, All-update_slot n change rows rest keeps)
  ]

pub Ascending-insert_row :
    (low : ℕ) (s : Slot) (rows : List Slot)
    → Ascending low rows
    → low ≤ s.slot
    → slot_row s.slot rows ≡ none
    → Ascending low (insert_row s rows)
unfolding insert_row slot_row
Ascending-insert_row low s [] up from fresh = (from, tt)
Ascending-insert_row low s (r ∷ rows) (first, rest) from fresh =
    elim (Bool-cases (ltb s.slot r.slot)) [
      | inl before ↦ rw before (from, (ground (arith, before), rest))
      | inr after ↦
          let other : (nat_beq r.slot s.slot ≡ false) × (slot_row s.slot rows ≡ none) =
            ground (arith, fresh) in
          rw after (
            first,
            Ascending-insert_row (r.slot + 1) s rows rest (ground (arith, after, other.0)) other.1,
          )
    ]

pub Ascending-update_slot :
    (low n : ℕ) (change : Slot → Slot) (rows : List Slot)
    → ((s : Slot) → (change s).slot ≡ s.slot)
    → Ascending low rows
    → Ascending low (update_slot n change rows)
unfolding update_slot
Ascending-update_slot low n change [] keeps up = tt
Ascending-update_slot low n change (r ∷ rows) keeps (first, rest) =
    let ih = Ascending-update_slot (r.slot + 1) n change rows keeps rest in
    elim (Bool-cases (nat_beq r.slot n)) [
      | inl this ↦ rw this (rw (keeps r) (first, ih))
      | inr other ↦ rw other (first, ih)
    ]

-- The children of a slot that exists exist.
All-run_from-intro {κ} :
    (P : ℕ → Type κ) (first count : ℕ)
    → ((n : ℕ) → first ≤ n → n < first + count → P n)
    → All P (run_from first count)
unfolding run_from
All-run_from-intro P first zero each = tt
All-run_from-intro P first (suc count) each = (
  each first (omega arith) (omega arith),
  All-run_from-intro P (first + 1) count (λ n from below. each n (omega arith) (omega arith)),
)

abbrev pub Below : ℕ → ℕ → Type 0
Below prefix n = n < slot_count (record { runner_prefix = prefix })

part-Below :
    (old new slot n : ℕ)
    → Cases old
    → Cases new
    → old < new
    → Below old slot
    → n < slot * 2 ^ (new - old) + 2 ^ (new - old)
    → Below new n
unfolding slot_count
part-Below old new slot n cs ds h below under = ground arith

merged-Below :
    (old new slot : ℕ)
    → Cases old
    → Cases new
    → new ≤ old
    → Below old slot
    → Below new (slot / 2 ^ (old - new))
unfolding slot_count
merged-Below old new slot cs ds h below = ground arith

children-Below :
    (old new slot : ℕ)
    → IsRunnerPrefix old
    → IsRunnerPrefix new
    → Below old slot
    → All (Below new) (children old new slot)
unfolding children
children-Below old new slot h k below = elim (Bool-cases (ltb old new)) [
  | inl wider ↦ rw wider (
      All-run_from-intro (Below new) (slot * 2 ^ (new - old)) (2 ^ (new - old)) (λ n from under.
        part-Below old new slot n (prefix-Cases old h) (prefix-Cases new k) (ground (arith, wider))
          below under))
  | inr narrower ↦ rw narrower (
    merged-Below old new slot (prefix-Cases old h) (prefix-Cases new k) (ground (arith, narrower))
        below,
    tt,
  )
]

put_child-All :
    (prefix : ℕ) (row : Slot) (slot : ℕ) (next : List Slot) {more : List Slot}
    → put_child prefix row slot next ≡ ok more
    → Below prefix slot
    → All (Exists prefix) next
    → All (Exists prefix) more
unfolding put_child
put_child-All prefix row slot next {more} h below all = elim (Option-cases (slot_row slot next)) [
  | inl fresh ↦
      let new : Slot = record row { slot = slot } in
      subst (All (Exists prefix)) (ground (arith, h, fresh))
        (All-append (Exists prefix) next new all below)
  | inr (r, found) ↦ subst (All (Exists prefix)) (ground (arith, h, found)) all
]

put_children-All :
    (prefix : ℕ) (row : Slot) (ns : List ℕ) (next : List Slot) {more : List Slot}
    → put_children prefix row ns next ≡ ok more
    → All (Below prefix) ns
    → All (Exists prefix) next
    → All (Exists prefix) more
unfolding put_children
put_children-All prefix row [] next h below all =
    subst (All (Exists prefix)) (ground (arith, h)) all
put_children-All prefix row (n ∷ ns) next h (here, later) all =
    let (mid, first, rest) = >>=-eq-ok (put_child prefix row n next) _ h in
    put_children-All prefix row ns mid rest later (put_child-All prefix row n next first here all)

pub renumbered-All :
    (old new : ℕ) (rows next : List Slot) {more : List Slot}
    → IsRunnerPrefix old
    → IsRunnerPrefix new
    → renumbered old new rows next ≡ ok more
    → All (Exists old) rows
    → All (Exists new) next
    → All (Exists new) more
unfolding renumbered
renumbered-All old new [] next p q h exist all = subst (All (Exists new)) (ground (arith, h)) all
renumbered-All old new (row ∷ rows) next p q h (here, later) all =
    let (mid, first, rest) =
      >>=-eq-ok (put_children new row (children old new row.slot) next) _ h in
    renumbered-All old new rows mid p q rest later (
      put_children-All new row (children old new row.slot) next first
        (children-Below old new row.slot p q here) all)

pub insert_rows-All :
    (prefix : ℕ) (rows table : List Slot) {slots : List Slot}
    → insert_rows rows table ≡ ok slots
    → All (Exists prefix) rows
    → All (Exists prefix) table × Ascending 0 table
    → All (Exists prefix) slots × Ascending 0 slots
unfolding insert_rows
insert_rows-All prefix [] table h new (all, up) =
    subst (λ x. All (Exists prefix) x × Ascending 0 x) (ground (arith, h)) (all, up)
insert_rows-All prefix (s ∷ rest) table h (here, later) (all, up) =
    let (_, _, h1) = >>=-eq-ok (to_sql_int s.slot) _ h in
    elim (Option-cases (slot_row s.slot table)) [
      | inl fresh ↦ insert_rows-All prefix rest (insert_row s table) (rw fresh at h1) later (
        All-insert_row (Exists prefix) s table all here,
        Ascending-insert_row 0 s table up (omega arith) fresh,
      )
      | inr (r, taken) ↦ absurd (ground (arith, taken, h1))
    ]

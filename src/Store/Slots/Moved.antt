-- ===== src/Store/Slots/Moved.antt =====
-- What becomes of the instances when the slots are renumbered (crates/store/src/runners.rs).
use bento.Shared.{
  ℕ, ◌-◌, ◌%◌, ◌/◌, ◌^◌, String, ◌∙◌, ◌≡◌, sym, subst, ap, arith, inl, inr, List, [], ◌∷◌, none,
  some, All, Option-cases,
}
use bento.Shared.Int.{int_eq}
use bento.Types.{Instance, Slot}
use bento.Store.Database.{Result, ok, err, >>=-eq-ok, sqlite}
use bento.Store.Slots.Ranges.{IsRunnerPrefix}
use bento.Shared.Parse.{chars, parse_ipv4, parse_u8-last_part}
use bento.Store.Slots.{octet_shift, slot_row, slot_of_address, place_instances}

-- The slot of an instance has a row.
abbrev pub Refers : List Slot → Instance → Type 0
Refers rows i = (n : ℕ) → i.slot ≡ some n → (s : Slot) × (slot_row n rows ≡ some s)

-- What becomes of one instance.
abbrev pub Moved : (shift : ℕ) → List Slot → Instance → Instance → Type 0
Moved shift slots i j = (j ≡ record i { slot = slot_of_address i.address shift }) × Refers slots j

abbrev pub AllMoved : (shift : ℕ) → List Slot → List Instance → List Instance → Type 0
AllMoved shift slots [] [] = Unit
AllMoved shift slots (i ∷ before) (j ∷ after) =
    Moved shift slots i j × AllMoved shift slots before after
AllMoved shift slots _ _ = ⊥

pub AllMoved-Refers :
    (shift : ℕ) (slots : List Slot) (before after : List Instance)
    → AllMoved shift slots before after
    → All (Refers slots) after
AllMoved-Refers shift slots [] [] all = tt
AllMoved-Refers shift slots [] (j ∷ after) all = elim all [ ]
AllMoved-Refers shift slots (i ∷ before) [] all = elim all [ ]
AllMoved-Refers shift slots (i ∷ before) (j ∷ after) ((_, refers), rest) =
    (refers, AllMoved-Refers shift slots before after rest)

abbrev place_one : (shift : ℕ) (slots : List Slot) → Instance → Result Instance
place_one shift slots i = elim (slot_of_address i.address shift) [
  | none ↦ ok (record i { slot = none })
  | some n ↦ elim (slot_row n slots) [
    | none ↦ err sqlite
    | some _ ↦ ok (record i { slot = some n })
  ]
]

place_one-ok :
    (shift : ℕ) (slots : List Slot) (i j : Instance)
    → place_one shift slots i ≡ ok j
    → Moved shift slots i j
place_one-ok shift slots i j h = elim (Option-cases (slot_of_address i.address shift)) [
  | inl no_octet ↦
      let e : record i { slot = none } ≡ j = ground (arith, no_octet, h) in
      (rw no_octet (sym e), λ n at. absurd (ground (arith, at, ap (λ x. x.slot) e)))
  | inr (m, at) ↦ elim (Option-cases (slot_row m slots)) [
    | inl no_row ↦ absurd (ground (arith, at, no_row, h))
    | inr (s, found) ↦
        let e : record i { slot = some m } ≡ j = ground (arith, at, found, h) in
        (
          rw at (sym e),
          λ n in_slot.
              let same : m ≡ n = ground (arith, in_slot, ap (λ x. x.slot) e) in
              (s, subst (λ x. slot_row x slots ≡ some s) same found),
        )
  ]
]

pub place_instances-ok :
    (shift : ℕ) (slots : List Slot) (before after : List Instance)
    → place_instances shift slots before ≡ ok after
    → AllMoved shift slots before after
unfolding place_instances
place_instances-ok shift slots [] [] h = tt
place_instances-ok shift slots [] (j ∷ after) h = cc
place_instances-ok shift slots (i ∷ before) after h =
    let (j, first, k) = >>=-eq-ok (place_one shift slots i) _ h in
    let (rest, later, e) = >>=-eq-ok (place_instances shift slots before) _ k in
    let same : j ∷ rest ≡ after = ground (arith, e) in
    subst (AllMoved shift slots (i ∷ before)) same
      (place_one-ok shift slots i j first, place_instances-ok shift slots before rest later)

-- An instance has changed in its slot alone, which has a row; and where its address can be read, the slot is the one
-- whose part of the /24 the address lies in.
pub record IsPlaced (prefix : ℕ) (slots : List Slot) (i j : Instance) : Type 0 where
  pub only_slot : j ≡ record i { slot = j.slot }
  pub refers : Refers slots j
  pub in_slot :
      (a : ℕ) → parse_ipv4 (chars i.address) ≡ some a → j.slot ≡ some (a % 256 / 2 ^ (32 - prefix))

abbrev pub AllPlaced : (prefix : ℕ) → List Slot → List Instance → List Instance → Type 0
AllPlaced prefix slots [] [] = Unit
AllPlaced prefix slots (i ∷ before) (j ∷ after) =
    IsPlaced prefix slots i j × AllPlaced prefix slots before after
AllPlaced prefix slots _ _ = ⊥

slot_of_address-octet :
    (prefix : ℕ) (address : String) (a : ℕ)
    → IsRunnerPrefix prefix
    → parse_ipv4 (chars address) ≡ some a
    → slot_of_address address (octet_shift prefix) ≡ some (a % 256 / 2 ^ (32 - prefix))
unfolding slot_of_address octet_shift
slot_of_address-octet prefix address a inside reads =
    let width : 8 - (prefix - 24) ≡ 32 - prefix = omega (arith, inside) in
    rw (slot_of_address, parse_u8-last_part (chars address) reads)
      (ap (λ w. some (a % 256 / 2 ^ w)) width)

pub AllMoved-AllPlaced :
    (prefix : ℕ) (slots : List Slot) (before after : List Instance)
    → IsRunnerPrefix prefix
    → AllMoved (octet_shift prefix) slots before after
    → AllPlaced prefix slots before after
AllMoved-AllPlaced prefix slots [] [] inside all = tt
AllMoved-AllPlaced prefix slots [] (j ∷ after) inside all = elim all [ ]
AllMoved-AllPlaced prefix slots (i ∷ before) [] inside all = elim all [ ]
AllMoved-AllPlaced prefix slots (i ∷ before) (j ∷ after) inside ((e, refers), rest) = (
  record {
    only_slot = e ∙ ap (λ n. record i { slot = n }) (sym (ap (λ k. k.slot) e));
    refers = refers;
    in_slot = λ a reads. ap (λ k. k.slot) e ∙ slot_of_address-octet prefix i.address a inside reads;
  },
  AllMoved-AllPlaced prefix slots before after inside rest,
)

-- ===== src/Store/Slots/Claims.antt =====
-- What a successful `claim_slot` does (crates/store/src/runners.rs).
use bento.Shared.{
  ℕ, ◌<◌, ◌≡◌, ◌≢◌, refl, sym, subst, ap, arith, Bool, if◌then◌else◌, ltb, leb, nat_beq, ◌⊎◌, inl,
  inr, List, [], ◌∷◌, Option, none, some, ◌==◌, ==_iff, All, Bool-cases, Option-cases,
}
use bento.Shared.Int.{ℤ, pos, int_eq}
use bento.Types.{Instance, Slot, SlotState, slot_count}
use bento.Store.Database.{Result, ok, err, ◌>>=◌, >>=-eq-ok, settle-ok, sqlite}
use bento.Store.Instances.{to_sql_int}
use bento.Store.Lease.{succ_ℤ}
use bento.Store.Slots.{
  Division, slot_row, octet_shift, slot_of_address, insert_row, occupied_by_others, change_owner,
  update_slot, new_slot, upsert_slot, claim_slot_tx, claim_slot,
}
use bento.Store.Slots.Owners.{slot_row-insert_row}

-- The owner's epoch after a claim, from the row before: a new row starts at 0, the owner keeps its row,
-- and another owner gets an epoch one higher.
abbrev pub ClaimedFrom : Option Slot → ℤ → Slot → Type 0
ClaimedFrom none host_id s = s.ownership_epoch ≡ pos 0
ClaimedFrom (some r) host_id s =
    (r ≡ s)
    ⊎ ((r.owner_host_id ≢ host_id)
        × (s.ownership_epoch ≡ succ_ℤ r.ownership_epoch)
        × (s.state ≡ SlotState.active))

-- An instance of another host holds no address of the slot.
abbrev pub Elsewhere : (shift slot : ℕ) → ℤ → Instance → Type 0
Elsewhere shift slot host_id i =
    i.slot ≢ none → slot_of_address i.address shift ≡ some slot → i.host_id ≡ host_id

pub record IsClaimed (d d' : Division) (slot : ℕ) (host_id : ℤ) (s : Slot) : Type 0 where
  pub exists : slot < slot_count (record { runner_prefix = d.prefix })
  pub owned : s.owner_host_id ≡ host_id
  pub found : slot_row slot d'.slots ≡ some s
  pub from_row : ClaimedFrom (slot_row slot d.slots) host_id s
  pub others : (n : ℕ) → n ≢ slot → slot_row n d'.slots ≡ slot_row n d.slots
  pub unoccupied : All (Elsewhere (octet_shift d.prefix) slot host_id) d.instances
  pub same_prefix : d'.prefix ≡ d.prefix
  pub same_instances : d'.instances ≡ d.instances

occupied_by_others-zero :
    (shift slot : ℕ) (host_id : ℤ) (rows : List Instance)
    → occupied_by_others shift slot host_id rows ≡ 0
    → All (Elsewhere shift slot host_id) rows
unfolding occupied_by_others
occupied_by_others-zero shift slot host_id [] h = tt
occupied_by_others-zero shift slot host_id (i ∷ rows) h = (
  λ placed there. elim (Option-cases i.slot) [
    | inl e ↦ absurd (placed e)
    | inr (n, e) ↦ ground (arith, e, there, h, ==_iff i.host_id host_id)
  ],
  occupied_by_others-zero shift slot host_id rows (omega (arith, h)),
)

pub slot_row-number : (n : ℕ) (rows : List Slot) {s : Slot} → slot_row n rows ≡ some s → s.slot ≡ n
unfolding slot_row
slot_row-number n [] h = cc
slot_row-number n (r ∷ rows) {s} h = elim (Bool-cases (nat_beq r.slot n)) [
  | inl this ↦
      let e : r ≡ s = ground (arith, this, h) in subst (λ x. x.slot ≡ n) e (ground (arith, this))
  | inr other ↦ slot_row-number n rows {s = s} (ground (arith, other, h))
]

pub slot_row-update_slot :
    (n m : ℕ) (change : Slot → Slot) (rows : List Slot)
    → ((s : Slot) → (change s).slot ≡ s.slot)
    → slot_row m (update_slot n change rows) ≡ elim (slot_row m rows) [
      | none ↦ none
      | some s ↦ if nat_beq s.slot n then some (change s) else some s
    ]
unfolding slot_row update_slot
slot_row-update_slot n m change [] keeps = refl
slot_row-update_slot n m change (r ∷ rows) keeps =
    ground (arith, keeps r, slot_row-update_slot n m change rows keeps)

update_slot_other :
    (n m : ℕ) (change : Slot → Slot) (rows : List Slot)
    → ((s : Slot) → (change s).slot ≡ s.slot)
    → m ≢ n
    → slot_row m (update_slot n change rows) ≡ slot_row m rows
update_slot_other n m change rows keeps other = elim (Option-cases (slot_row m rows)) [
  | inl no_row ↦ ground (arith, slot_row-update_slot n m change rows keeps, no_row)
  | inr (s, found) ↦ ground (
    arith,
    slot_row-update_slot n m change rows keeps,
    found,
    slot_row-number m rows found,
    other,
  )
]

-- The rows after the insertion or the update.
record IsUpserted (rows rows' : List Slot) (slot : ℕ) (host_id : ℤ) (s : Slot) : Type 0 where
  pub owned : s.owner_host_id ≡ host_id
  pub found : slot_row slot rows' ≡ some s
  pub from_row : ClaimedFrom (slot_row slot rows) host_id s
  pub others : (n : ℕ) → n ≢ slot → slot_row n rows' ≡ slot_row n rows

ClaimedFrom-eq :
    (o : Option Slot) (r : Option Slot) (host_id : ℤ) (s : Slot)
    → o ≡ r
    → ClaimedFrom r host_id s
    → ClaimedFrom o host_id s
ClaimedFrom-eq o r host_id s e h = subst (λ x. ClaimedFrom x host_id s) (sym e) h

upsert_slot-ok :
    (host_exists : ℤ → Bool) (slot : ℕ) (host_id : ℤ) (rows rows' : List Slot)
    → upsert_slot host_exists slot host_id rows ≡ ok rows'
    → (s : Slot) × IsUpserted rows rows' slot host_id s
unfolding upsert_slot change_owner new_slot
upsert_slot-ok host_exists slot host_id rows rows' h = elim (Option-cases (slot_row slot rows)) [
  | inl fresh ↦
      let s = new_slot slot host_id in
      let e : insert_row s rows ≡ rows' = ground (arith, fresh, h) in
      (
        s,
        record {
          owned = refl;
          found =
              subst (λ x. slot_row slot x ≡ some s) e
                (ground (arith, slot_row-insert_row slot s rows fresh));
          from_row = ClaimedFrom-eq _ none host_id s fresh refl;
          others = λ n other.
              subst (λ x. slot_row n x ≡ slot_row n rows) e
                (ground (arith, slot_row-insert_row n s rows fresh, other));
        },
      )
  | inr (r, there) ↦ elim (Bool-cases (r.owner_host_id == host_id)) [
    | inl mine ↦
        let e : rows ≡ rows' = ground (arith, there, mine, h) in
        (
          r,
          record {
            owned = (==_iff r.owner_host_id host_id).0 mine;
            found = subst (λ x. slot_row slot x ≡ some r) e there;
            from_row = ClaimedFrom-eq _ (some r) host_id r there (inl refl);
            others = λ n other. ap (slot_row n) (sym e);
          },
        )
    | inr not_mine ↦
        let s = change_owner host_id r in
        let e : update_slot slot (change_owner host_id) rows ≡ rows' =
          ground (arith, there, not_mine, h) in
        (
          s,
          record {
            owned = refl;
            found =
                subst (λ x. slot_row slot x ≡ some s) e
                  (ground (
                    arith,
                    slot_row-update_slot slot slot (change_owner host_id) rows (λ t. refl),
                    there,
                    slot_row-number slot rows there,
                  ));
            from_row = ClaimedFrom-eq _ (some r) host_id s there (
                inr (
                  (λ same. ground (arith, not_mine, ==_iff r.owner_host_id host_id, same)),
                  refl,
                  refl,
                ));
            others = λ n other.
                subst (λ x. slot_row n x ≡ slot_row n rows) e
                  (update_slot_other slot n (change_owner host_id) rows (λ t. refl) other);
          },
        )
  ]
]

-- The tests that a claim passes, and the rows it leaves.
pub claim_slot_tx-rows :
    (host_exists : ℤ → Bool) (slot : ℕ) (host_id : ℤ) (d d' : Division) {s : Slot}
    → claim_slot_tx host_exists slot host_id d ≡ ok (d', s)
    → (slot < slot_count (record { runner_prefix = d.prefix }))
      × (occupied_by_others (octet_shift d.prefix) slot host_id d.instances ≡ 0)
      × ((rows : List Slot) × (upsert_slot host_exists slot host_id d.slots ≡ ok rows)
          × (d' ≡ record d { slots = rows })
          × (slot_row slot rows ≡ some s))
unfolding claim_slot_tx
claim_slot_tx-rows host_exists slot host_id d d' {s} h =
    let count = slot_count (record { runner_prefix = d.prefix }) in
    let occupied = occupied_by_others (octet_shift d.prefix) slot host_id d.instances in
    let finish : List Slot → Result (Division × Slot) = λ rows. elim (slot_row slot rows) [
      | none ↦ err sqlite
      | some r ↦ ok (record d { slots = rows }, r)
    ] in
    elim (Bool-cases (leb count slot)) [
      | inl beyond ↦ absurd (ground (arith, beyond, h))
      | inr inside ↦ elim (Bool-cases (ltb 0 occupied)) [
        | inl busy ↦ absurd (ground (arith, inside, busy, h))
        | inr unused ↦
            let body : (to_sql_int slot >>= λ _.
            upsert_slot host_exists slot host_id d.slots >>= finish)
                ≡ ok (d', s) =
              ground (arith, inside, unused, h) in
            let (_, _, k) = >>=-eq-ok (to_sql_int slot) _ body in
            let (rows, run, k1) =
              >>=-eq-ok (upsert_slot host_exists slot host_id d.slots) finish k in
            elim (Option-cases (slot_row slot rows)) [
              | inl no_row ↦ absurd (ground (arith, no_row, k1))
              | inr (r, there) ↦ (
                ground (arith, inside),
                ground (arith, unused),
                (rows, run, ground (arith, there, k1), ground (arith, there, k1)),
              )
            ]
      ]
    ]

pub claim_slot_tx-ok :
    (host_exists : ℤ → Bool) (slot : ℕ) (host_id : ℤ) (d d' : Division) {s : Slot}
    → claim_slot_tx host_exists slot host_id d ≡ ok (d', s)
    → IsClaimed d d' slot host_id s
claim_slot_tx-ok host_exists slot host_id d d' {s} h =
    let (inside, unused, upserted) = claim_slot_tx-rows host_exists slot host_id d d' h in
    let (rows, run, left, there) = upserted in
    let (r, put) = upsert_slot-ok host_exists slot host_id d.slots rows run in
    let same : r ≡ s = ground (arith, put.found, there) in
    subst (λ x. IsClaimed d x slot host_id s) (sym left)
      (subst (λ x. IsClaimed d (record d { slots = rows }) slot host_id x) same
        (record {
          exists = inside;
          owned = put.owned;
          found = put.found;
          from_row = put.from_row;
          others = put.others;
          unoccupied =
              occupied_by_others-zero (octet_shift d.prefix) slot host_id d.instances unused;
          same_prefix = refl;
          same_instances = refl;
        }))

-- A successful claim is of a slot that exists and in which no placed instance of another host has an address;
-- the row that it answers is the slot's row and the host's, with an epoch of 0 where there was no row, the row
-- as it was where the host owned it, and an epoch one higher where another host did. All other rows, the
-- prefix and the instances stay.
pub claim_slot-IsClaimed :
    (host_exists : ℤ → Bool) (commits : Bool) (slot : ℕ) (host_id : ℤ) (d : Division) {s : Slot}
    → (claim_slot host_exists commits slot host_id d).1 ≡ ok s
    → IsClaimed d (claim_slot host_exists commits slot host_id d).0 slot host_id s
unfolding claim_slot
claim_slot-IsClaimed host_exists commits slot host_id d h =
    let (_, body) = settle-ok commits d (claim_slot_tx host_exists slot host_id d) h in
    claim_slot_tx-ok host_exists slot host_id d _ body

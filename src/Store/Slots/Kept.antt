-- ===== src/Store/Slots/Kept.antt =====
-- What the operations on slots keep (crates/store/src/runners.rs).
use bento.Shared.{
  ℕ, ◌≡◌, ◌≢◌, refl, sym, ◌∙◌, subst, arith, Bool, ◌&&◌, leb, nat_beq, nat_beq_iff, inl, inr, List,
  [], ◌∷◌, some, ◌==◌, All, Bool-cases, Option-cases,
}
use bento.Shared.Int.{ℤ, int_eq}
use bento.Types.{Instance, Slot, Deployment}
use bento.Store.Database.{ok, >>=-eq-ok, settle_keeps}
use bento.Store.Slots.{
  Division, slot_row, octet_shift, renumbered, insert_row, insert_rows, place_instances,
  renumber_slots, set_prefix_tx, set_runner_prefix, update_slot, change_owner, new_slot,
  upsert_slot, claim_slot_tx, claim_slot,
}
use bento.Store.Slots.Owners.{set_runner_prefix-ok, set_prefix_tx-ok}
use bento.Store.Slots.Claims.{IsClaimed, claim_slot_tx-rows, claim_slot_tx-ok}
use bento.Store.Slots.Numbers.{
  Ascending, Exists, Below, All-insert_row, All-update_slot, Ascending-insert_row,
  Ascending-update_slot, renumbered-All, insert_rows-All,
}
use bento.Store.Slots.Moved.{
  Refers, AllMoved, AllMoved-Refers, AllPlaced, AllMoved-AllPlaced, place_instances-ok,
}
use bento.Store.Slots.Ranges.{IsRunnerPrefix}

-- The tables are well formed: the slots exist under the prefix, each has one row, and the instances' slots
-- have rows.
pub record IsDivision (d : Division) : Type 0 where
  pub prefix : IsRunnerPrefix d.prefix
  pub ascending : Ascending 0 d.slots
  pub exist : All (Exists d.prefix) d.slots
  pub refer : All (Refers d.slots) d.instances

pub renumber_slots-IsDivision :
    (new : ℕ) (d : Division) {d' : Division}
    → IsDivision d
    → IsRunnerPrefix new
    → renumber_slots d.prefix new d ≡ ok d'
    → IsDivision (record d' { prefix = new })
      × AllMoved (octet_shift new) d'.slots d.instances d'.instances
unfolding renumber_slots
renumber_slots-IsDivision new d {d'} well inside h =
    let (next, h1, k1) = >>=-eq-ok (renumbered d.prefix new d.slots []) _ h in
    let (slots, h2, k2) = >>=-eq-ok (insert_rows next []) _ k1 in
    let (placed, h3, k3) = >>=-eq-ok (place_instances (octet_shift new) slots d.instances) _ k2 in
    let all = renumbered-All d.prefix new d.slots [] well.prefix inside h1 well.exist tt in
    let (exist, up) = insert_rows-All new next [] h2 all (tt, tt) in
    let moved = place_instances-ok (octet_shift new) slots d.instances placed h3 in
    let e : record d { slots = slots; instances = placed } ≡ d' = ground (arith, k3) in
    subst
      (λ x.
        IsDivision (record x { prefix = new })
        × AllMoved (octet_shift new) x.slots d.instances x.instances)
      e
      (
        record {
          prefix = inside;
          ascending = up;
          exist = exist;
          refer = AllMoved-Refers (octet_shift new) slots d.instances placed moved;
        },
        moved,
      )

set_runner_prefix-IsDivision :
    (commits : Bool) (prefix : ℕ) (d : Division)
    → IsDivision d
    → IsDivision (set_runner_prefix commits prefix d).0
unfolding set_runner_prefix
set_runner_prefix-IsDivision commits prefix d well =
    elim (Bool-cases (leb 24 prefix && leb prefix 27)) [
      | inl inside ↦ rw inside (
          settle_keeps IsDivision commits d (set_prefix_tx prefix d) well (λ d' deployment body.
            elim (set_prefix_tx-ok prefix d d' body) [
              | inl (left, same) ↦
                  let e : d ≡ record d { prefix = prefix } = rw same refl in
                  subst IsDivision (e ∙ sym left) well
              | inr (moved, run, left) ↦
                  subst IsDivision (sym left)
                    (renumber_slots-IsDivision prefix d well (ground (arith, inside)) run).0
            ]))
      | inr outside ↦ rw outside well
    ]

-- The rows that a claim leaves still number the slots that are referred to.
Refers-kept :
    (rows rows' : List Slot) (instances : List Instance)
    → ((n : ℕ) (s : Slot) → slot_row n rows ≡ some s → (r : Slot) × (slot_row n rows' ≡ some r))
    → All (Refers rows) instances
    → All (Refers rows') instances
Refers-kept rows rows' [] keeps all = tt
Refers-kept rows rows' (i ∷ instances) keeps (here, rest) = (
  λ n in_slot. let (s, found) = here n in_slot in keeps n s found,
  Refers-kept rows rows' instances keeps rest,
)

upsert_slot-keeps :
    (host_exists : ℤ → Bool) (prefix slot : ℕ) (host_id : ℤ) (rows rows' : List Slot)
    → upsert_slot host_exists slot host_id rows ≡ ok rows'
    → Below prefix slot
    → All (Exists prefix) rows × Ascending 0 rows
    → All (Exists prefix) rows' × Ascending 0 rows'
unfolding upsert_slot change_owner new_slot
upsert_slot-keeps host_exists prefix slot host_id rows rows' h below (all, up) =
    elim (Option-cases (slot_row slot rows)) [
      | inl fresh ↦
          let s = new_slot slot host_id in
          let e : insert_row s rows ≡ rows' = ground (arith, fresh, h) in
          subst (λ x. All (Exists prefix) x × Ascending 0 x) e
            (
              All-insert_row (Exists prefix) s rows all below,
              Ascending-insert_row 0 s rows up (omega arith) fresh,
            )
      | inr (r, there) ↦ elim (Bool-cases (r.owner_host_id == host_id)) [
        | inl mine ↦
            let e : rows ≡ rows' = ground (arith, there, mine, h) in
            subst (λ x. All (Exists prefix) x × Ascending 0 x) e (all, up)
        | inr not_mine ↦
            let e : update_slot slot (change_owner host_id) rows ≡ rows' =
              ground (arith, there, not_mine, h) in
            subst (λ x. All (Exists prefix) x × Ascending 0 x) e
              (
                All-update_slot (Exists prefix) slot (change_owner host_id) rows all
                    (λ s here. here),
                Ascending-update_slot 0 slot (change_owner host_id) rows (λ s. refl) up,
              )
      ]
    ]

claim_slot-IsDivision :
    (host_exists : ℤ → Bool) (commits : Bool) (slot : ℕ) (host_id : ℤ) (d : Division)
    → IsDivision d
    → IsDivision (claim_slot host_exists commits slot host_id d).0
unfolding claim_slot
claim_slot-IsDivision host_exists commits slot host_id d well =
    settle_keeps IsDivision commits d (claim_slot_tx host_exists slot host_id d) well (λ d' s body.
      let (inside, _, upserted) = claim_slot_tx-rows host_exists slot host_id d d' body in
      let (rows, run, left, _) = upserted in
      let (exist, up) =
        upsert_slot-keeps host_exists d.prefix slot host_id d.slots rows run inside
          (well.exist, well.ascending) in
      let claimed = claim_slot_tx-ok host_exists slot host_id d d' body in
      subst IsDivision (sym left) (record {
        prefix = well.prefix;
        ascending = up;
        exist = exist;
        refer =
            Refers-kept d.slots rows d.instances
              (λ n r found.
                claimed_row d rows slot n (subst (λ x. IsClaimed d x slot host_id s) left claimed) r
                  found)
              well.refer;
      }))
  where
    claimed_row :
        (d : Division) (rows : List Slot) (slot n : ℕ) {s : Slot}
        → IsClaimed d (record d { slots = rows }) slot host_id s
        → (r : Slot) → slot_row n d.slots ≡ some r
        → (t : Slot) × (slot_row n rows ≡ some t)
    claimed_row d rows slot n {s} claimed r found = elim (Bool-cases (nat_beq n slot)) [
      | inl e ↦
          (s, subst (λ x. slot_row x rows ≡ some s) (sym ((nat_beq_iff n slot).0 e)) claimed.found)
      | inr other ↦ (r, claimed.others n (λ e. ground (arith, other, e)) ∙ found)
    ]

-- The requests on the slots.
pub data SlotRequest : Type 0 where
  claiming : (commits : Bool) → (slot : ℕ) → ℤ → SlotRequest
  resetting : (commits : Bool) → (prefix : ℕ) → SlotRequest

module _ (host_exists : ℤ → Bool) where
  unfoldable pub after : SlotRequest → Division → Division
  after (claiming commits slot host_id) d = (claim_slot host_exists commits slot host_id d).0
  after (resetting commits prefix) d = (set_runner_prefix commits prefix d).0

  unfoldable pub after_all : List SlotRequest → Division → Division
  after_all [] d = d
  after_all (r ∷ rest) d = after_all rest (after r d)

  -- Whatever is claimed and however the prefix is changed, the tables stay well formed: the prefix is
  -- between 24 and 27, every slot that has a row exists under it and has one row, and the slot of each
  -- instance has a row.
  pub after_all-IsDivision :
      (history : List SlotRequest) (d : Division) → IsDivision d → IsDivision (after_all history d)
  unfolding after_all after
  after_all-IsDivision [] d well = well
  after_all-IsDivision (claiming commits slot host_id ∷ rest) d well =
      after_all-IsDivision rest (claim_slot host_exists commits slot host_id d).0
        (claim_slot-IsDivision host_exists commits slot host_id d well)
  after_all-IsDivision (resetting commits prefix ∷ rest) d well =
      after_all-IsDivision rest (set_runner_prefix commits prefix d).0
        (set_runner_prefix-IsDivision commits prefix d well)

-- When a change of the runner prefix has gone through, every instance is as before but for its slot, which has a row;
-- and one whose address is an IPv4 address has the slot of the new division that the last octet of the address lies
-- in; for well-formed tables with another prefix.
pub set_runner_prefix-AllPlaced :
    (commits : Bool) (prefix : ℕ) (d : Division) {deployment : Deployment}
    → IsDivision d
    → d.prefix ≢ prefix
    → (set_runner_prefix commits prefix d).1 ≡ ok deployment
    → AllPlaced prefix
        (set_runner_prefix commits prefix d).0.slots
        d.instances
        (set_runner_prefix commits prefix d).0.instances
set_runner_prefix-AllPlaced commits prefix d well differs h =
    let (inside, body) = set_runner_prefix-ok commits prefix d h in
    elim (set_prefix_tx-ok prefix d _ body) [
      | inl (left, same) ↦ absurd (differs same)
      | inr (moved, run, left) ↦
          subst (λ x. AllPlaced prefix x.slots d.instances x.instances) (sym left)
            (AllMoved-AllPlaced prefix moved.slots d.instances moved.instances inside
              (renumber_slots-IsDivision prefix d well inside run).1)
    ]

-- ===== src/Lifecycle/Allocate/Owned.antt =====
-- Whose slot the address of a new instance lies in (crates/lifecycle/src/manager.rs).
use mathlib.Core.List.{Memᴰ}
use mathlib.Core.List.Memᴰ
use bento.Shared.{
  ℕ, ◌^◌, ◌≡◌, ◌⊎◌, inl, inr, refl, sym, ap, subst, arith, true, ltb, leb, List, [], ◌∷◌, some, ◌+◌,
  ◌<◌, Option-cases, contains, nat_eq, ◌==◌, ==_refl, ==_iff, select, map, Bool-cases,
}
use bento.Shared.Int.{ℤ, int_eq}
use bento.Shared.Result.{ok, err}
use bento.Shared.Parse.{chars, parse_ipv4}
use bento.Types.{Instance, Slot, SlotState, slot_state_beq}
use bento.Network.Error.{Result as NetworkResult, addresses_exhausted}
use bento.Network.Prefix.{Ipv4Prefix, IsPrefixValue, covers, masked}
use bento.Network.Slot.{Slots, new, slot_of}
use bento.Network.Slot.Ranges.{IsSlots}
use bento.Network.Subnet.{allocate_address}
use bento.Network.Subnet.Addresses.{IsAssignable, IsLowestAddress, allocate_address-IsLowestAddress}
use bento.Store.Slots.{Division}
use bento.Lifecycle.Manager.{network}
use bento.Lifecycle.Allocate.{
  used_addresses, is_owned, insert_number, sort, owned_slots, take_answer, allocate_first,
  allocate_from, allocate_in_owned_slot,
}

-- The number is that of an active slot of the host.
abbrev pub IsOwned : ℤ → List Slot → ℕ → Type 0
IsOwned host_id rows n =
    (s : Slot) × Memᴰ s rows
    × (s.slot ≡ n)
    × (s.owner_host_id ≡ host_id)
    × (s.state ≡ SlotState.active)

-- An instance has the address.
abbrev pub IsTaken : List Instance → ℕ → Type 0
IsTaken rows a = (i : Instance) × Memᴰ i rows × (parse_ipv4 (chars i.address) ≡ some a)

-- The address is that of the lowest host that may be assigned in the slot and that no instance has.
pub record IsFirstFree (rows : List Instance) (subnet : Ipv4Prefix) (s : Slots) (slot a : ℕ)
    : Type 0 where
  pub host : ℕ
  pub at_host : a ≡ (masked subnet).addr + host
  pub assignable_host : IsAssignable s slot host
  pub unused : ¬ IsTaken rows a
  pub lower_used :
      (other : ℕ)
      → IsAssignable s slot other
      → other < host
      → IsTaken rows ((masked subnet).addr + other)

used_addresses-IsTaken :
    (subnet : Ipv4Prefix) (rows : List Instance) (a : ℕ)
    → contains (used_addresses subnet rows) a ≡ true
    → IsTaken rows a
unfolding used_addresses
used_addresses-IsTaken subnet [] a h = cc
used_addresses-IsTaken subnet (i ∷ rows) a h = elim (Option-cases (parse_ipv4 (chars i.address))) [
  | inl no_address ↦ later (used_addresses-IsTaken subnet rows a (ground (arith, no_address, h)))
  | inr (b, parsed) ↦ elim (Bool-cases (covers subnet b)) [
    | inr outside ↦
        later (used_addresses-IsTaken subnet rows a (ground (arith, parsed, outside, h)))
    | inl inside ↦ elim (Bool-cases (b == a)) [
      | inl same ↦ (i, Memᴰ.head refl, ground (arith, parsed, same, ==_iff b a))
      | inr other ↦
          later (used_addresses-IsTaken subnet rows a (ground (arith, parsed, inside, other, h)))
    ]
  ]
]
  where
    later : IsTaken rows a → IsTaken (i ∷ rows) a
    later (j, listed, has) = (j, Memᴰ.tail listed, has)

IsTaken-used_addresses :
    (subnet : Ipv4Prefix) (rows : List Instance) (a : ℕ)
    → covers subnet a ≡ true
    → IsTaken rows a
    → contains (used_addresses subnet rows) a ≡ true
unfolding used_addresses
IsTaken-used_addresses subnet [] a inside (j, listed, has) = absurd (Memᴰ.not-nil listed)
IsTaken-used_addresses subnet (i ∷ rows) a inside (j, listed, has) = elim (Memᴰ.cases_cons listed) [
  | inl here ↦
      let parsed : parse_ipv4 (chars i.address) ≡ some a =
        subst (λ k. parse_ipv4 (chars k.address) ≡ some a) here has in
      ground (arith, parsed, inside, ==_refl a)
  | inr rest ↦
      let taken = IsTaken-used_addresses subnet rows a inside (j, rest, has) in
      elim (Option-cases (parse_ipv4 (chars i.address))) [
        | inl no_address ↦ ground (arith, no_address, taken)
        | inr (b, parsed) ↦ ground (arith, parsed, taken)
      ]
]

slot_of-covers :
    (s : Slots) (subnet : Ipv4Prefix) (a : ℕ) {slot : ℕ}
    → slot_of s subnet a ≡ NetworkResult.ok slot
    → covers subnet a ≡ true
unfolding slot_of
slot_of-covers s subnet a h = ground (arith, h)

IsLowestAddress-IsFirstFree :
    (rows : List Instance) (subnet : Ipv4Prefix) (s : Slots) (slot a : ℕ)
    → IsLowestAddress (used_addresses subnet rows) subnet s slot a
    → IsFirstFree rows subnet s slot a
IsLowestAddress-IsFirstFree rows subnet s slot a lowest = record {
  host = lowest.host;
  at_host = lowest.at_host;
  assignable_host = lowest.assignable_host;
  unused = λ taken. absurd (
      ground (
        arith,
        IsTaken-used_addresses subnet rows a (slot_of-covers s subnet a lowest.in_slot) taken,
        lowest.unused,
      ));
  lower_used = λ other may small.
      used_addresses-IsTaken subnet rows ((masked subnet).addr + other)
        (lowest.lower_used other may small);
}

Mem-insert_number : (n k : ℕ) (ns : List ℕ) → Memᴰ k (insert_number n ns) → (k ≡ n) ⊎ Memᴰ k ns
unfolding insert_number
Mem-insert_number n k [] listed = Memᴰ.cases_cons listed
Mem-insert_number n k (j ∷ ns) listed = elim (Bool-cases (leb n j)) [
  | inl first ↦ Memᴰ.cases_cons (rw first at listed)
  | inr later ↦ elim (Memᴰ.cases_cons (rw later at listed)) [
    | inl here ↦ inr (Memᴰ.head here)
    | inr rest ↦ elim (Mem-insert_number n k ns rest) [
      | inl new ↦ inl new
      | inr old ↦ inr (Memᴰ.tail old)
    ]
  ]
]

Mem-sort : (k : ℕ) (ns : List ℕ) → Memᴰ k (sort ns) → Memᴰ k ns
unfolding sort
Mem-sort k [] listed = listed
Mem-sort k (n ∷ ns) listed = elim (Mem-insert_number n k (sort ns) listed) [
  | inl here ↦ Memᴰ.head here
  | inr rest ↦ Memᴰ.tail (Mem-sort k ns rest)
]

is_owned-active :
    (host_id : ℤ) (s : Slot)
    → is_owned host_id s ≡ true
    → (s.owner_host_id ≡ host_id) × (s.state ≡ SlotState.active)
unfolding is_owned
is_owned-active host_id s h =
    (ground (arith, h, ==_iff s.owner_host_id host_id), by_state s.state (ground (arith, h)))
  where
    by_state :
        (state : SlotState)
        → slot_state_beq state SlotState.active ≡ true
        → state ≡ SlotState.active
    by_state SlotState.active e = refl
    by_state SlotState.draining e = cc
    by_state SlotState.moving e = cc

selected-IsOwned :
    (host_id : ℤ) (n : ℕ) (rows : List Slot)
    → Memᴰ n (map (λ s. s.slot) (select (is_owned host_id) rows))
    → IsOwned host_id rows n
selected-IsOwned host_id n [] listed = absurd (Memᴰ.not-nil listed)
selected-IsOwned host_id n (s ∷ rows) listed = elim (Bool-cases (is_owned host_id s)) [
  | inl owned ↦ elim (Memᴰ.cases_cons (rw owned at listed)) [
    | inl here ↦
        let (owner, state) = is_owned-active host_id s owned in
        (s, Memᴰ.head refl, sym here, owner, state)
    | inr rest ↦
        let (r, there, number, owner, state) = selected-IsOwned host_id n rows rest in
        (r, Memᴰ.tail there, number, owner, state)
  ]
  | inr not_owned ↦
      let (r, there, number, owner, state) =
        selected-IsOwned host_id n rows (rw not_owned at listed) in
      (r, Memᴰ.tail there, number, owner, state)
]

allocate_first-found :
    (used : List ℕ) (subnet : Ipv4Prefix) (slots : Slots) (ns : List ℕ) {a n : ℕ}
    → allocate_first used subnet slots ns ≡ ok (a, n)
    → Memᴰ n ns × (allocate_address (some used) subnet slots n ≡ NetworkResult.ok a)
unfolding allocate_first take_answer
allocate_first-found used subnet slots [] h = cc
allocate_first-found used subnet slots (k ∷ rest) {a} {n} h = elim (Bool-cases (ltb k (2 ^ 32))) [
  | inr large ↦ absurd (ground (arith, large, h))
  | inl small ↦
      by_answer (allocate_address (some used) subnet slots k) refl (rw small at h)
        (λ later. allocate_first-found used subnet slots rest later)
]
  where
    Goal : Type 0
    Goal = Memᴰ n (k ∷ rest) × (allocate_address (some used) subnet slots n ≡ NetworkResult.ok a)

    by_answer :
        (answer : NetworkResult ℕ)
        → allocate_address (some used) subnet slots k ≡ answer
        → take_answer k (allocate_first used subnet slots rest) answer ≡ ok (a, n)
        → (allocate_first used subnet slots rest ≡ ok (a, n)
            → Memᴰ n rest × (allocate_address (some used) subnet slots n ≡ NetworkResult.ok a))
        → Goal
    by_answer (NetworkResult.ok b) is_b e ih =
        let (same_a, same_n) : (b ≡ a) × (k ≡ n) = ground (arith, e) in
        (Memᴰ.head (sym same_n), ground (arith, is_b, same_a, same_n))
    by_answer (NetworkResult.err addresses_exhausted) is_full e ih =
        let (listed, found) = ih e in (Memᴰ.tail listed, found)
    by_answer (NetworkResult.err x) failed e ih = cc

allocate_from-found :
    (used : List ℕ) (subnet : Ipv4Prefix) (slots : Slots) (host_id : ℤ) (ns : List ℕ) {a n : ℕ}
    → allocate_from used subnet slots host_id ns ≡ ok (a, n)
    → Memᴰ n ns × (allocate_address (some used) subnet slots n ≡ NetworkResult.ok a)
unfolding allocate_from
allocate_from-found used subnet slots host_id [] h = cc
allocate_from-found used subnet slots host_id (k ∷ rest) h =
    allocate_first-found used subnet slots (k ∷ rest) h

new-IsSlots : (bits : ℕ) (s : Slots) → new bits ≡ NetworkResult.ok s → IsSlots s × (s.bits ≡ bits)
unfolding new
new-IsSlots bits s h = ground (arith, h)

-- A new instance of a host gets an address in a slot that the host owns and that is active, and the lowest
-- that may be assigned in that slot and that no instance has; for a prefix in range.
pub allocate_in_owned_slot-IsOwned :
    (d : Division) (host_id : ℤ) (subnet : Ipv4Prefix) {a slot : ℕ}
    → IsPrefixValue subnet
    → allocate_in_owned_slot d host_id subnet ≡ ok (a, slot)
    → IsOwned host_id d.slots slot
      × IsFirstFree d.instances subnet (record { bits = d.prefix }) slot a
unfolding allocate_in_owned_slot owned_slots
allocate_in_owned_slot-IsOwned d host_id subnet {a} {slot} valid h =
    by_division (new d.prefix) refl h
  where
    by_division :
        (answer : NetworkResult Slots)
        → new d.prefix ≡ answer
        → (elim answer [
          | NetworkResult.err e ↦ err (network e)
          | NetworkResult.ok slots ↦
              allocate_from
                (used_addresses subnet d.instances)
                subnet
                slots
                host_id
                (owned_slots host_id d.slots)
        ])
          ≡ ok (a, slot)
        → IsOwned host_id d.slots slot
          × IsFirstFree d.instances subnet (record { bits = d.prefix }) slot a
    by_division (NetworkResult.err e) made h = cc
    by_division (NetworkResult.ok slots) made h =
        let (division, same) = new-IsSlots d.prefix slots made in
        let e : slots ≡ record { bits = d.prefix } = ap (λ b. record { bits = b }) same in
        let (listed, found) =
          allocate_from-found (used_addresses subnet d.instances) subnet slots host_id
            (owned_slots host_id d.slots) h in
        (
          selected-IsOwned host_id slot d.slots (Mem-sort slot _ listed),
          subst (λ s. IsFirstFree d.instances subnet s slot a) e
              (IsLowestAddress-IsFirstFree d.instances subnet slots slot a (
                allocate_address-IsLowestAddress (used_addresses subnet d.instances) subnet slots
                  slot valid division found)),
        )

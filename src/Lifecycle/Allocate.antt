-- ===== src/Lifecycle/Allocate.antt =====
-- crates/lifecycle/src/manager.rs: the address and the slot of a new instance. The slots and the rows are
-- those of the store's tables, and the search in a slot is that of crates/network.
pub mod Owned
use bento.Shared.{
  ℕ, ◌^◌, Bool, true, false, ◌&&◌, if◌then◌else◌, ltb, leb, List, [], ◌∷◌, Option, none, some, ◌==◌,
  select, map,
}
use bento.Shared.Int.{ℤ, int_eq}
use bento.Shared.Parse.{chars, parse_ipv4}
use bento.Shared.Result.{Result, ok, err}
use bento.Types.{Instance, Slot, SlotState, slot_state_beq}
use bento.Network.Error.{Result as NetworkResult, addresses_exhausted}
use bento.Network.Prefix.{Ipv4Prefix, covers}
use bento.Network.Slot.{Slots, new}
use bento.Network.Subnet.{allocate_address}
use bento.Store.Slots.{Division}
use bento.Lifecycle.Manager.{Error, no_slot_for_host, network, dependency}

-- The addresses in use in a subnet.
unfoldable pub used_addresses : Ipv4Prefix → List Instance → List ℕ
used_addresses subnet [] = []
used_addresses subnet (i ∷ rows) =
    let rest = used_addresses subnet rows in
    elim (parse_ipv4 (chars i.address)) [
      | none ↦ rest
      | some a ↦ if covers subnet a then a ∷ rest else rest
    ]

unfoldable pub is_owned : ℤ → Slot → Bool
is_owned host_id s = (s.owner_host_id == host_id) && slot_state_beq s.state SlotState.active

unfoldable pub insert_number : ℕ → List ℕ → List ℕ
insert_number n [] = n ∷ []
insert_number n (k ∷ ns) = let rest = insert_number n ns in if leb n k then n ∷ k ∷ ns else k ∷ rest

-- `sort_unstable`
unfoldable pub sort : List ℕ → List ℕ
sort [] = []
sort (n ∷ ns) = insert_number n (sort ns)

unfoldable pub owned_slots : ℤ → List Slot → List ℕ
owned_slots host_id slots = sort (map (λ s. s.slot) (select (is_owned host_id) slots))

-- A full slot leaves the search to the later ones.
unfoldable pub take_answer : ℕ → Result Error (ℕ × ℕ) → NetworkResult ℕ → Result Error (ℕ × ℕ)
take_answer n later (NetworkResult.ok a) = ok (a, n)
take_answer n later (NetworkResult.err addresses_exhausted) = later
take_answer n later (NetworkResult.err e) = err (network e)

-- The loop over the slots; a slot number has to be a u32.
unfoldable pub allocate_first : List ℕ → Ipv4Prefix → Slots → List ℕ → Result Error (ℕ × ℕ)
allocate_first used subnet slots [] = err (network addresses_exhausted)
allocate_first used subnet slots (n ∷ rest) =
    let later = allocate_first used subnet slots rest in
    if ltb n (2 ^ 32)
    then take_answer n later (allocate_address (some used) subnet slots n)
    else err dependency

unfoldable pub allocate_from : List ℕ → Ipv4Prefix → Slots → ℤ → List ℕ → Result Error (ℕ × ℕ)
allocate_from used subnet slots host_id [] = err (no_slot_for_host host_id)
allocate_from used subnet slots host_id (n ∷ rest) = allocate_first used subnet slots (n ∷ rest)

unfoldable pub allocate_in_owned_slot : Division → ℤ → Ipv4Prefix → Result Error (ℕ × ℕ)
allocate_in_owned_slot d host_id subnet = elim (new d.prefix) [
  | NetworkResult.err e ↦ err (network e)
  | NetworkResult.ok slots ↦
      allocate_from (used_addresses subnet d.instances) subnet slots host_id
        (owned_slots host_id d.slots)
]

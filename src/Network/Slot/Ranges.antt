-- ===== src/Network/Slot/Ranges.antt =====
-- The slots of a /24 and their addresses (crates/network/src/slot.rs).
use bento.Shared.{
  ℕ, ◌-◌, ◌/◌, ◌%◌, ◌^◌, ◌≤◌, ◌<◌, ◌≡◌, ◌≢◌, true, arith, ◌↔◌, ◌⊎◌, inl, inr, if◌then◌else◌,
  nat_beq,
}
use bento.Network.Prefix.{Ipv4Prefix, u32_mod, IsPrefixValue, covers}
use bento.Network.Error.{ok}
use bento.Network.Slot.{Slots, count, shift, slot_prefix, slot_of, host_octet, assignable, capacity}

-- A division that `new` accepts.
abbrev pub IsSlots : Slots → Type 0
IsSlots s = (24 ≤ s.bits) × (s.bits ≤ 27)

pub bits-cases :
    (s : Slots) → IsSlots s → (s.bits ≡ 24) ⊎ ((s.bits ≡ 25) ⊎ ((s.bits ≡ 26) ⊎ (s.bits ≡ 27)))
bits-cases s h = omega arith

-- Every address that a /24 covers lies in one of the slots that exist, for a division between 24 and
-- 27 bits.
pub slot_of-lt-count :
    (s : Slots) (subnet : Ipv4Prefix) (a : ℕ)
    → IsSlots s
    → subnet.bits ≡ 24
    → covers subnet a ≡ true
    → (slot : ℕ) × (slot_of s subnet a ≡ ok slot) × (slot < count s)
unfolding slot_of count
slot_of-lt-count s subnet a h slash inside = (
  host_octet a / 2 ^ shift s,
  ground arith,
  unfold shift host_octet in
      elim (bits-cases s h) [
        | inl b ↦ rw b (omega arith)
        | inr (inl b) ↦ rw b (omega arith)
        | inr (inr (inl b)) ↦ rw b (omega arith)
        | inr (inr (inr b)) ↦ rw b (omega arith)
      ],
)

-- When a slot has a routed prefix, an address has that slot's number exactly if that prefix covers it;
-- for an address below 2 ^ 32, a prefix in range, and a division between 24 and 27 bits.
pub slot_of-slot_prefix :
    (s : Slots) (subnet : Ipv4Prefix) (slot a : ℕ) {p : Ipv4Prefix}
    → IsSlots s
    → IsPrefixValue subnet
    → a < u32_mod
    → slot_prefix s subnet slot ≡ ok p
    → (slot_of s subnet a ≡ ok slot) ↔ (covers p a ≡ true)
unfolding slot_of slot_prefix count
slot_of-slot_prefix s subnet slot a h v fits e = elim (bits-cases s h) [
  | inl b ↦ ground arith
  | inr (inl b) ↦ ground arith
  | inr (inr (inl b)) ↦ ground arith
  | inr (inr (inr b)) ↦ ground arith
]

-- When a slot has an assignable range, a host octet lies in it exactly if it lies in the slot and is
-- neither the gateway nor the first or the last address of the slot; for a division between 24 and 27
-- bits.
pub assignable_iff :
    (s : Slots) (slot host : ℕ) {low high : ℕ}
    → IsSlots s
    → host < 256
    → assignable s slot ≡ ok (low, high)
    → ((low ≤ host) × (host ≤ high)) ↔ (
        (host / 2 ^ (32 - s.bits) ≡ slot)
        × (host ≢ 1)
        × (host % 2 ^ (32 - s.bits) ≢ 0)
        × (host % 2 ^ (32 - s.bits) ≢ 2 ^ (32 - s.bits) - 1))
unfolding assignable count
assignable_iff s slot host h octet e = elim (bits-cases s h) [
  | inl b ↦ ground arith
  | inr (inl b) ↦ ground arith
  | inr (inr (inl b)) ↦ ground arith
  | inr (inr (inr b)) ↦ ground arith
]

-- A slot that exists can hold as many instances as it has addresses, less its first and last, and in
-- slot 0 less the gateway; for a division between 24 and 27 bits.
pub capacity_lem :
    (s : Slots) (slot : ℕ)
    → IsSlots s
    → slot < count s
    → capacity s slot ≡ ok (2 ^ (32 - s.bits) - (if nat_beq slot 0 then 3 else 2))
unfolding capacity count
capacity_lem s slot h below = elim (bits-cases s h) [
  | inl b ↦ ground arith
  | inr (inl b) ↦ ground arith
  | inr (inr (inl b)) ↦ ground arith
  | inr (inr (inr b)) ↦ ground arith
]

-- ===== src/Network/Subnet/Addresses.antt =====
-- What `allocate_address` of crates/network/src/subnet.rs hands out.
use bento.Shared.{
  ℕ, ◌+◌, ◌-◌, ◌*◌, ◌/◌, ◌%◌, ◌^◌, ◌≤◌, ◌<◌, ◌≡◌, ◌≢◌, true, false, arith, ◌⊎◌, inl, inr, List,
  some, contains, nat_eq, first_free, first_free-some, first_free-none, max, min, IsLowestFree,
  Option-cases,
}
use bento.Network.Error.{ok, err, addresses_exhausted, >>=-eq-ok}
use bento.Network.Prefix.{Ipv4Prefix, u32_mod, IsPrefixValue, masked}
use bento.Network.Slot.{
  Slots, count, shift, check_slot, first_host, last_host, gateway_host, slot_of, assignable,
  require_slash_24,
}
use bento.Network.Slot.Ranges.{IsSlots, bits-cases}
use bento.Network.Subnet.{subnet, allocate_address, pick_address, gateway}

-- The hosts of a slot that an instance may get: those of the part that the slot is of the /24, but for its first
-- and its last, for the network, the gateway and the broadcast address.
pub record IsAssignable (s : Slots) (slot host : ℕ) : Type 0 where
  pub after_first : slot * 2 ^ (32 - s.bits) < host
  pub before_last : host + 1 < slot * 2 ^ (32 - s.bits) + 2 ^ (32 - s.bits)
  pub past_gateway : 1 < host
  pub below_broadcast : host < 255

-- An allocated address is that of an assignable host, lies in the slot, is nobody's, is not the gateway, and every
-- lower assignable host of the slot is in use.
pub record IsLowestAddress (used : List ℕ) (subnet : Ipv4Prefix) (s : Slots) (slot a : ℕ)
    : Type 0 where
  pub host : ℕ
  pub at_host : a ≡ (masked subnet).addr + host
  pub assignable_host : IsAssignable s slot host
  pub in_slot : slot_of s subnet a ≡ ok slot
  pub unused : contains used a ≡ false
  pub not_gateway : a ≢ gateway subnet
  pub lower_used :
      (other : ℕ)
      → IsAssignable s slot other
      → other < host
      → contains used ((masked subnet).addr + other) ≡ true

-- The assignable octets of a slot, and where they lie.
range-bounds :
    (s : Slots) (slot : ℕ) {low high : ℕ}
    → IsSlots s
    → assignable s slot ≡ ok (low, high)
    → (2 ≤ low)
      × (low ≤ high)
      × (high ≤ 254)
      × (slot * 2 ^ shift s ≤ low)
      × (high < slot * 2 ^ shift s + 2 ^ shift s)
unfolding assignable count
range-bounds s slot h e = elim (bits-cases s h) [
  | inl b ↦ ground arith
  | inr (inl b) ↦ ground arith
  | inr (inr (inl b)) ↦ ground arith
  | inr (inr (inr b)) ↦ ground arith
]

assignable-IsAssignable :
    (s : Slots) (slot host : ℕ) {low high : ℕ}
    → IsSlots s
    → assignable s slot ≡ ok (low, high)
    → low ≤ host
    → host ≤ high
    → IsAssignable s slot host
unfolding assignable count
assignable-IsAssignable s slot host h e above below = record {
  after_first = (by_bits (bits-cases s h)).0;
  before_last = (by_bits (bits-cases s h)).1;
  past_gateway = (by_bits (bits-cases s h)).2;
  below_broadcast = (by_bits (bits-cases s h)).3;
}
  where
    by_bits :
        (s.bits ≡ 24) ⊎ ((s.bits ≡ 25) ⊎ ((s.bits ≡ 26) ⊎ (s.bits ≡ 27)))
        → (slot * 2 ^ (32 - s.bits) < host)
          × (host + 1 < slot * 2 ^ (32 - s.bits) + 2 ^ (32 - s.bits))
          × (1 < host)
          × (host < 255)
    by_bits (inl b) = ground arith
    by_bits (inr (inl b)) = ground arith
    by_bits (inr (inr (inl b))) = ground arith
    by_bits (inr (inr (inr b))) = ground arith

IsAssignable-low :
    (s : Slots) (slot host : ℕ) {low high : ℕ}
    → IsSlots s
    → assignable s slot ≡ ok (low, high)
    → IsAssignable s slot host
    → low ≤ host
unfolding assignable count
IsAssignable-low s slot host h e may = elim (bits-cases s h) [
  | inl b ↦ ground (arith, may.after_first, may.past_gateway)
  | inr (inl b) ↦ ground (arith, may.after_first, may.past_gateway)
  | inr (inr (inl b)) ↦ ground (arith, may.after_first, may.past_gateway)
  | inr (inr (inr b)) ↦ ground (arith, may.after_first, may.past_gateway)
]

in_slot-host :
    (s : Slots) (subnet : Ipv4Prefix) (slot host : ℕ)
    → IsSlots s
    → subnet.bits ≡ 24
    → host < 256
    → slot * 2 ^ shift s ≤ host
    → host < slot * 2 ^ shift s + 2 ^ shift s
    → slot_of s subnet (subnet.addr / 256 * 256 + host) ≡ ok slot
unfolding slot_of
in_slot-host s subnet slot host h slash octet low high = elim (bits-cases s h) [
  | inl b ↦ ground arith
  | inr (inl b) ↦ ground arith
  | inr (inr (inl b)) ↦ ground arith
  | inr (inr (inr b)) ↦ ground arith
]

masked-slash_24 : (p : Ipv4Prefix) → p.bits ≡ 24 → (masked p).addr ≡ p.addr / 256 * 256
unfolding masked
masked-slash_24 p h = ground arith

pick_address-parts :
    (base low high : ℕ) (used : List ℕ) {a : ℕ}
    → pick_address base (low, high) (some used) ≡ ok a
    → (host : ℕ) × (a ≡ (base + host) % u32_mod)
      × IsLowestFree low (low + (high + 1 - low)) (λ h. contains used ((base + h) % u32_mod)) host
unfolding pick_address
pick_address-parts base low high used e =
    elim (Option-cases
      (first_free (high + 1 - low) low (λ h. contains used ((base + h) % u32_mod)))) [
        | inl full ↦ absurd (ground (arith, full))
        | inr (host, found) ↦
            (host, ground (arith, found), first_free-some (high + 1 - low) low _ found)
      ]

pick_address-cases :
    (base low high : ℕ) (used : List ℕ)
    → ((a : ℕ) × (pick_address base (low, high) (some used) ≡ ok a))
      ⊎ ((pick_address base (low, high) (some used) ≡ err addresses_exhausted)
          × ((k : ℕ) → low ≤ k → k ≤ high → contains used ((base + k) % u32_mod) ≡ true))
unfolding pick_address
pick_address-cases base low high used =
    elim (Option-cases
      (first_free (high + 1 - low) low (λ h. contains used ((base + h) % u32_mod)))) [
        | inl full ↦ inr (
          ground (arith, full),
          λ k above within.
              first_free-none (high + 1 - low) low _ full k (omega arith) (omega arith),
        )
        | inr (host, found) ↦ inl ((base + host) % u32_mod, ground (arith, found))
      ]

require_slash_24-bits : (p : Ipv4Prefix) {u : Unit {0}} → require_slash_24 p ≡ ok u → p.bits ≡ 24
unfolding require_slash_24
require_slash_24-bits p e = ground arith

no_wrap :
    (subnet : Ipv4Prefix) (k : ℕ)
    → IsPrefixValue subnet
    → subnet.bits ≡ 24
    → k < 256
    → ((masked subnet).addr + k) % u32_mod ≡ (masked subnet).addr + k
no_wrap subnet k v slash octet = omega (arith, masked-slash_24 subnet slash, v.addr_fits)

-- The search's answer, read as an address.
module _ (used : List ℕ) (subnet : Ipv4Prefix) (s : Slots) (slot low high host : ℕ)
    (v : IsPrefixValue subnet) (h : IsSlots s) (slash : subnet.bits ≡ 24)
    (ranged : assignable s slot ≡ ok (low, high))
    (lowest : IsLowestFree low
      (low + (high + 1 - low))
      (λ k. contains used (((masked subnet).addr + k) % u32_mod))
      host) where
  found-IsLowestAddress :
      IsLowestAddress used subnet s slot (((masked subnet).addr + host) % u32_mod)
  found-IsLowestAddress =
      let bounds = range-bounds s slot h ranged in
      let octet : host < 256 = omega (arith, bounds, lowest.below_end) in
      let from : low ≤ host = lowest.from_start in
      let base = masked-slash_24 subnet slash in
      record {
        in_slot =
            rw (no_wrap subnet host v slash octet, base)
              (in_slot-host s subnet slot host h slash octet (omega (arith, bounds, from))
                (omega (arith, bounds, lowest.below_end)));
        unused = lowest.free;
        not_gateway = λ e.
            unfold gateway in omega (arith, no_wrap subnet host v slash octet, bounds, from, base);
        host = host;
        at_host = no_wrap subnet host v slash octet;
        assignable_host =
            assignable-IsAssignable s slot host h ranged from
              (omega (arith, bounds, lowest.below_end));
        lower_used = λ k may small.
            rw (no_wrap subnet k v slash (omega (arith, may.below_broadcast))) at
              (lowest.lower_taken k (IsAssignable-low s slot k h ranged may) small);
      }

-- An address that the allocator gives out is that of an assignable host of the slot that was asked for (not the
-- slot's first or last, nor the network, gateway or broadcast address), is not in use, and every lower assignable
-- host of the slot is in use; for a slot division between
-- 24 and 27 bits and a prefix in range.
pub allocate_address-IsLowestAddress :
    (used : List ℕ) (subnet : Ipv4Prefix) (s : Slots) (slot : ℕ) {a : ℕ}
    → IsPrefixValue subnet
    → IsSlots s
    → allocate_address (some used) subnet s slot ≡ ok a
    → IsLowestAddress used subnet s slot a
unfolding allocate_address
allocate_address-IsLowestAddress used subnet s slot {a} v h e =
    let (_, slash, e₁) = >>=-eq-ok (require_slash_24 subnet) _ e in
    let ((low, high), ranged, e₂) = >>=-eq-ok (assignable s slot) _ e₁ in
    let (host, is_a, lowest) = pick_address-parts (masked subnet).addr low high used e₂ in
    rw is_a (
      found-IsLowestAddress used subnet s slot low high host v h
        (require_slash_24-bits subnet slash) ranged lowest)

require_slash_24-ok : (p : Ipv4Prefix) → p.bits ≡ 24 → require_slash_24 p ≡ ok tt
unfolding require_slash_24
require_slash_24-ok p e = ground arith

assignable-total :
    (s : Slots) (slot : ℕ)
    → slot < count s
    → (low : ℕ) × (high : ℕ) × (assignable s slot ≡ ok (low, high))
unfolding assignable check_slot count
assignable-total s slot below =
    let width = 2 ^ shift s in
    (
      max (max (slot * width + 1) first_host) (gateway_host + 1),
      min (slot * width + width - 1 - 1) last_host,
      ground arith,
    )

-- In a slot that exists of a /24 the allocator answers: with an address, or with the exhaustion error,
-- and then every assignable host of the slot is in use.
pub allocate_address-total :
    (used : List ℕ) (subnet : Ipv4Prefix) (s : Slots) (slot : ℕ)
    → IsPrefixValue subnet
    → IsSlots s
    → subnet.bits ≡ 24
    → slot < count s
    → ((a : ℕ) × (allocate_address (some used) subnet s slot ≡ ok a))
      ⊎ ((allocate_address (some used) subnet s slot ≡ err addresses_exhausted)
          × ((low high host : ℕ)
              → assignable s slot ≡ ok (low, high)
              → low ≤ host
              → host ≤ high
              → contains used ((masked subnet).addr + host) ≡ true))
unfolding allocate_address
allocate_address-total used subnet s slot v h slash below =
    let (low, high, ranged) = assignable-total s slot below in
    let slash' = require_slash_24-ok subnet slash in
    elim (pick_address-cases (masked subnet).addr low high used) [
      | inl (a, picked) ↦ inl (a, rw (slash', ranged) picked)
      | inr (full, taken) ↦ inr (
        rw (slash', ranged) full,
        λ low' high' k ranged' above within.
            let lows : low' ≡ low = ground (arith, ranged, ranged') in
            let highs : high' ≡ high = ground (arith, ranged, ranged') in
            rw (no_wrap subnet k v slash (omega (arith, range-bounds s slot h ranged))) at
              (taken k (omega arith) (omega arith)),
      )
    ]

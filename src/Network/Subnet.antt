-- ===== src/Network/Subnet.antt =====
-- crates/network/src/subnet.rs: user /24 subnets in the private range, and guest addresses in a slot.
-- The store's lists come in as arguments, `none` when the store reports an error.
pub mod Numbering
pub mod Allocation
pub mod Addresses
use bento.Shared.{
  ℕ, ◌+◌, ◌-◌, ◌*◌, ◌/◌, ◌%◌, ◌^◌, Bool, if◌then◌else◌, ltb, leb, nat_beq, not, List, [], ◌∷◌,
  contains, nat_eq, Option, none, some, first_free,
}
use bento.Shared.Int.{ℤ, pos, negsuc}
use bento.Network.Error.{
  invalid, range_too_narrow, index_outside, not_slash_24, subnet_outside, address_outside,
  subnets_exhausted, addresses_exhausted, list_used_subnets, list_used_addresses, Result, ok, err,
  ◌>>=◌, ◌>>◌,
}
use bento.Network.Prefix.{Ipv4Prefix, u32_mod, masked, covers}
use bento.Network.Slot.{Slots, require_slash_24, assignable}

-- `gateway_host` of this file; crates/network/src/slot.rs has a constant of the same value.
abbrev pub gateway_host : ℕ
gateway_host = 1

pub record Plan : Type 0 where
  pub prefix : Ipv4Prefix

unfoldable pub from_prefix : Ipv4Prefix → Result Plan
unfolding masked
from_prefix prefix =
    if ltb 24 prefix.bits
    then err (invalid (range_too_narrow prefix))
    else ok (record { prefix = masked prefix })

-- `1usize << (24 - bits)`
unfoldable pub subnets : Plan → ℕ
subnets plan = 2 ^ (24 - plan.prefix.bits)

-- `base + ((index as u32) << 8)`, all in `u32`.
unfoldable pub subnet_at : Plan → ℕ → Ipv4Prefix
subnet_at plan index = record {
  addr = (plan.prefix.addr + index % u32_mod * 256 % u32_mod) % u32_mod;
  bits = 24;
}

-- The index is an `isize`.
unfoldable pub subnet : Plan → ℤ → Result Ipv4Prefix
unfolding subnets
subnet plan (negsuc n) = err (invalid (index_outside (negsuc n)))
subnet plan (pos index) =
    if leb (subnets plan) index
    then err (invalid (index_outside (pos index)))
    else ok (subnet_at plan index)

-- The difference of two `u32`.
unfoldable pub index : Plan → Ipv4Prefix → Result ℕ
index plan subnet =
    if not (nat_beq subnet.bits 24)
    then err (invalid (not_slash_24 subnet))
    else if not (covers plan.prefix (masked subnet).addr)
    then err (invalid (subnet_outside subnet))
    else ok (((masked subnet).addr + u32_mod - plan.prefix.addr) % u32_mod / 256)

-- `used.filter_map(|subnet| self.index(subnet).ok())`
unfoldable pub taken_indices : Plan → List Ipv4Prefix → List ℕ
taken_indices plan [] = []
taken_indices plan (s ∷ used) = elim (index plan s) [
  | ok i ↦ i ∷ taken_indices plan used
  | err _ ↦ taken_indices plan used
]

unfoldable pub allocate : Plan → Option (List Ipv4Prefix) → Result Ipv4Prefix
unfolding taken_indices subnet
allocate plan none = err list_used_subnets
allocate plan (some used) =
    elim (first_free (subnets plan) 0 (contains (taken_indices plan used))) [
      | some i ↦ subnet plan (pos i)
      | none ↦ err subnets_exhausted
    ]

-- The loop over `low..=high`, from the number of hosts in the range.
unfoldable pub free_host : ℕ → ℕ × ℕ → List ℕ → Option ℕ
free_host base (low, high) used =
    first_free (high + 1 - low) low (λ host. contains used ((base + host) % u32_mod))

unfoldable pub pick_address : ℕ → ℕ × ℕ → Option (List ℕ) → Result ℕ
unfolding free_host
pick_address base range none = err list_used_addresses
pick_address base range (some used) = elim (free_host base range used) [
  | some host ↦ ok ((base + host) % u32_mod)
  | none ↦ err addresses_exhausted
]

unfoldable pub allocate_address : Option (List ℕ) → Ipv4Prefix → Slots → ℕ → Result ℕ
unfolding pick_address
allocate_address used subnet slots slot = do
  require_slash_24 subnet
  range ← assignable slots slot
  pick_address (masked subnet).addr range used

unfoldable pub gateway : Ipv4Prefix → ℕ
unfolding masked
gateway subnet = ((masked subnet).addr + gateway_host) % u32_mod

-- A resolver address is an `IpAddr`, of which only identity matters here.
pub record GuestNetwork (Ip : Type 0) : Type 0 where
  pub address : Ipv4Prefix
  pub gateway_address : ℕ
  pub dns : List Ip

module _ {Ip : Type 0} (default_dns : List Ip) where
  unfoldable pub guest_network : Ipv4Prefix → ℕ → Option (List Ip) → Result (GuestNetwork Ip)
  unfolding require_slash_24 covers gateway
  guest_network subnet address dns = do
    require_slash_24 subnet
    if not (covers subnet address)
        then err (invalid (address_outside address subnet))
        else ok (record {
          address = record { addr = address; bits = 24 };
          gateway_address = gateway subnet;
          dns = elim dns [ none ↦ default_dns | some list ↦ list ];
        })

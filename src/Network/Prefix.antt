-- ===== src/Network/Prefix.antt =====
-- IPv4 prefixes: `Ipv4Prefix` of crates/config/src/lib.rs and the helpers at the end of
-- crates/network/src/subnet.rs. An address is its `u32`, a number below 2 ^ 32. `x & mask` with the
-- mask of a prefix clears the low bits of `x`, which is written as a division and a product.
use bento.Shared.{ℕ, ◌-◌, ◌*◌, ◌/◌, ◌^◌, ◌<◌, Bool, false, if◌then◌else◌, ltb, leb, nat_beq}

abbrev pub u32_mod : ℕ
u32_mod = 2 ^ 32

pub record Ipv4Prefix : Type 0 where
  pub addr : ℕ
  pub bits : ℕ  -- u8

-- What the types `Ipv4Addr` and `u8` promise.
pub record IsPrefixValue (p : Ipv4Prefix) : Type 0 where
  pub addr_fits : p.addr < u32_mod
  pub bits_fit : p.bits < 256

-- `x & prefix_mask(bits)`: 0 keeps no bit, 1 to 32 keep the high bits, and more keep none.
unfoldable pub and_mask : ℕ → ℕ → ℕ
and_mask bits x =
    if nat_beq bits 0 then 0 else if leb bits 32 then x / 2 ^ (32 - bits) * 2 ^ (32 - bits) else 0

unfoldable pub masked : Ipv4Prefix → Ipv4Prefix
unfolding and_mask
masked prefix = record { addr = and_mask prefix.bits prefix.addr; bits = prefix.bits }

-- `Ipv4Prefix::contains`; unlike the mask, it refuses a length above 32.
unfoldable pub covers : Ipv4Prefix → ℕ → Bool
unfolding and_mask
covers prefix address =
    if ltb 32 prefix.bits
    then false
    else nat_beq (and_mask prefix.bits address) (and_mask prefix.bits prefix.addr)

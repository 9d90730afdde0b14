-- ===== src/Network/Slot.antt =====
-- crates/network/src/slot.rs: how a user /24 divides into runner slots.
pub mod Ranges
use bento.Shared.{
  ℕ, ◌+◌, ◌-◌, ◌*◌, ◌/◌, ◌%◌, ◌^◌, max, min, Bool, if◌then◌else◌, ltb, leb, nat_beq, ◌&&◌, not,
  Option, none, some,
}
use bento.Network.Error.{
  invalid, slot_prefix_outside, not_slash_24, no_such_slot, address_outside, Result, ok, err, ◌>>=◌,
  ◌>>◌,
}
use bento.Network.Prefix.{Ipv4Prefix, u32_mod, masked, covers}

abbrev pub min_slot_bits : ℕ
min_slot_bits = 24

abbrev pub max_slot_bits : ℕ
max_slot_bits = 27

abbrev pub gateway_host : ℕ
gateway_host = 1

abbrev pub first_host : ℕ
first_host = 2

abbrev pub last_host : ℕ
last_host = 254

pub record Slots : Type 0 where
  pub bits : ℕ  -- u8

unfoldable pub new : ℕ → Result Slots
new bits =
    if leb min_slot_bits bits && leb bits max_slot_bits
    then ok (record { bits = bits })
    else err (invalid (slot_prefix_outside bits))

-- `1 << (bits - 24)`; `new` keeps the subtraction from going below 0.
unfoldable pub count : Slots → ℕ
count s = 2 ^ (s.bits - min_slot_bits)

unfoldable pub shift : Slots → ℕ
shift s = 8 - (s.bits - min_slot_bits)

unfoldable pub check_slot : Slots → ℕ → Result (Unit {0})
unfolding count
check_slot s slot = if leb (count s) slot then err (invalid (no_such_slot slot)) else ok tt

unfoldable pub require_slash_24 : Ipv4Prefix → Result (Unit {0})
require_slash_24 prefix =
    if nat_beq prefix.bits 24 then ok tt else err (invalid (not_slash_24 prefix))

-- The sum is a `u32`, and wraps.
unfoldable pub slot_prefix : Slots → Ipv4Prefix → ℕ → Result Ipv4Prefix
unfolding require_slash_24 check_slot masked shift
slot_prefix s subnet slot = do
  require_slash_24 subnet
  check_slot s slot
  let base = (masked subnet).addr
  ok (record { addr = (base + slot * 2 ^ shift s) % u32_mod; bits = s.bits })

unfoldable pub host_octet : ℕ → ℕ
host_octet address = address % 256

unfoldable pub slot_of : Slots → Ipv4Prefix → ℕ → Result ℕ
unfolding require_slash_24 covers host_octet shift
slot_of s subnet address = do
  require_slash_24 subnet
  if not (covers subnet address)
      then err (invalid (address_outside address subnet))
      else ok (host_octet address / 2 ^ shift s)

-- The lowest and the highest host octet of a new allocation.
unfoldable pub assignable : Slots → ℕ → Result (ℕ × ℕ)
unfolding check_slot shift
assignable s slot = do
  check_slot s slot
  let width = 2 ^ shift s
  let first = slot * width
  let last = first + width - 1
  ok (max (max (first + 1) first_host) (gateway_host + 1), min (last - 1) last_host)

unfoldable pub capacity : Slots → ℕ → Result ℕ
unfolding assignable
capacity s slot = do (low, high) ← assignable s slot; ok (high + 1 - low)

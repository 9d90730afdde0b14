-- ===== src/Network/Error.antt =====
-- `Error` and `Result` of crates/network/src/lib.rs. A refusal keeps the values that its message
-- names, without the text; the cause that a store or a command reports is left out.
use bento.Shared.{ℕ, ◌≡◌, refl}
use bento.Shared.Int.{ℤ}
use bento.Network.Prefix.{Ipv4Prefix}

pub data Refusal : Type 0 where
  slot_prefix_outside : ℕ → Refusal
  not_slash_24 : Ipv4Prefix → Refusal
  no_such_slot : ℕ → Refusal
  address_outside : ℕ → Ipv4Prefix → Refusal
  range_too_narrow : Ipv4Prefix → Refusal
  index_outside : ℤ → Refusal
  subnet_outside : Ipv4Prefix → Refusal
  not_slot_prefix : Ipv4Prefix → Refusal
  slot_route_wide : (destination subnet : Ipv4Prefix) → Refusal
  user_outside : (subnet range : Ipv4Prefix) → Refusal
  slot_outside slot_twice : ℕ → Refusal
  next_hop_inside : (next_hop slot : ℕ) → Refusal
  frontend_inside : ℕ → Refusal

pub data Error : Type 0 where
  invalid : Refusal → Error
  subnets_exhausted addresses_exhausted list_used_subnets list_used_addresses apply : Error

pub data Result {ℓ} (A : Type ℓ) : Type ℓ where
  ok : A → Result A
  err : Error → Result A

-- The `?` of the source.
infixl 5 ◌>>=◌ ◌>>◌
abbrev pub ◌>>=◌ {ℓ ℓ'} : {X : Type ℓ} {Y : Type ℓ'} → Result X → (X → Result Y) → Result Y
err refusal >>= next = err refusal
ok x >>= next = next x

abbrev pub ◌>>◌ {ℓ} : {Y : Type ℓ} → Result (Unit {0}) → Result Y → Result Y
checked >> next = checked >>= λ _. next

pub >>=-eq-ok {ℓ ℓ'} :
    {X : Type ℓ} {Y : Type ℓ'} (first : Result X) (next : X → Result Y) {y : Y}
    → (first >>= next) ≡ ok y
    → (x : X) × (first ≡ ok x) × (next x ≡ ok y)
>>=-eq-ok (err refusal) next e = cc
>>=-eq-ok (ok x) next e = (x, refl, e)

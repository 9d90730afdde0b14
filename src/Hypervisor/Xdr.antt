-- ===== src/Hypervisor/Xdr.antt =====
-- crates/hypervisor/src/xdr.rs: the writer and the reader of XDR values. A byte is a number below 256, and
-- a usize has 64 bits. The encoding of texts as UTF-8 is the standard library's, a parameter.
pub mod Write
pub mod Read
pub mod Bytes
pub mod RoundTrip
use bento.Shared.{
  ℕ, zero, suc, ◌+◌, ◌-◌, ◌*◌, ◌/◌, ◌%◌, ◌^◌, Bool, true, false, if◌then◌else◌, ltb, leb, nat_beq,
  List, [], ◌∷◌, ◌++◌, Option, none, some, length, take, drop, replicate,
}
use bento.Shared.Result.{Result, ok, err, ◌>>=◌}

-- The protocol errors that this file reports.
pub data ApiError : Type 0 where
  string_too_large offset_overflow not_utf8 : ApiError
  truncated : (offset need have : ℕ) → ApiError
  value_too_long array_too_long trailing discriminant : ℕ → ApiError

abbrev pub alignment : ℕ
alignment = 4

abbrev pub max_value_length : ℕ
max_value_length = 16 * 1024 * 1024

pub record Utf8 : Type 1 where
  pub Text : Type 0
  pub as_bytes : Text → List ℕ
  pub from_utf8 : List ℕ → Option Text

-- `u32::to_be_bytes`
unfoldable pub to_be_bytes : ℕ → List ℕ
to_be_bytes n = (n / 2 ^ 24) % 256 ∷ (n / 2 ^ 16) % 256 ∷ (n / 2 ^ 8) % 256 ∷ n % 256 ∷ []

-- `from_be_bytes`, of as many bytes as there are.
unfoldable pub from_be_bytes_after : ℕ → List ℕ → ℕ
from_be_bytes_after high [] = high
from_be_bytes_after high (b ∷ bytes) = from_be_bytes_after (high * 256 + b) bytes

unfoldable pub from_be_bytes : List ℕ → ℕ
unfolding from_be_bytes_after
from_be_bytes = from_be_bytes_after 0

unfoldable pub padding : ℕ → ℕ
padding len = (alignment - len % alignment) % alignment

pub record Writer : Type 0 where
  pub bytes : List ℕ

pub record Reader : Type 0 where
  pub bytes : List ℕ
  pub offset : ℕ

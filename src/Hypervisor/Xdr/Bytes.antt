-- ===== src/Hypervisor/Xdr/Bytes.antt =====
-- The bytes under the reader of crates/hypervisor/src/xdr.rs: appending, taking and big-endian
-- numbers.
use bento.Shared.{
  ℕ, ◌+◌, ◌^◌, ◌<◌, ◌≡◌, refl, ap, ◌∙◌, arith, true, ltb, leb, List, [], ◌∷◌, ◌++◌, length, take,
  drop, length-append,
}
use bento.Shared.Result.{ok}
use bento.Hypervisor.Xdr.{to_be_bytes, from_be_bytes, from_be_bytes_after, Reader}
use bento.Hypervisor.Xdr.Read.{take_bytes}

-- The reader that has read `done` and still has `rest`.
abbrev pub at : List ℕ → List ℕ → Reader
at done rest = record { bytes = done ++ rest; offset = length done }

-- What the machine can address.
abbrev pub Fits : List ℕ → Type 0
Fits bytes = length bytes < 2 ^ 64

pub append_assoc : (xs ys zs : List ℕ) → (xs ++ ys) ++ zs ≡ xs ++ (ys ++ zs)
append_assoc [] ys zs = refl
append_assoc (x ∷ xs) ys zs = ap (λ t. x ∷ t) (append_assoc xs ys zs)

drop-append : (xs ys : List ℕ) → drop (length xs) (xs ++ ys) ≡ ys
drop-append [] ys = refl
drop-append (x ∷ xs) ys = drop-append xs ys

take-append : (xs ys : List ℕ) → take (length xs) (xs ++ ys) ≡ xs
take-append [] ys = refl
take-append (x ∷ xs) ys = ap (λ t. x ∷ t) (take-append xs ys)

pub take_bytes-at :
    (done xs rest : List ℕ)
    → Fits (done ++ (xs ++ rest))
    → take_bytes (length xs) (at done (xs ++ rest)) ≡ ok (xs, at (done ++ xs) rest)
unfolding take_bytes
take_bytes-at done xs rest fits =
    let whole = length-append done (xs ++ rest) in
    let tail = length-append xs rest in
    let below : ltb (length done + length xs) (2 ^ 64) ≡ true = ground (arith, whole, tail) in
    let within : leb (length done + length xs) (length (done ++ (xs ++ rest))) ≡ true =
      ground (arith, whole, tail) in
    let value : take (length xs) (drop (length done) (done ++ (xs ++ rest))) ≡ xs =
      ap (take (length xs)) (drop-append done (xs ++ rest)) ∙ take-append xs rest in
    let place : length (done ++ xs) ≡ length done + length xs = length-append done xs in
    rw (below, within, value, place, append_assoc done xs rest) refl

pub from_be_bytes-to_be_bytes : (n : ℕ) → n < 2 ^ 32 → from_be_bytes (to_be_bytes n) ≡ n
unfolding from_be_bytes to_be_bytes from_be_bytes_after
from_be_bytes-to_be_bytes n small = omega arith

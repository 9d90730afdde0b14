-- ===== src/Hypervisor/Xdr/RoundTrip.antt =====
-- Writing and then reading XDR values (crates/hypervisor/src/xdr.rs).
use bento.Shared.{
  ℕ, ◌^◌, ◌≤◌, ◌<◌, ◌≡◌, refl, ap, sym, subst, ◌∙◌, arith, true, false, ltb, List, ◌++◌, Option,
  none, some, length, replicate, length-replicate, Bool-cases, inl, inr,
}
use bento.Shared.Result.{ok}
use bento.Hypervisor.Xdr.{Utf8, Writer, to_be_bytes, from_be_bytes, padding, max_value_length}
use bento.Hypervisor.Xdr.Write
use bento.Hypervisor.Xdr.Read
use bento.Hypervisor.Xdr.Bytes.{at, Fits, append_assoc, take_bytes-at, from_be_bytes-to_be_bytes}

pub u32-at :
    (done : List ℕ) (n : ℕ) (rest : List ℕ)
    → n < 2 ^ 32
    → Fits (done ++ (to_be_bytes n ++ rest))
    → Read.u32 (at done (to_be_bytes n ++ rest)) ≡ ok (n, at (done ++ to_be_bytes n) rest)
unfolding Read.u32 to_be_bytes
u32-at done n rest small fits =
    let value : from_be_bytes (to_be_bytes n) ≡ n = from_be_bytes-to_be_bytes n small in
    rw (take_bytes-at done (to_be_bytes n) rest fits, value) refl

-- The same, of the bytes as the writer leaves them.
u32_written :
    (done : List ℕ) (n : ℕ) (rest : List ℕ)
    → n < 2 ^ 32
    → Fits ((done ++ to_be_bytes n) ++ rest)
    → Read.u32 (record { bytes = (done ++ to_be_bytes n) ++ rest; offset = length done })
      ≡ ok (n, at (done ++ to_be_bytes n) rest)
u32_written done n rest small fits =
    let flat = append_assoc done (to_be_bytes n) rest in
    subst
      (λ bytes.
        Read.u32 (record { bytes = bytes; offset = length done })
        ≡ ok (n, at (done ++ to_be_bytes n) rest))
      (sym flat) (u32-at done n rest small (subst Fits flat fits))

pub fixed_opaque-at :
    (done value rest : List ℕ)
    → Fits (done ++ (value ++ (replicate (padding (length value)) 0 ++ rest)))
    → Read.fixed_opaque
        (length value)
        (at done (value ++ (replicate (padding (length value)) 0 ++ rest)))
      ≡ ok (value, at ((done ++ value) ++ replicate (padding (length value)) 0) rest)
unfolding Read.fixed_opaque
fixed_opaque-at done value rest fits =
    let zeros : List ℕ = replicate (padding (length value)) 0 in
    let assoc = append_assoc done value (zeros ++ rest) in
    let fits' : Fits ((done ++ value) ++ (zeros ++ rest)) = rw assoc fits in
    let skipped : Read.take_bytes (padding (length value)) (at (done ++ value) (zeros ++ rest))
        ≡ ok (zeros, at ((done ++ value) ++ zeros) rest) =
      rw (length-replicate {A = ℕ} (padding (length value)) 0) at
        (take_bytes-at (done ++ value) zeros rest fits') in
    rw (take_bytes-at done value (zeros ++ rest) fits, skipped) refl

abbrev zeros : List ℕ → List ℕ
zeros value = replicate (padding (length value)) 0

-- The bytes after an opaque value was written, and the same bytes with what follows.
abbrev pub written : List ℕ → List ℕ → List ℕ
written done value = ((done ++ to_be_bytes (length value)) ++ value) ++ zeros value

written-flat :
    (done value rest : List ℕ)
    → written done value ++ rest
      ≡ done ++ (to_be_bytes (length value) ++ (value ++ (zeros value ++ rest)))
written-flat done value rest =
    append_assoc ((done ++ to_be_bytes (length value)) ++ value) (zeros value) rest
    ∙ (append_assoc (done ++ to_be_bytes (length value)) value (zeros value ++ rest)
        ∙ append_assoc done (to_be_bytes (length value)) (value ++ (zeros value ++ rest)))

opaque-at :
    (done value rest : List ℕ)
    → length value ≤ max_value_length
    → Fits (done ++ (to_be_bytes (length value) ++ (value ++ (zeros value ++ rest))))
    → Read.opaque (at done (to_be_bytes (length value) ++ (value ++ (zeros value ++ rest))))
      ≡ ok (value, at (written done value) rest)
unfolding Read.opaque
opaque-at done value rest short fits =
    let header = u32-at done (length value) (value ++ (zeros value ++ rest)) (omega arith) fits in
    let small : ltb max_value_length (length value) ≡ false = ground (arith, short) in
    let fits' : Fits ((done ++ to_be_bytes (length value)) ++ (value ++ (zeros value ++ rest))) =
      rw (append_assoc done (to_be_bytes (length value)) (value ++ (zeros value ++ rest))) fits in
    rw (header, small) (fixed_opaque-at (done ++ to_be_bytes (length value)) value rest fits')

opaque-written :
    (done value rest : List ℕ)
    → length value ≤ max_value_length
    → Fits (written done value ++ rest)
    → Read.opaque (record { bytes = written done value ++ rest; offset = length done })
      ≡ ok (value, at (written done value) rest)
opaque-written done value rest short fits =
    let flat = written-flat done value rest in
    subst
      (λ bytes.
        Read.opaque (record { bytes = bytes; offset = length done })
        ≡ ok (value, at (written done value) rest))
      (sym flat) (opaque-at done value rest short (subst Fits flat fits))

-- Decoding undoes encoding.
pub record IsUtf8 (t : Utf8) : Type 0 where
  pub decode-encode : (text : t.Text) → t.from_utf8 (t.as_bytes text) ≡ some text

-- A text that the writer wrote is read back, from where it starts to where it ends, whatever follows it; for
-- a text of at most 16 MiB, in a buffer that the machine can address, if decoding UTF-8 undoes encoding.
pub string_round_trip :
    (t : Utf8)
    → IsUtf8 t
    → (text : t.Text) (w w' : Writer) (rest : List ℕ) → length (t.as_bytes text) ≤ max_value_length
    → Write.string t text w ≡ ok w'
    → Fits (w'.bytes ++ rest)
    → Read.string t (record { bytes = w'.bytes ++ rest; offset = length w.bytes })
      ≡ ok (text, record { bytes = w'.bytes ++ rest; offset = length w'.bytes })
unfolding Write.string Write.u32 Write.fixed_opaque Read.string
string_round_trip t law text w w' rest short h fits =
    let value : List ℕ = t.as_bytes text in
    let room : ltb (length value) (2 ^ 32) ≡ true = ground (arith, short) in
    let bytes : w'.bytes ≡ written w.bytes value = ground (arith, h, room) in
    let read = opaque-written w.bytes value rest short (subst (λ b. Fits (b ++ rest)) bytes fits) in
    rw bytes (rw (read, law.decode-encode text) refl)

string-written :
    (t : Utf8) (text : t.Text) (w w' : Writer)
    → Write.string t text w ≡ ok w'
    → w'.bytes ≡ written w.bytes (t.as_bytes text)
unfolding Write.string Write.u32 Write.fixed_opaque
string-written t text w w' h = elim (Bool-cases (ltb (length (t.as_bytes text)) (2 ^ 32))) [
  | inl room ↦ ground (arith, h, room)
  | inr long ↦ absurd (ground (arith, h, long))
]

-- An optional text that the writer wrote is read back, from where it starts to where it ends, whatever follows
-- it; under the conditions for a text.
pub optional_string_round_trip :
    (t : Utf8)
    → IsUtf8 t
    → (text : Option t.Text) (w w' : Writer) (rest : List ℕ)
    → ((some_text : t.Text)
        → text ≡ some some_text
        → length (t.as_bytes some_text) ≤ max_value_length)
    → Write.optional_string t text w ≡ ok w'
    → Fits (w'.bytes ++ rest)
    → Read.optional_string t (record { bytes = w'.bytes ++ rest; offset = length w.bytes })
      ≡ ok (text, record { bytes = w'.bytes ++ rest; offset = length w'.bytes })
unfolding Write.optional_string Write.u32 Read.optional_string
optional_string_round_trip t law none w w' rest short h fits =
    let bytes : w'.bytes ≡ w.bytes ++ to_be_bytes 0 = ground (arith, h) in
    let mark =
      u32_written w.bytes 0 rest (omega arith) (subst (λ b. Fits (b ++ rest)) bytes fits) in
    rw (bytes, mark) refl
optional_string_round_trip t law (some text) w w' rest short h fits =
    let marked : Writer = Write.u32 1 w in
    let value : List ℕ = t.as_bytes text in
    let bytes : w'.bytes ≡ written marked.bytes value = string-written t text marked w' h in
    let tail : List ℕ = to_be_bytes (length value) ++ (value ++ (zeros value ++ rest)) in
    let flat : w'.bytes ++ rest ≡ marked.bytes ++ tail =
      ap (λ b. b ++ rest) bytes ∙ written-flat marked.bytes value rest in
    let mark : Read.u32 (record { bytes = w'.bytes ++ rest; offset = length w.bytes })
        ≡ ok (1, record { bytes = w'.bytes ++ rest; offset = length marked.bytes }) =
      subst
        (λ b.
          Read.u32 (record { bytes = b; offset = length w.bytes })
          ≡ ok (1, record { bytes = b; offset = length marked.bytes }))
        (sym flat) (u32_written w.bytes 1 tail (omega arith) (subst Fits flat fits)) in
    let read = string_round_trip t law text marked w' rest (short text refl) h fits in
    rw (mark, read) refl

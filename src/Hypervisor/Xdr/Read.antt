-- ===== src/Hypervisor/Xdr/Read.antt =====
-- crates/hypervisor/src/xdr.rs: the operations of `Reader`. Each gives its value and the reader after it.
use bento.Shared.{
  ℕ, ◌+◌, ◌-◌, ◌/◌, ◌^◌, if◌then◌else◌, ltb, leb, nat_beq, List, Option, none, some, length, take,
  drop,
}
use bento.Shared.Result.{Result, ok, err, ◌>>=◌}
use bento.Hypervisor.Xdr.{
  ApiError, offset_overflow, not_utf8, truncated, value_too_long, array_too_long, trailing,
  discriminant, alignment, max_value_length, Utf8, from_be_bytes, padding, Reader,
}

unfoldable pub take_bytes : ℕ → Reader → Result ApiError (List ℕ × Reader)
take_bytes len r =
    if ltb (r.offset + len) (2 ^ 64)
    then (if leb (r.offset + len) (length r.bytes)
        then ok (take len (drop r.offset r.bytes), record r { offset = r.offset + len })
        else err (truncated r.offset len (length r.bytes - r.offset)))
    else err offset_overflow

unfoldable pub u32 : Reader → Result ApiError (ℕ × Reader)
u32 r = take_bytes 4 r >>= λ (bytes, r'). ok (from_be_bytes bytes, r')

unfoldable pub u64 : Reader → Result ApiError (ℕ × Reader)
u64 r = take_bytes 8 r >>= λ (bytes, r'). ok (from_be_bytes bytes, r')

unfoldable pub fixed_opaque : ℕ → Reader → Result ApiError (List ℕ × Reader)
fixed_opaque n r =
    take_bytes n r >>= λ (value, r'). take_bytes (padding n) r' >>= λ (_, r''). ok (value, r'')

unfoldable pub opaque : Reader → Result ApiError (List ℕ × Reader)
opaque r = u32 r >>= λ (len, r').
    if ltb max_value_length len then err (value_too_long len) else fixed_opaque len r'

unfoldable pub string : (t : Utf8) → Reader → Result ApiError (t.Text × Reader)
string t r = opaque r >>= λ (bytes, r'). elim (t.from_utf8 bytes) [
  | none ↦ err not_utf8
  | some text ↦ ok (text, r')
]

unfoldable pub optional_string : (t : Utf8) → Reader → Result ApiError (Option t.Text × Reader)
optional_string t r = u32 r >>= λ (value, r').
    if nat_beq value 0
    then ok (none, r')
    else if nat_beq value 1
    then (string t r' >>= λ (text, r''). ok (some text, r''))
    else err (discriminant value)

unfoldable pub array_len : Reader → Result ApiError (ℕ × Reader)
array_len r = u32 r >>= λ (len, r').
    if ltb (max_value_length / alignment) len then err (array_too_long len) else ok (len, r')

unfoldable pub finish : Reader → Result ApiError (Unit {0})
finish r =
    if nat_beq r.offset (length r.bytes) then ok tt else err (trailing (length r.bytes - r.offset))

-- ===== src/Hypervisor/Xdr/Write.antt =====
-- crates/hypervisor/src/xdr.rs: the operations of `Writer`. The writer is the one before, with more bytes.
use bento.Shared.{ℕ, ◌^◌, if◌then◌else◌, ltb, List, ◌++◌, Option, none, some, length, replicate}
use bento.Shared.Result.{Result, ok, err}
use bento.Hypervisor.Xdr.{ApiError, string_too_large, Utf8, to_be_bytes, padding, Writer}

unfoldable pub u32 : ℕ → Writer → Writer
u32 value w = record w { bytes = w.bytes ++ to_be_bytes value }

unfoldable pub fixed_opaque : List ℕ → Writer → Writer
fixed_opaque value w = record w {
  bytes = (w.bytes ++ value) ++ replicate (padding (length value)) 0;
}

unfoldable pub string : (t : Utf8) → t.Text → Writer → Result ApiError Writer
string t value w =
    let len = length (t.as_bytes value) in
    if ltb len (2 ^ 32)
    then ok (fixed_opaque (t.as_bytes value) (u32 len w))
    else err string_too_large

unfoldable pub optional_string : (t : Utf8) → Option t.Text → Writer → Result ApiError Writer
optional_string t none w = ok (u32 0 w)
optional_string t (some value) w = string t value (u32 1 w)

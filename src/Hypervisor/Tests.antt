-- ===== src/Hypervisor/Tests.antt =====
-- The round trips at a short text, encoded as itself.
use bento.Shared.{ℕ, ◌≡◌, ◌≤◌, refl, arith, List, [], ◌∷◌, ◌++◌, some, length}
use bento.Shared.Result.{ok}
use bento.Hypervisor.Xdr.{Utf8, Writer, to_be_bytes, padding}
use bento.Hypervisor.Xdr.Write
use bento.Hypervisor.Xdr.Read
use bento.Hypervisor.Xdr.RoundTrip.{IsUtf8, optional_string_round_trip}

abbrev plain : Utf8
plain = record { Text = List ℕ; as_bytes = λ text. text; from_utf8 = λ bytes. some bytes }

plain-IsUtf8 : IsUtf8 plain
plain-IsUtf8 = record { decode-encode = λ text. refl }

abbrev hi : List ℕ
hi = 104 ∷ 105 ∷ []

abbrev start : Writer
start = record { bytes = 7 ∷ [] }

abbrev with_hi : Writer
with_hi = record { bytes = 7 ∷ 0 ∷ 0 ∷ 0 ∷ 2 ∷ 104 ∷ 105 ∷ 0 ∷ 0 ∷ [] }

abbrev with_some_hi : Writer
with_some_hi = record { bytes = 7 ∷ 0 ∷ 0 ∷ 0 ∷ 1 ∷ 0 ∷ 0 ∷ 0 ∷ 2 ∷ 104 ∷ 105 ∷ 0 ∷ 0 ∷ [] }

hi-short : (text : List ℕ) → some hi ≡ some text → length text ≤ 16777216
hi-short text e = ground (arith, e)

optional_string_round_trip_example :
    Read.optional_string plain (record { bytes = with_some_hi.bytes ++ (9 ∷ []); offset = 1 })
    ≡ ok (some hi, record { bytes = with_some_hi.bytes ++ (9 ∷ []); offset = 13 })
unfolding Write.optional_string Write.string Write.u32 Write.fixed_opaque to_be_bytes padding
optional_string_round_trip_example =
    optional_string_round_trip plain plain-IsUtf8 (some hi) start with_some_hi (9 ∷ []) hi-short
      refl (omega arith)

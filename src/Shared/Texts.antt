-- ===== src/Shared/Texts.antt =====
-- What the program takes from the standard library for texts: ASCII case, trimming, suffixes, and the test
-- that a text is a u16. A text is the list of its code points.
use Prim.Native.Nat.{ℕ, ◌+◌, ◌*◌, ◌-◌}
use mathlib.Core.Path.{◌≡◌, refl, ap}
use mathlib.Core.Logic.{◌↔◌}
use mathlib.Core.Bool.{Bool, true, false, ◌&&◌, ◌||◌}
use mathlib.Core.List.{List, [], ◌∷◌, ◌++◌, map}
use mathlib.Core.Option.{Option, none, some}
use native.Mathlib.Omega.{arith}
use bento.Shared.Tests.{if◌then◌else◌, leb, nat_beq}
use bento.Shared.Equality.{Eq}
use bento.Shared.Lists.{length, length-append}

abbrev pub Text : Type 0
Text = List ℕ

abbrev pub text_beq : Text → Text → Bool
text_beq [] [] = true
text_beq (c ∷ cs) (d ∷ ds) = nat_beq c d && text_beq cs ds
text_beq _ _ = false

pub text_beq_iff : (s t : Text) → (text_beq s t ≡ true) ↔ (s ≡ t)
text_beq_iff [] [] = ground arith
text_beq_iff (c ∷ cs) (d ∷ ds) = ground (arith, text_beq_iff cs ds)
text_beq_iff [] (d ∷ ds) = ground arith
text_beq_iff (c ∷ cs) [] = ground arith

instance abbrev pub text_eq : Eq Text
text_eq = record { same = text_beq; same_iff = text_beq_iff }

unfoldable pub lower : ℕ → ℕ
lower c = if leb b'A' c && leb c b'Z' then c + 32 else c

-- `to_ascii_lowercase`
unfoldable pub to_lower : Text → Text
to_lower = map lower

-- `trim_end_matches(c)`
unfoldable pub trim_end : ℕ → Text → Text
trim_end c [] = []
trim_end c (d ∷ ds) = elim (trim_end c ds) [
  | [] ↦ if nat_beq d c then [] else d ∷ []
  | e ∷ es ↦ d ∷ e ∷ es
]

-- `trim`, of a text whose blanks are ASCII.
unfoldable pub is_blank : ℕ → Bool
is_blank c = nat_beq c 32 || (leb 9 c && leb c 13)

unfoldable pub trim_start : Text → Text
trim_start [] = []
trim_start (c ∷ cs) = if is_blank c then trim_start cs else c ∷ cs

unfoldable pub trim_blanks : Text → Text
trim_blanks [] = []
trim_blanks (c ∷ cs) = elim (trim_blanks cs) [
  | [] ↦ if is_blank c then [] else c ∷ []
  | d ∷ ds ↦ c ∷ d ∷ ds
]

unfoldable pub trim : Text → Text
trim t = trim_blanks (trim_start t)

-- `strip_suffix`
unfoldable pub strip_suffix : Text → Text → Option Text
strip_suffix suffix [] = if text_beq [] suffix then some [] else none
strip_suffix suffix (c ∷ cs) =
    if text_beq (c ∷ cs) suffix
    then some []
    else elim (strip_suffix suffix cs) [ none ↦ none | some front ↦ some (c ∷ front) ]

-- What is left in front of a suffix makes up the text with it.
pub strip_suffix_iff :
    (suffix t front : Text) → (strip_suffix suffix t ≡ some front) ↔ (t ≡ front ++ suffix)
unfolding strip_suffix
strip_suffix_iff suffix t front = (found suffix t front, stripped suffix front t)
  where
    found : (s t p : Text) → strip_suffix s t ≡ some p → t ≡ p ++ s
    found s [] p h = ground (arith, h, text_beq_iff [] s)
    found s (c ∷ cs) [] h = ground (arith, h, text_beq_iff (c ∷ cs) s)
    found s (c ∷ cs) (d ∷ p) h = ground (arith, h, found s cs p)

    empty : (s : Text) → strip_suffix s s ≡ some []
    empty [] = refl
    empty (c ∷ cs) = ground (arith, text_beq_iff (c ∷ cs) (c ∷ cs))

    longer : (s p : Text) (c : ℕ) (cs : Text) → cs ≡ p ++ s → (c ∷ cs) ≡ s → ⊥
    longer s p c cs e h = omega (arith, ap length e, ap length h, length-append {0} p s)

    stripped : (s p t : Text) → t ≡ p ++ s → strip_suffix s t ≡ some p
    stripped s [] t e = rw e (empty s)
    stripped s (d ∷ p) [] e = cc
    stripped s (d ∷ p) (c ∷ cs) e =
        ground (arith, e, text_beq_iff (c ∷ cs) s, stripped s p cs, longer s p c cs)

-- `parse::<u16>().is_ok()`
unfoldable pub digits_fit : (value : ℕ) → Text → Bool
digits_fit value [] = true
digits_fit value (c ∷ cs) =
    let next = value * 10 + (c - b'0') in
    (leb b'0' c && leb c b'9') && (leb next 65535 && digits_fit next cs)

unfoldable pub is_u16 : Text → Bool
is_u16 [] = false
is_u16 (c ∷ []) = digits_fit 0 (c ∷ [])
is_u16 (c ∷ d ∷ cs) = if nat_beq c b'+' then digits_fit 0 (d ∷ cs) else digits_fit 0 (c ∷ d ∷ cs)

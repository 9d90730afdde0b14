-- ===== src/Shared/Parse.antt =====
-- What the program takes from the standard library to read numbers out of a text: `rsplit`,
-- `parse::<u8>` and `parse::<Ipv4Addr>`, on the code points of the text.
use Prim.Native.Nat.{ℕ, ◌%◌, ◌+◌, ◌-◌, ◌*◌, ◌≤◌}
use Prim.Native.Char.{code}
use Prim.Native.String.{String}
use mathlib.Core.Path.{◌≡◌, refl}
use mathlib.Core.Logic.{inl, inr}
use mathlib.Core.Bool.{Bool, true, false, ◌&&◌}
use mathlib.Core.List.{List, [], ◌∷◌}
use mathlib.Core.Option.{Option, none, some}
use native.Mathlib.Omega.{arith}
use bento.Shared.Tests.{leb, nat_beq, if◌then◌else◌, Bool-cases, Option-cases}
use bento.Shared.Equality.{contains, nat_eq}

-- The characters of a text.
abbrev pub chars : String → List ℕ
chars String.[] = []
chars (String.◌∷◌ first rest) = code first ∷ chars rest

-- `rsplit(separator).next()`: what follows the last separator.
unfoldable pub last_part : ℕ → List ℕ → List ℕ
last_part separator [] = []
last_part separator (c ∷ cs) =
    let rest = last_part separator cs in
    if contains cs separator then rest else if nat_beq c separator then cs else c ∷ cs

unfoldable pub is_digit : ℕ → Bool
is_digit c = leb b'0' c && leb c b'9'

-- The digits that are left, after those that make up the value.
unfoldable pub parse_digits : ℕ → List ℕ → Option ℕ
parse_digits value [] = some value
parse_digits value (c ∷ cs) =
    let next = value * 10 + (c - b'0') in
    let rest = parse_digits next cs in if is_digit c && leb next 255 then rest else none

unfoldable pub parse_u8 : List ℕ → Option ℕ
parse_u8 [] = none
parse_u8 (c ∷ []) = parse_digits 0 (c ∷ [])
parse_u8 (c ∷ d ∷ cs) =
    if nat_beq c b'+' then parse_digits 0 (d ∷ cs) else parse_digits 0 (c ∷ d ∷ cs)

parse_digits-bound :
    (value : ℕ) (cs : List ℕ) {n : ℕ} → value ≤ 255 → parse_digits value cs ≡ some n → n ≤ 255
unfolding parse_digits is_digit
parse_digits-bound value [] small h = ground (arith, h, small)
parse_digits-bound value (c ∷ cs) small h =
    let next = value * 10 + (c - b'0') in
    elim (Bool-cases (is_digit c && leb next 255)) [
      | inl fits ↦ parse_digits-bound next cs (ground (arith, fits)) (rw fits at h)
      | inr stops ↦ absurd (none-ne-some (rw stops at h))
    ]
  where
    none-ne-some : {k : ℕ} → none ≡ some k → ⊥
    none-ne-some e = cc

pub parse_u8-bound : (cs : List ℕ) {n : ℕ} → parse_u8 cs ≡ some n → n ≤ 255
unfolding parse_u8
parse_u8-bound [] h = cc
parse_u8-bound (c ∷ []) h = parse_digits-bound 0 (c ∷ []) (omega arith) h
parse_u8-bound (c ∷ d ∷ cs) h = elim (Bool-cases (nat_beq c b'+')) [
  | inl plus ↦ parse_digits-bound 0 (d ∷ cs) (omega arith) (rw plus at h)
  | inr digit ↦ parse_digits-bound 0 (c ∷ d ∷ cs) (omega arith) (rw digit at h)
]

-- The parts of a text between its separators.
unfoldable pub split : ℕ → List ℕ → List (List ℕ)
split separator [] = [] ∷ []
split separator (c ∷ cs) =
    let rest = split separator cs in
    if nat_beq c separator
    then [] ∷ rest
    else (elim rest [ [] ↦ (c ∷ []) ∷ [] | part ∷ parts ↦ (c ∷ part) ∷ parts ])

-- A part of an address: no sign, and no zero in front of other digits.
unfoldable pub parse_octet : List ℕ → Option ℕ
parse_octet [] = none
parse_octet (c ∷ []) = parse_digits 0 (c ∷ [])
parse_octet (c ∷ d ∷ cs) = if nat_beq c b'0' then none else parse_digits 0 (c ∷ d ∷ cs)

unfoldable pub join_octets : Option ℕ → Option ℕ → Option ℕ → Option ℕ → Option ℕ
join_octets (some a) (some b) (some c) (some d) = some (((a * 256 + b) * 256 + c) * 256 + d)
join_octets _ _ _ _ = none

unfoldable pub parse_parts : List (List ℕ) → Option ℕ
parse_parts (a ∷ b ∷ c ∷ d ∷ []) =
    join_octets (parse_octet a) (parse_octet b) (parse_octet c) (parse_octet d)
parse_parts _ = none

-- `parse::<Ipv4Addr>`
unfoldable pub parse_ipv4 : List ℕ → Option ℕ
parse_ipv4 text = parse_parts (split b'.' text)

last_of : List (List ℕ) → List ℕ
last_of [] = []
last_of (part ∷ []) = part
last_of (part ∷ next ∷ parts) = last_of (next ∷ parts)

module _ (separator : ℕ) where
  split-lacks : (cs : List ℕ) → contains cs separator ≡ false → split separator cs ≡ cs ∷ []
  unfolding split
  split-lacks [] h = refl
  split-lacks (c ∷ cs) h = ground (arith, h, split-lacks cs)

  split-has :
      (cs : List ℕ)
      → contains cs separator ≡ true
      → (part : List ℕ) × (next : List ℕ) × (parts : List (List ℕ)) × (split separator cs
          ≡ part ∷ next ∷ parts)
  unfolding split
  split-has [] h = cc
  split-has (c ∷ cs) h = elim (Bool-cases (contains cs separator)) [
    | inl later ↦
        let (part, next, parts, e) = split-has cs later in
        elim (Bool-cases (nat_beq c separator)) [
          | inl here ↦ ([], part, next ∷ parts, ground (arith, here, e))
          | inr other ↦ (c ∷ part, next, parts, ground (arith, other, e))
        ]
    | inr lacks ↦ ([], cs, [], ground (arith, h, lacks, split-lacks cs lacks))
  ]

  last_part-split : (cs : List ℕ) → last_part separator cs ≡ last_of (split separator cs)
  unfolding last_part split last_of
  last_part-split [] = refl
  last_part-split (c ∷ cs) = elim (Bool-cases (contains cs separator)) [
    | inl later ↦
        let (part, next, parts, e) = split-has cs later in
        ground (arith, later, e, last_part-split cs)
    | inr lacks ↦ ground (arith, lacks, split-lacks cs lacks)
  ]

parse_octet-parse_u8 : (cs : List ℕ) {n : ℕ} → parse_octet cs ≡ some n → parse_u8 cs ≡ some n
unfolding parse_octet parse_u8 parse_digits is_digit
parse_octet-parse_u8 [] h = cc
parse_octet-parse_u8 (c ∷ []) h = h
parse_octet-parse_u8 (c ∷ d ∷ cs) h = ground (arith, h)

last_octet :
    (parts : List (List ℕ)) {a : ℕ}
    → parse_parts parts ≡ some a
    → parse_u8 (last_of parts) ≡ some (a % 256)
unfolding parse_parts join_octets last_of
last_octet (p ∷ q ∷ r ∷ t ∷ []) h = elim (Option-cases (parse_octet t)) [
  | inl fails ↦ absurd (ground (arith, h, fails))
  | inr (n, last) ↦
      let small = parse_u8-bound t {n = n} (parse_octet-parse_u8 t {n = n} last) in
      ground (arith, h, last, small, parse_octet-parse_u8 t {n = n} last)
]
last_octet [] h = cc
last_octet (p ∷ []) h = cc
last_octet (p ∷ q ∷ []) h = cc
last_octet (p ∷ q ∷ r ∷ []) h = cc
last_octet (p ∷ q ∷ r ∷ t ∷ u ∷ parts) h = cc

-- The last part of an address reads as its last octet.
pub parse_u8-last_part :
    (cs : List ℕ) {a : ℕ} → parse_ipv4 cs ≡ some a → parse_u8 (last_part b'.' cs) ≡ some (a % 256)
unfolding parse_ipv4
parse_u8-last_part cs h = rw (last_part-split b'.' cs) (last_octet (split b'.' cs) h)

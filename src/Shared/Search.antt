-- ===== src/Shared/Search.antt =====
-- `for i in start..start + rounds { if !taken(i) { return i } }`: the search that both allocators run.
use Prim.Native.Nat.{ℕ, zero, suc, ◌+◌, ◌≤◌, ◌<◌}
use mathlib.Core.Path.{◌≡◌, subst}
use mathlib.Core.Logic.{inl, inr}
use mathlib.Core.Bool.{Bool, true, false}
use mathlib.Core.Option.{Option, none, some}
use native.Mathlib.Omega.{arith}
use native.Mathlib.Decide.{dec_lt}
use bento.Shared.Tests.{if◌then◌else◌, Bool-cases}

unfoldable pub first_free : ℕ → ℕ → (ℕ → Bool) → Option ℕ
first_free zero start taken = none
first_free (suc rounds) start taken =
    let rest = first_free rounds (start + 1) taken in if taken start then rest else some start

-- The search returns the lowest free number of its range.
pub record IsLowestFree (start end : ℕ) (taken : ℕ → Bool) (i : ℕ) : Type 0 where
  pub from_start : start ≤ i
  pub below_end : i < end
  pub free : taken i ≡ false
  pub lower_taken : (j : ℕ) → start ≤ j → j < i → taken j ≡ true

pub first_free-some :
    (rounds start : ℕ) (taken : ℕ → Bool) {i : ℕ}
    → first_free rounds start taken ≡ some i
    → IsLowestFree start (start + rounds) taken i
unfolding first_free
first_free-some zero start taken h = cc
first_free-some (suc rounds) start taken {i} h = elim (Bool-cases (taken start)) [
  | inl busy ↦
      let ih = first_free-some rounds (start + 1) taken (rw busy at h) in
      record {
        from_start = omega (arith, ih.from_start);
        below_end = omega (arith, ih.below_end);
        free = ih.free;
        lower_taken = λ j from below. lower start j from busy (ih.lower_taken j) below;
      }
  | inr free ↦
      let here : start ≡ i = ground arith in
      record {
        from_start = omega arith;
        below_end = omega arith;
        free = subst (λ j. taken j ≡ false) here free;
        lower_taken = λ j from below. absurd (omega arith);
      }
]
  where
    lower :
        (s j : ℕ)
        → s ≤ j
        → taken s ≡ true
        → {i : ℕ} → (s + 1 ≤ j → j < i → taken j ≡ true)
        → j < i
        → taken j ≡ true
    lower s j from busy later below = elim (dec_lt s j) [
      | yes past ↦ later (omega arith) below
      | no here ↦ let e : s ≡ j = omega arith in subst (λ k. taken k ≡ true) e busy
    ]

-- An empty answer means that every number of the range is taken.
pub first_free-none :
    (rounds start : ℕ) (taken : ℕ → Bool)
    → first_free rounds start taken ≡ none
    → (j : ℕ) → start ≤ j
    → j < start + rounds
    → taken j ≡ true
unfolding first_free
first_free-none zero start taken h j from below = absurd (omega arith)
first_free-none (suc rounds) start taken h j from below = elim (Bool-cases (taken start)) [
  | inl busy ↦ elim (dec_lt start j) [
    | yes past ↦
        first_free-none rounds (start + 1) taken (rw busy at h) j (omega arith) (omega arith)
    | no here ↦ let e : start ≡ j = omega arith in subst (λ k. taken k ≡ true) e busy
  ]
  | inr free ↦ absurd (none-ne-some (rw free at h))
]
  where
    none-ne-some : {k : ℕ} → some k ≡ none → ⊥
    none-ne-some e = cc

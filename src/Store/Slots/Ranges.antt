-- ===== src/Store/Slots/Ranges.antt =====
-- The numbers of a slot under two runner prefixes (crates/store/src/runners.rs).
use bento.Shared.{
  ℕ, zero, suc, ◌+◌, ◌*◌, ◌-◌, ◌^◌, ◌/◌, ◌≤◌, ◌<◌, ◌≡◌, arith, ltb, ◌⊎◌, inl, inr, subst, [], ◌∷◌,
  All, Bool-cases,
}
use bento.Store.Slots.{octet_shift, run_from, children}

-- What the schema's CHECK admits.
abbrev pub IsRunnerPrefix : ℕ → Type 0
IsRunnerPrefix prefix = (24 ≤ prefix) × (prefix ≤ 27)

abbrev pub Cases : ℕ → Type 0
Cases p = (p ≡ 24) ⊎ ((p ≡ 25) ⊎ ((p ≡ 26) ⊎ (p ≡ 27)))

pub prefix-Cases : (p : ℕ) → IsRunnerPrefix p → Cases p
prefix-Cases p h = omega arith

-- The parts of the slots that hold an octet, split and merged.
subdivided :
    (old new octet : ℕ)
    → Cases old
    → Cases new
    → old < new
    → (octet / 2 ^ octet_shift old * 2 ^ (new - old) ≤ octet / 2 ^ octet_shift new)
      × (octet / 2 ^ octet_shift new
          < octet / 2 ^ octet_shift old * 2 ^ (new - old) + 2 ^ (new - old))
unfolding octet_shift
subdivided old new octet cs ds h = ground arith

merged :
    (old new octet : ℕ)
    → Cases old
    → Cases new
    → new ≤ old
    → octet / 2 ^ octet_shift old / 2 ^ (old - new) ≡ octet / 2 ^ octet_shift new
unfolding octet_shift
merged old new octet cs ds h = ground arith

pub All-run_from {κ} :
    (P : ℕ → Type κ) (first count n : ℕ)
    → All P (run_from first count)
    → first ≤ n
    → n < first + count
    → P n
unfolding run_from
All-run_from P first zero n all from below = absurd (omega arith)
All-run_from P first (suc count) n (here, rest) from below = elim (cases first n from) [
  | inl e ↦ subst P e here
  | inr after ↦ All-run_from P (first + 1) count n rest after (omega arith)
]
  where
    cases : (a b : ℕ) → a ≤ b → (a ≡ b) ⊎ (a + 1 ≤ b)
    cases a b h = omega arith

-- What holds of all the children of an octet's slot holds of the octet's new slot.
pub All-children {κ} :
    (P : ℕ → Type κ) (old new octet : ℕ)
    → IsRunnerPrefix old
    → IsRunnerPrefix new
    → All P (children old new (octet / 2 ^ octet_shift old))
    → P (octet / 2 ^ octet_shift new)
unfolding children
All-children P old new octet h k all = elim (Bool-cases (ltb old new)) [
  | inl wider ↦
      let (low, high) =
        subdivided old new octet (prefix-Cases old h) (prefix-Cases new k)
          (ground (arith, wider)) in
      All-run_from P (octet / 2 ^ octet_shift old * 2 ^ (new - old)) (2 ^ (new - old))
        (octet / 2 ^ octet_shift new) (rw wider at all) low high
  | inr narrower ↦
      let same =
        merged old new octet (prefix-Cases old h) (prefix-Cases new k) (ground (arith, narrower)) in
      let only : All P (octet / 2 ^ octet_shift old / 2 ^ (old - new) ∷ []) = rw narrower at all in
      subst P same only.0
]

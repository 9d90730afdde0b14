-- ===== src/Store/Hosts/Placing/Order.antt =====
-- The order of the candidates (crates/store/src/runners.rs).
use Prim.Native.Nat.{Ordering}
use bento.Shared.{
  ◌≡◌, ◌≢◌, arith, true, false, Option, none, some, string_eq, inl, inr, ◌⊎◌, ◌↔◌, Bool-cases,
}
use bento.Shared.Int.{int_eq, ltb_ℤ}
use bento.Store.Hosts.Placing.{Float, Candidate, below, better}

-- Of two comparisons in a row, neither of them upwards.
abbrev joined : Ordering → Ordering → Ordering
joined Ordering.eq next = next
joined first next = first

-- What `PartialOrd` promises of `partial_cmp`: nothing is below itself, and the comparisons compose.
pub record IsOrder {F : Type 0} (float : Float F) : Type 0 where
  pub irrefl : (a : F) → float.partial_cmp a a ≢ some Ordering.lt
  pub trans :
      (a b c : F) (o p : Ordering)
      → o ≢ Ordering.gt
      → p ≢ Ordering.gt
      → float.partial_cmp a b ≡ some o
      → float.partial_cmp b c ≡ some p
      → float.partial_cmp a c ≡ some (joined o p)

module _ {F : Type 0} (float : Float F) where
  -- The best so far is not above the candidate.
  abbrev pub Beats : Option (Candidate float) → Candidate float → Type 0
  Beats none c = ⊥
  Beats (some b) c = below float c b ≡ false

  -- One triple is below another at the first component where they differ.
  abbrev pub Lower : Candidate float → Candidate float → Type 0
  Lower (w, h) (v, g) =
      (float.partial_cmp w.memory_ratio v.memory_ratio ≡ some Ordering.lt)
      ⊎ ((float.partial_cmp w.memory_ratio v.memory_ratio ≡ some Ordering.eq)
          × ((float.partial_cmp w.vcpu_ratio v.vcpu_ratio ≡ some Ordering.lt)
              ⊎ ((float.partial_cmp w.vcpu_ratio v.vcpu_ratio ≡ some Ordering.eq)
                  × (ltb_ℤ h.id g.id ≡ true))))

  pub below-Lower : (c d : Candidate float) → (below float c d ≡ true) ↔ Lower c d
  unfolding below
  below-Lower (w, h) (v, g) = ground arith

module _ {F : Type 0} (float : Float F) (order : IsOrder float) where
  below_irrefl : (c : Candidate float) → below float c c ≡ false
  unfolding below
  below_irrefl (w, h) = ground (arith, order.irrefl w.memory_ratio, order.irrefl w.vcpu_ratio)

  same_side :
      (a b c : F) (p : Ordering)
      → p ≢ Ordering.gt
      → float.partial_cmp a b ≡ some Ordering.eq
      → float.partial_cmp b c ≡ some p
      → float.partial_cmp a c ≡ some p
  same_side a b c p up e f = order.trans a b c Ordering.eq p (λ n. cc) up e f

  from_below :
      (a b c : F) (p : Ordering)
      → p ≢ Ordering.gt
      → float.partial_cmp a b ≡ some Ordering.lt
      → float.partial_cmp b c ≡ some p
      → float.partial_cmp a c ≡ some Ordering.lt
  from_below a b c p up e f = order.trans a b c Ordering.lt p (λ n. cc) up e f

  Lower-trans : (b c d : Candidate float) → Lower float b c → Lower float c d → Lower float b d
  Lower-trans (w, f) (v, g) (u, h) (inl e) (inl k) =
      inl (from_below w.memory_ratio v.memory_ratio u.memory_ratio Ordering.lt (λ n. cc) e k)
  Lower-trans (w, f) (v, g) (u, h) (inl e) (inr (k, _)) =
      inl (from_below w.memory_ratio v.memory_ratio u.memory_ratio Ordering.eq (λ n. cc) e k)
  Lower-trans (w, f) (v, g) (u, h) (inr (e, _)) (inl k) =
      inl (same_side w.memory_ratio v.memory_ratio u.memory_ratio Ordering.lt (λ n. cc) e k)
  Lower-trans (w, f) (v, g) (u, h) (inr (e, first)) (inr (k, second)) = inr (
    same_side w.memory_ratio v.memory_ratio u.memory_ratio Ordering.eq (λ n. cc) e k,
    elim first [
      | inl a ↦ elim second [
        | inl b ↦ inl (from_below w.vcpu_ratio v.vcpu_ratio u.vcpu_ratio Ordering.lt (λ n. cc) a b)
        | inr (b, _) ↦
            inl (from_below w.vcpu_ratio v.vcpu_ratio u.vcpu_ratio Ordering.eq (λ n. cc) a b)
      ]
      | inr (a, i) ↦ elim second [
        | inl b ↦ inl (same_side w.vcpu_ratio v.vcpu_ratio u.vcpu_ratio Ordering.lt (λ n. cc) a b)
        | inr (b, j) ↦ inr (
          same_side w.vcpu_ratio v.vcpu_ratio u.vcpu_ratio Ordering.eq (λ n. cc) a b,
          ground (arith, i, j),
        )
      ]
    ],
  )

  below_trans :
      (b c d : Candidate float)
      → below float b c ≡ true
      → below float c d ≡ true
      → below float b d ≡ true
  below_trans b c d first second =
      (below-Lower float b d).1
        (Lower-trans b c d ((below-Lower float b c).0 first) ((below-Lower float c d).0 second))

  pub better-Beats :
      (d : Candidate float) (best : Option (Candidate float)) → Beats float (better float d best) d
  unfolding better
  better-Beats d none = below_irrefl d
  better-Beats d (some b) = elim (Bool-cases (below float d b)) [
    | inl lower ↦ rw lower (below_irrefl d)
    | inr upper ↦ rw upper upper
  ]

  pub Beats-better :
      (c d : Candidate float) (best : Option (Candidate float))
      → Beats float best c
      → Beats float (better float d best) c
  unfolding better
  Beats-better c d none beats = elim beats [ ]
  Beats-better c d (some b) beats = elim (Bool-cases (below float d b)) [
    | inl lower ↦ rw lower (elim (Bool-cases (below float c d)) [
      | inl under ↦ absurd (ground (arith, below_trans c d b under lower, beats))
      | inr not_under ↦ not_under
    ])
    | inr upper ↦ rw upper beats
  ]

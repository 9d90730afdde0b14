-- ===== src/Network/Routes/Repeat.antt =====
-- A second `converge`, and the failure of one (crates/network/src/routes.rs).
use bento.Shared.{
  ◌+◌, ◌≤◌, ◌≡◌, refl, ◌∙◌, true, inl, inr, List, [], ◌∷◌, ◌++◌, some, arith, ==_iff, contains,
  Bool-cases, Option-cases, length, All,
}
use bento.Network.Error.{Error, Result, apply, ok, err, ◌>>=◌, >>=-eq-ok}
use bento.Network.Routes.{
  Route, route_eq, Applier, IsRouteTable, Converged, unique, check_desired, remove_stale,
  add_missing, converge,
}
use bento.Network.Routes.Converge.{
  IsFunctional, AreManaged, contains-unique, start_report, converge-shows,
}

-- Every destination is a slot prefix.
abbrev pub AreSlotPrefixes : List Route → Type 0
AreSlotPrefixes = All (λ r. (24 ≤ r.destination.bits) × (r.destination.bits ≤ 27))

module _ (a : Applier) where
  remove_stale_none :
      (desired rs : List Route) (c : Converged) (k : a.Kernel)
      → ((x : Route) → contains rs x ≡ true → contains desired x ≡ true)
      → remove_stale a desired rs c k ≡ ok (c, k)
  unfolding remove_stale
  remove_stale_none desired [] c k within = refl
  remove_stale_none desired (r ∷ rs) c k within =
      rw (within r (ground (arith, ==_iff r r)))
        (remove_stale_none desired rs c k (λ x m. within x (ground (arith, m))))

  add_missing_none :
      (had rs : List Route) (c : Converged) (k : a.Kernel)
      → ((x : Route) → contains rs x ≡ true → contains had x ≡ true)
      → add_missing a had rs c k ≡ ok (record c { unchanged = c.unchanged + length rs }, k)
  unfolding add_missing
  add_missing_none had [] c k within = ground arith
  add_missing_none had (r ∷ rs) c k within =
      let next = record c { unchanged = c.unchanged + 1 } in
      rw (within r (ground (arith, ==_iff r r)))
        (add_missing_none had rs next k (λ x m. within x (ground (arith, m))) ∙ ground arith)

  converge_settled :
      (desired had : List Route) (k : a.Kernel)
      → check_desired desired ≡ ok tt
      → a.installed k ≡ some had
      → ((x : Route) → contains had x ≡ contains desired x)
      → converge a desired k
        ≡ ok (record { added = []; removed = []; unchanged = length (unique desired) }, k)
  unfolding converge
  converge_settled desired had k slots listed same =
      rw (slots, listed)
        (rw
          (remove_stale_none desired (unique had) start_report k
            (λ x m. ground (arith, m, same x, contains-unique had x)))
          (add_missing_none had (unique desired) start_report k
              (λ x m. ground (arith, m, same x, contains-unique desired x))
            ∙ ground arith))

  converge-check_desired :
      (desired : List Route) (c : Converged) (k k' : a.Kernel)
      → converge a desired k ≡ ok (c, k')
      → check_desired desired ≡ ok tt
  unfolding converge
  converge-check_desired desired c k k' e = (>>=-eq-ok (check_desired desired) _ e).1

  -- After a convergence that succeeds, a second one to the same routes that can list them adds and
  -- removes nothing and leaves the kernel as it is; under the conditions of the first.
  pub converge_again :
      (t : IsRouteTable a) (desired had : List Route) (c : Converged) (k k' : a.Kernel)
      → IsFunctional desired
      → AreManaged a t desired
      → converge a desired k ≡ ok (c, k')
      → a.installed k' ≡ some had
      → converge a desired k'
        ≡ ok (record { added = []; removed = []; unchanged = length (unique desired) }, k')
  converge_again t desired had c k k' one managed e listed =
      converge_settled desired had k' (converge-check_desired desired c k k' e) listed (λ x.
        rw (t.installed_shows k' had listed) (converge-shows a t desired c k k' one managed e x))

  remove_stale-err :
      (desired rs : List Route) (c : Converged) (k : a.Kernel) {e : Error}
      → remove_stale a desired rs c k ≡ err e
      → e ≡ apply
  unfolding remove_stale
  remove_stale-err desired [] c k h = cc
  remove_stale-err desired (r ∷ rs) c k h = elim (Bool-cases (contains desired r)) [
    | inl wanted ↦ remove_stale-err desired rs c k (rw wanted at h)
    | inr stale ↦ elim (Option-cases (a.remove r k)) [
      | inl fails ↦ ground (arith, stale, fails, h)
      | inr (k', gone) ↦
          remove_stale-err desired rs (record c { removed = c.removed ++ (r ∷ []) }) k'
            (rw (stale, gone) at h)
    ]
  ]

  add_missing-err :
      (had rs : List Route) (c : Converged) (k : a.Kernel) {e : Error}
      → add_missing a had rs c k ≡ err e
      → e ≡ apply
  unfolding add_missing
  add_missing-err had [] c k h = cc
  add_missing-err had (r ∷ rs) c k h = elim (Bool-cases (contains had r)) [
    | inl there ↦
        add_missing-err had rs (record c { unchanged = c.unchanged + 1 }) k (rw there at h)
    | inr missing ↦ elim (Option-cases (a.add r k)) [
      | inl fails ↦ ground (arith, missing, fails, h)
      | inr (k', put) ↦
          add_missing-err had rs (record c { added = c.added ++ (r ∷ []) }) k'
            (rw (missing, put) at h)
    ]
  ]

  check_desired-ok : (rs : List Route) → AreSlotPrefixes rs → check_desired rs ≡ ok tt
  unfolding check_desired
  check_desired-ok [] h = refl
  check_desired-ok (r ∷ rs) h = ground (arith, check_desired-ok rs h.1)

  -- A convergence to slot prefixes fails only where a call of the applier does.
  pub converge-err :
      (desired : List Route) (k : a.Kernel) {e : Error}
      → AreSlotPrefixes desired
      → converge a desired k ≡ err e
      → e ≡ apply
  unfolding converge
  converge-err desired k slots h = elim (Option-cases (a.installed k)) [
    | inl fails ↦ ground (arith, check_desired-ok desired slots, fails, h)
    | inr (had, listed) ↦
        by_cleaned had (remove_stale a desired (unique had) start_report k) refl
          (rw (check_desired-ok desired slots, listed) at h)
  ]
    where
      by_cleaned :
          {e : Error} (had : List Route) (answer : Result (Converged × a.Kernel))
          → remove_stale a desired (unique had) start_report k ≡ answer
          → (answer >>= λ (c, k'). add_missing a had (unique desired) c k') ≡ err e
          → e ≡ apply
      by_cleaned had (err x) is g =
          ground (arith, remove_stale-err desired (unique had) start_report k {e = x} is, g)
      by_cleaned had (ok (c, k')) is g = add_missing-err had (unique desired) c k' g

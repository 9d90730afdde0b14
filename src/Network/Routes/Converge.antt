-- ===== src/Network/Routes/Converge.antt =====
-- The kernel's table after `converge` of crates/network/src/routes.rs.
use bento.Shared.{
  ◌≡◌, refl, subst, true, ◌&&◌, ◌||◌, not, inl, inr, List, [], ◌∷◌, ◌++◌, Option, none, some, arith,
  ◌==◌, ==_iff, contains, Bool-cases,
}
use bento.Network.Error.{ok, >>=-eq-ok}
use bento.Network.Routes.{
  Route, prefix_beq, route_eq, Applier, IsRouteTable, Converged, unique_after, unique,
  check_desired, try, remove_stale, add_missing, converge,
}

-- `unique` keeps the elements.
contains-append :
    (xs ys : List Route) (r : Route) → contains (xs ++ ys) r ≡ (contains xs r || contains ys r)
contains-append [] ys r = refl
contains-append (x ∷ xs) ys r = ground (arith, contains-append xs ys r)

contains-unique_after :
    (rs seen : List Route) (r : Route)
    → (contains seen r || contains (unique_after seen rs) r) ≡ (contains seen r || contains rs r)
unfolding unique_after
contains-unique_after [] seen r = refl
contains-unique_after (x ∷ rs) seen r = ground (
  arith,
  contains-append seen (x ∷ []) r,
  contains-unique_after rs (seen ++ (x ∷ [])) r,
  ==_iff x r,
)

pub contains-unique : (rs : List Route) (r : Route) → contains (unique rs) r ≡ contains rs r
unfolding unique
contains-unique rs r = contains-unique_after rs [] r

-- One next hop for each destination.
abbrev pub IsFunctional : List Route → Type 0
IsFunctional rs =
    (x y : Route)
    → contains rs x ≡ true
    → contains rs y ≡ true
    → prefix_beq x.destination y.destination ≡ true
    → x ≡ y

pub try-eq-ok {ℓ} : (a : Applier) {A : Type ℓ} (o : Option A) {x : A} → try a o ≡ ok x → o ≡ some x
try-eq-ok a none e = cc
try-eq-ok a (some y) e = ground arith

abbrev pub start_report : Converged
start_report = record { added = []; removed = []; unchanged = 0 }

pub converge_phases :
    (a : Applier) (desired : List Route) (c : Converged) (k k' : a.Kernel)
    → converge a desired k ≡ ok (c, k')
    → (had : List Route) × (c₁ : Converged) × (k₁ : a.Kernel) × (a.installed k ≡ some had)
      × (remove_stale a desired (unique had) start_report k ≡ ok (c₁, k₁))
      × (add_missing a had (unique desired) c₁ k₁ ≡ ok (c, k'))
unfolding converge
converge_phases a desired c k k' e =
    let (_, _, e₁) = >>=-eq-ok (check_desired desired) _ e in
    let (had, listed, e₂) = >>=-eq-ok (try a (a.installed k)) _ e₁ in
    let ((c₁, k₁), cleaned, e₃) = >>=-eq-ok (remove_stale a desired (unique had) _ k) _ e₂ in
    (had, c₁, k₁, try-eq-ok a (a.installed k) listed, cleaned, e₃)

module _ (a : Applier) (t : IsRouteTable a) where
  -- Routes that the applier lists once they are there.
  abbrev pub AreManaged : List Route → Type 0
  AreManaged rs = (x : Route) → contains rs x ≡ true → t.manages x ≡ true

  -- The loop over stale routes takes out just those of its list that are not desired.
  remove_stale-shows :
      (desired rs : List Route) (c c' : Converged) (k k' : a.Kernel)
      → remove_stale a desired rs c k ≡ ok (c', k')
      → (x : Route)
      → contains (t.shows k') x
        ≡ (contains (t.shows k) x && not (contains rs x && not (contains desired x)))
  unfolding remove_stale
  remove_stale-shows desired [] c c' k k' e x = ground arith
  remove_stale-shows desired (r ∷ rs) c c' k k' e x = elim (Bool-cases (contains desired r)) [
    | inl wanted ↦
        ground
          (arith, wanted, remove_stale-shows desired rs c c' k k' (rw wanted at e) x, ==_iff r x)
    | inr stale ↦
        let (k₁, removed, e₁) = >>=-eq-ok (try a (a.remove r k)) _ (rw stale at e) in
        ground (
          arith,
          stale,
          remove_stale-shows desired rs _ c' k₁ k' e₁ x,
          t.remove_shows r k k₁ (try-eq-ok a (a.remove r k) removed) x,
          ==_iff r x,
        )
  ]

  -- Adding a desired route to a table of desired routes takes none of them away.
  add-shows :
      (desired : List Route) (r : Route) (k k' : a.Kernel)
      → IsFunctional desired
      → AreManaged desired
      → contains desired r ≡ true
      → ((x : Route) → contains (t.shows k) x ≡ true → contains desired x ≡ true)
      → a.add r k ≡ some k'
      → (x : Route) → contains (t.shows k') x ≡ ((r == x) || contains (t.shows k) x)
  add-shows desired r k k' one managed wanted kept added x =
      ground
        (arith, t.add_shows r k k' (managed r wanted) added x, ==_iff r x, kept x, one r x wanted)

  add_missing-shows :
      (desired had rs : List Route) (c c' : Converged) (k k' : a.Kernel)
      → IsFunctional desired
      → AreManaged desired
      → ((x : Route) → contains rs x ≡ true → contains desired x ≡ true)
      → ((x : Route) → contains (t.shows k) x ≡ true → contains desired x ≡ true)
      → add_missing a had rs c k ≡ ok (c', k')
      → (x : Route)
      → contains (t.shows k') x
        ≡ (contains (t.shows k) x || (contains rs x && not (contains had x)))
  unfolding add_missing
  add_missing-shows desired had [] c c' k k' one managed within kept e x = ground arith
  add_missing-shows desired had (r ∷ rs) c c' k k' one managed within kept e x =
      let later = λ (y : Route) (m : contains rs y ≡ true). within y (ground (arith, m)) in
      elim (Bool-cases (contains had r)) [
        | inl there ↦ ground (
          arith,
          there,
          ==_iff r x,
          add_missing-shows desired had rs _ c' k k' one managed later kept (rw there at e) x,
        )
        | inr missing ↦
            let (k₁, added, e₁) = >>=-eq-ok (try a (a.add r k)) _ (rw missing at e) in
            let step =
              add-shows desired r k k₁ one managed (within r (ground (arith, ==_iff r r))) kept
                (try-eq-ok a (a.add r k) added) in
            ground (
              arith,
              missing,
              step x,
              ==_iff r x,
              add_missing-shows desired had rs _ c' k₁ k' one managed later
                  (λ y m.
                    ground
                      (arith, step y, m, kept y, ==_iff r y, within r (ground (arith, ==_iff r r))))
                  e₁ x,
            )
      ]

  -- The two loops, one after the other.
  loops-shows :
      (desired : List Route) (c c₁ c₂ : Converged) (k k₁ k₂ : a.Kernel)
      → IsFunctional desired
      → AreManaged desired
      → remove_stale a desired (unique (t.shows k)) c k ≡ ok (c₁, k₁)
      → add_missing a (t.shows k) (unique desired) c₁ k₁ ≡ ok (c₂, k₂)
      → (x : Route) → contains (t.shows k₂) x ≡ contains desired x
  loops-shows desired c c₁ c₂ k k₁ k₂ one managed cleaned filled x =
      let left =
        λ (y : Route). remove_stale-shows desired (unique (t.shows k)) c c₁ k k₁ cleaned y in
      let stays : (y : Route) → contains (t.shows k₁) y ≡ true → contains desired y ≡ true =
        λ y m. ground (arith, left y, m, contains-unique (t.shows k) y) in
      ground (
        arith,
        left x,
        contains-unique (t.shows k) x,
        contains-unique desired x,
        add_missing-shows desired (t.shows k) (unique desired) c₁ c₂ k₁ k₂ one managed
            (λ y m. ground (arith, contains-unique desired y, m)) stays filled x,
      )

  -- When a convergence succeeds, a route is shown afterwards exactly if it is a desired one; if the
  -- desired routes have one next hop for each destination and are such as the applier lists, and its calls do what the `ip`
  -- commands document.
  pub converge-shows :
      (desired : List Route) (c : Converged) (k k' : a.Kernel)
      → IsFunctional desired
      → AreManaged desired
      → converge a desired k ≡ ok (c, k')
      → (x : Route) → contains (t.shows k') x ≡ contains desired x
  converge-shows desired c k k' one managed e x =
      let (had, c₁, k₁, listed, cleaned, filled) = converge_phases a desired c k k' e in
      let shown : had ≡ t.shows k = t.installed_shows k had listed in
      loops-shows desired _ c₁ c k k₁ k' one managed
        (subst (λ h. remove_stale a desired (unique h) start_report k ≡ ok (c₁, k₁)) shown cleaned)
        (subst (λ h. add_missing a h (unique desired) c₁ k₁ ≡ ok (c, k')) shown filled) x

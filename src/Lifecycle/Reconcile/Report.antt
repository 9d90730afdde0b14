-- ===== src/Lifecycle/Reconcile/Report.antt =====
-- What an empty report says (crates/lifecycle/src/reconcile.rs).
use mathlib.Core.List.{Memᴰ}
use mathlib.Core.List.Memᴰ
use bento.Shared.Int.{ℤ, int_eq}
use bento.Lifecycle.Manager.{operation}
use bento.Types.{Instance}
use bento.Shared.{
  ap, ◌⊎◌, Option-cases, none, ◌≡◌, ◌↔◌, refl, sym, ◌∙◌, arith, Bool, true, false, ◌&&◌, not, List,
  [], ◌∷◌, map, Option, some, String, string_eq, contains, select, ◌==◌, ==_iff, ==_refl,
  Bool-cases, inl, inr,
}
use bento.Shared.Result.{ok, err}
use bento.Lifecycle.Manager.{Manager, World}
use bento.Lifecycle.Reconcile.{
  DomainInfo, ReconcileReport, no_rows, is_empty, instances_on_host, domain_ids, row_ids, report,
  reconcile,
}

module _ {A : Type 0} (id : A → String) (known : List String) where
  -- Nothing is left of a list if each id of it is known.
  no_rows-select :
      (xs : List A)
      → (no_rows (select (λ x. not (contains known (id x))) xs) ≡ true)
        ↔ ((u : String) → contains (map id xs) u ≡ true → contains known u ≡ true)
  unfolding no_rows
  no_rows-select [] = (λ h u e. cc, λ h. refl)
  no_rows-select (x ∷ xs) = elim (Bool-cases (contains known (id x))) [
    | inl here ↦ (
      λ h u e. elim (Bool-cases (id x == u)) [
        | inl same ↦ subst-id u same here
        | inr other ↦ (no_rows-select xs).0 (rw here at h) u (rw other at e)
      ],
      λ h. rw here ((no_rows-select xs).1 (λ u e. h u (ground (arith, e)))),
    )
    | inr missing ↦ (
      λ h u e. absurd (nonempty (rw missing at h)),
      λ h. absurd (clash (h (id x) (rw (==_refl (id x)) refl)) missing),
    )
  ]
    where
      nonempty : false ≡ true → ⊥
      nonempty e = cc

      clash : {b : Bool} → b ≡ true → b ≡ false → ⊥
      clash e f = cc

      subst-id :
          (u : String) → (id x == u) ≡ true → contains known (id x) ≡ true → contains known u ≡ true
      subst-id u same here = rw (← (==_iff (id x) u).0 same) here

-- A row of the table is this instance's, with the host and the UUID.
abbrev pub HasRow : List Instance → (host_id : ℤ) → (uuid : String) → Type 0
HasRow rows host_id uuid = (i : Instance) × Memᴰ i rows × (i.host_id ≡ host_id) × (i.uuid ≡ uuid)

abbrev pub HasDomain : List DomainInfo → (uuid : String) → Type 0
HasDomain domains uuid = (d : DomainInfo) × Memᴰ d domains × (d.uuid ≡ uuid)

HasRow-iff :
    (host_id : ℤ) (rows : List Instance) (uuid : String)
    → (contains (row_ids (select (λ i. i.host_id == host_id) rows)) uuid ≡ true)
      ↔ HasRow rows host_id uuid
HasRow-iff host_id [] uuid = (λ h. cc, λ (i, listed, _, _). absurd (Memᴰ.not-nil listed))
HasRow-iff host_id (r ∷ rows) uuid = (
  λ h. elim (Bool-cases (r.host_id == host_id)) [
    | inr elsewhere ↦ later ((HasRow-iff host_id rows uuid).0 (rw elsewhere at h))
    | inl here ↦ elim (Bool-cases (r.uuid == uuid)) [
      | inl same ↦
          (r, Memᴰ.head refl, (==_iff r.host_id host_id).0 here, (==_iff r.uuid uuid).0 same)
      | inr other ↦ later ((HasRow-iff host_id rows uuid).0 (ground (arith, here, other, h)))
    ]
  ],
  λ (i, listed, host, same). elim (Memᴰ.cases_cons listed) [
    | inl here ↦
        let at_host : (r.host_id == host_id) ≡ true =
          (==_iff r.host_id host_id).1 (ap (λ k. k.host_id) (sym here) ∙ host) in
        let named : (r.uuid == uuid) ≡ true =
          (==_iff r.uuid uuid).1 (ap (λ k. k.uuid) (sym here) ∙ same) in
        rw at_host (ground (arith, named))
    | inr rest ↦
        let there = (HasRow-iff host_id rows uuid).1 (i, rest, host, same) in
        elim (Bool-cases (r.host_id == host_id)) [
          | inl at_host ↦ rw at_host (ground (arith, there))
          | inr elsewhere ↦ rw elsewhere there
        ]
  ],
)
  where
    later : HasRow rows host_id uuid → HasRow (r ∷ rows) host_id uuid
    later (i, listed, host, same) = (i, Memᴰ.tail listed, host, same)

HasDomain-iff :
    (domains : List DomainInfo) (uuid : String)
    → (contains (domain_ids domains) uuid ≡ true) ↔ HasDomain domains uuid
HasDomain-iff [] uuid = (λ h. cc, λ (d, listed, _). absurd (Memᴰ.not-nil listed))
HasDomain-iff (d ∷ domains) uuid = (
  λ h. elim (Bool-cases (d.uuid == uuid)) [
    | inl same ↦ (d, Memᴰ.head refl, (==_iff d.uuid uuid).0 same)
    | inr other ↦
        let (e, listed, has) = (HasDomain-iff domains uuid).0 (ground (arith, other, h)) in
        (e, Memᴰ.tail listed, has)
  ],
  λ (e, listed, same). elim (Memᴰ.cases_cons listed) [
    | inl here ↦
        let named : (d.uuid == uuid) ≡ true =
          (==_iff d.uuid uuid).1 (ap (λ k. k.uuid) (sym here) ∙ same) in
        ground (arith, named)
    | inr rest ↦ ground (arith, (HasDomain-iff domains uuid).1 (e, rest, same))
  ],
)

-- Where the domains of this machine and the rows can be listed, reconciliation reports and changes nothing, and its
-- report is empty exactly if the domains and the rows of the manager's host have the same UUIDs. Where either cannot
-- be listed, it fails and changes nothing.
pub reconcile-is_empty :
    {M : Type 0} (m : Manager M) (list : M → Option (List DomainInfo)) (reads : Bool) (w : World M)
    → ((domains : List DomainInfo)
        → list w.machines ≡ some domains
        → reads ≡ true
        → (r : ReconcileReport) × (reconcile m list reads w ≡ (w, ok r))
          × ((is_empty r ≡ true)
              ↔ ((uuid : String) → HasDomain domains uuid ↔ HasRow w.db.instances m.host_id uuid)))
      × ((list w.machines ≡ none) ⊎ (reads ≡ false) → reconcile m list reads w ≡ (w, err operation))
unfolding is_empty report reconcile instances_on_host
reconcile-is_empty m list reads w = (
  λ domains listed readable.
      let rows = instances_on_host m.host_id w.db in
      let here = no_rows-select (λ d. d.uuid) (row_ids rows) domains in
      let there = no_rows-select (λ i. i.uuid) (domain_ids domains) rows in
      (
        report domains rows,
        rw (reconcile, listed, readable) refl,
        (
          λ empty uuid. (
            λ has.
                (HasRow-iff m.host_id w.db.instances uuid).0
                  (here.0 (left _ _ empty) uuid ((HasDomain-iff domains uuid).1 has)),
            λ has.
                (HasDomain-iff domains uuid).0 (
                  there.0 (right _ _ empty) uuid
                    ((HasRow-iff m.host_id w.db.instances uuid).1 has)),
          ),
          λ equal.
              both _ _
                (here.1 (λ u h.
                  (HasRow-iff m.host_id w.db.instances u).1
                    ((equal u).0 ((HasDomain-iff domains u).0 h))))
                (there.1 (λ u h.
                  (HasDomain-iff domains u).1
                    ((equal u).1 ((HasRow-iff m.host_id w.db.instances u).0 h)))),
        ),
      ),
  λ fails. elim fails [
    | inl unlisted ↦ rw (reconcile, unlisted) refl
    | inr unread ↦ elim (Option-cases (list w.machines)) [
      | inl unlisted ↦ rw (reconcile, unlisted) refl
      | inr (domains, listed) ↦ rw (reconcile, listed, unread) refl
    ]
  ],
)
  where
    both : (a b : Bool) → a ≡ true → b ≡ true → (a && b) ≡ true
    both a b h k = ground (arith, h, k)

    left : (a b : Bool) → (a && b) ≡ true → a ≡ true
    left a b h = ground (arith, h)

    right : (a b : Bool) → (a && b) ≡ true → b ≡ true
    right a b h = ground (arith, h)

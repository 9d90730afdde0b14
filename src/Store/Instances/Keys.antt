-- ===== src/Store/Instances/Keys.antt =====
-- The keys of the table of instances under the statements of crates/store/src/instances.rs.
use bento.Shared.{
  ◌≡◌, ◌≢◌, refl, sym, ◌∙◌, subst, arith, inl, inr, Bool, false, String, List, [], ◌∷◌, ◌==◌,
  ==_iff, string_eq, All, select, Bool-cases,
}
use bento.Types.{Instance}
use bento.Store.Names.{is_live}
use bento.Store.Instances.{update_rows, collides}

module _ (key : Instance → String) where
  abbrev pub Lacks : String → List Instance → Type 0
  Lacks k rows = All (λ i. key i ≢ k) rows

  -- No two rows have the same key.
  abbrev pub IsDistinct : List Instance → Type 0
  IsDistinct [] = Unit
  IsDistinct (i ∷ rows) = Lacks (key i) rows × IsDistinct rows

  pub Lacks-select :
      (k : String) (test : Instance → Bool) (rows : List Instance)
      → Lacks k rows
      → Lacks k (select test rows)
  Lacks-select k test [] h = tt
  Lacks-select k test (i ∷ rows) (h, t) = elim (Bool-cases (test i)) [
    | inl keep ↦ rw keep (h, Lacks-select k test rows t)
    | inr drop ↦ rw drop (Lacks-select k test rows t)
  ]

  pub IsDistinct-select :
      (test : Instance → Bool) (rows : List Instance)
      → IsDistinct rows
      → IsDistinct (select test rows)
  IsDistinct-select test [] h = tt
  IsDistinct-select test (i ∷ rows) (h, t) = elim (Bool-cases (test i)) [
    | inl keep ↦ rw keep (Lacks-select (key i) test rows h, IsDistinct-select test rows t)
    | inr drop ↦ rw drop (IsDistinct-select test rows t)
  ]

  module _ (uuid : String) (change : Instance → Instance) where
    Lacks-update :
        (k : String) (rows : List Instance)
        → ((i : Instance) → key (change i) ≡ key i)
        → Lacks k rows
        → Lacks k (update_rows uuid change rows)
    unfolding update_rows
    Lacks-update k [] same h = tt
    Lacks-update k (i ∷ rows) same (h, t) = elim (Bool-cases (i.uuid == uuid)) [
      | inl here ↦ rw here (λ e. h (sym (same i) ∙ e), Lacks-update k rows same t)
      | inr other ↦ rw other (h, Lacks-update k rows same t)
    ]

    pub IsDistinct-update :
        (rows : List Instance)
        → ((i : Instance) → key (change i) ≡ key i)
        → IsDistinct rows
        → IsDistinct (update_rows uuid change rows)
    unfolding update_rows
    IsDistinct-update [] same h = tt
    IsDistinct-update (i ∷ rows) same (h, t) = elim (Bool-cases (i.uuid == uuid)) [
      | inl here ↦ rw here (
        subst (λ k. Lacks k (update_rows uuid change rows)) (sym (same i))
            (Lacks-update (key i) rows same h),
        IsDistinct-update rows same t,
      )
      | inr other ↦ rw other (Lacks-update (key i) rows same h, IsDistinct-update rows same t)
    ]

pub collides-false :
    (new : Instance) (rows : List Instance)
    → collides new rows ≡ false
    → Lacks (λ i. i.uuid) new.uuid rows
      × Lacks (λ i. i.name) new.name rows
      × Lacks (λ i. i.address) new.address rows
      × Lacks (λ i. i.mac) new.mac rows
unfolding collides
collides-false new [] h = (tt, tt, tt, tt)
collides-false new (i ∷ rows) h =
    let (u, n, a, m) = collides-false new rows (ground arith) in
    (
      (λ e. ground (arith, ==_iff i.uuid new.uuid), u),
      (λ e. ground (arith, ==_iff i.name new.name), n),
      (λ e. ground (arith, ==_iff i.address new.address), a),
      (λ e. ground (arith, ==_iff i.mac new.mac), m),
    )

pub is_live-false :
    (name : String) (rows : List Instance)
    → is_live name rows ≡ false
    → Lacks (λ i. i.name) name rows
unfolding is_live
is_live-false name [] h = tt
is_live-false name (i ∷ rows) h =
    (λ e. ground (arith, ==_iff i.name name), is_live-false name rows (ground arith))

-- Without the row there is nothing to update.
pub update_rows-absent :
    (uuid : String) (change : Instance → Instance) (rows : List Instance)
    → Lacks (λ i. i.uuid) uuid rows
    → update_rows uuid change rows ≡ rows
unfolding update_rows
update_rows-absent uuid change [] h = refl
update_rows-absent uuid change (i ∷ rows) (h, t) =
    ground (arith, ==_iff i.uuid uuid, update_rows-absent uuid change rows t)

abbrev pub renamed : String → Instance → Instance
renamed name i = record i { name = name }

-- Renaming adds no name but the new one.
Lacks-rename :
    (uuid new_name k : String) (rows : List Instance)
    → new_name ≢ k
    → Lacks (λ i. i.name) k rows
    → Lacks (λ i. i.name) k (update_rows uuid (renamed new_name) rows)
unfolding update_rows
Lacks-rename uuid new_name k [] ne h = tt
Lacks-rename uuid new_name k (i ∷ rows) ne (h, t) = elim (Bool-cases (i.uuid == uuid)) [
  | inl here ↦ rw here (ne, Lacks-rename uuid new_name k rows ne t)
  | inr other ↦ rw other (h, Lacks-rename uuid new_name k rows ne t)
]

pub IsDistinct-rename :
    (uuid new_name : String) (rows : List Instance)
    → IsDistinct (λ i. i.uuid) rows
    → IsDistinct (λ i. i.name) rows
    → Lacks (λ i. i.name) new_name rows
    → IsDistinct (λ i. i.name) (update_rows uuid (renamed new_name) rows)
unfolding update_rows
IsDistinct-rename uuid new_name [] u n free = tt
IsDistinct-rename uuid new_name (i ∷ rows) (u, us) (n, ns) (free, frees) =
    elim (Bool-cases (i.uuid == uuid)) [
      | inl here ↦
          let absent : Lacks (λ i. i.uuid) uuid rows =
            subst (λ k. Lacks (λ i. i.uuid) k rows) ((==_iff i.uuid uuid).0 here) u in
          rw (here, update_rows-absent uuid (renamed new_name) rows absent) (frees, ns)
      | inr other ↦ rw other (
        Lacks-rename uuid new_name i.name rows (λ e. free (sym e)) n,
        IsDistinct-rename uuid new_name rows us ns frees,
      )
    ]

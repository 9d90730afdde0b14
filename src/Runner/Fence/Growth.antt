-- ===== src/Runner/Fence/Growth.antt =====
-- The order in which the tables of the fence move (crates/runner/src/fence.rs and store.rs).
use bento.Shared.{
  ℕ, Bool, true, ◌≡◌, ◌≢◌, ◌⊎◌, inl, inr, refl, sym, subst, ◌∙◌, arith, Option, some, none, String,
  string_eq, ==_iff, ◌==◌, Option-cases, Bool-cases,
}
use bento.Shared.Int.{ℤ, ltb_ℤ, int_eq, ◌≤ℤ◌}
use bento.Runner.Protocol.{Envelope, ObjectFence}
use bento.Runner.Store.{
  Tables, Accepted, Sqlite, Statement, newer, accepted_epoch, accept_epoch, accept_object, outcome,
  object_generation,
}
use bento.Shared.Rows.{row, put, row-put}
use bento.Runner.Fence.{Fence, allowed, admit_change, admit_object, admit_epoch, admit_as}

-- A generation stays, or a higher one takes its place.
abbrev pub IsKept : Accepted → Option Accepted → Type 0
IsKept old none = ⊥
IsKept old (some new) =
    (old.generation ≤ℤ new.generation) × (old.generation ≡ new.generation → old ≡ new)

pub record Grows (t t' : Tables) : Type 0 where
  pub epoch : t.epoch ≤ℤ t'.epoch
  pub generations :
      (id : String) {a : Accepted}
      → row id t.generations ≡ some a
      → IsKept a (row id t'.generations)
  pub outcomes : t'.outcomes ≡ t.outcomes

pub Grows-refl : (t : Tables) → Grows t t
Grows-refl t = record {
  epoch = ground arith;
  generations = λ id e. rw e (ground arith, λ _. refl);
  outcomes = refl;
}

IsKept-self : {old : Accepted} (found : Option Accepted) → found ≡ some old → IsKept old found
IsKept-self found e = rw e (ground arith, λ _. refl)

-- Writing a newer generation under `id` keeps every object's history.
IsKept-put :
    (id k : String) (new old : Accepted) (t : Tables)
    → newer (row id t.generations) new.generation ≡ true
    → row k t.generations ≡ some old
    → IsKept old (row k (put id new t.generations))
unfolding newer
IsKept-put id k new old t fresh e = elim (Bool-cases (id == k)) [
  | inl same ↦
      let id≡k : id ≡ k = (==_iff id k).0 same in
      let found : row id t.generations ≡ some old = rw id≡k e in
      rw (row-put, same) (ground (arith, found), λ eq. absurd (ground (arith, found)))
  | inr other ↦ rw (row-put, other) (IsKept-self (row k t.generations) e)
]

Grows-accept_object :
    (db : Sqlite) (object : ObjectFence) (t : Tables)
    → Grows t (accept_object db object.object_id object.generation object.digest t).0
unfolding accept_object
Grows-accept_object db o t = elim (Bool-cases (db Statement.writes_object)) [
  | inr failed ↦ rw failed (Grows-refl t)
  | inl works ↦ elim (Bool-cases (newer (row o.object_id t.generations) o.generation)) [
    | inr old ↦ rw (works, old) (Grows-refl t)
    | inl fresh ↦
        rw (works, fresh)
          (record {
            epoch = ground arith;
            generations = λ k {a} e. IsKept-put o.object_id k _ a t fresh e;
            outcomes = refl;
          })
  ]
]

Grows-accept_epoch : (db : Sqlite) (epoch : ℤ) (t : Tables) → Grows t (accept_epoch db epoch t).0
unfolding accept_epoch
Grows-accept_epoch db epoch t = elim (Bool-cases (db Statement.writes_epoch)) [
  | inr failed ↦ rw failed (Grows-refl t)
  | inl works ↦ rw works (record {
    epoch = ground arith;
    generations = λ k {a} e. IsKept-self (row k t.generations) e;
    outcomes = refl;
  })
]

IsKept-trans :
    (old : Accepted) (mid new : Option Accepted)
    → IsKept old mid
    → ((m : Accepted) → mid ≡ some m → IsKept m new)
    → IsKept old new
IsKept-trans old none new h k = absurd h
IsKept-trans old (some m) none h k = k m refl
IsKept-trans old (some m) (some n) h k =
    let (up, same) = k m refl in (ground arith, λ e. h.1 (ground arith) ∙ same (ground arith))

pub Grows-trans : {t u v : Tables} → Grows t u → Grows u v → Grows t v
Grows-trans {t} {u} {v} g h = record {
  epoch = ground (arith, g.epoch, h.epoch);
  generations = λ id {a} e.
      IsKept-trans a (row id u.generations) (row id v.generations) (g.generations id e)
        (λ m e'. h.generations id e');
  outcomes = h.outcomes ∙ g.outcomes;
}

module _ (db : Sqlite) {N S : Type 0} (fence : Fence) (now : ℕ) (e : Envelope N S) where
  -- The tables after the two writes of an admission.
  abbrev epoch_written : Tables → Tables
  epoch_written t = (accept_epoch db e.epoch t).0

  abbrev object_written : ObjectFence → Tables → Tables
  object_written o t = (accept_object db o.object_id o.generation o.digest (epoch_written t)).0

  -- However an admission ends, it made none, the first or both of the writes.
  admit_as_writes :
      (change : Bool) (t : Tables) (o : ObjectFence)
      → (e.object ≡ none) ⊎ (e.object ≡ some o)
      → ((admit_as db fence now e change t).0 ≡ t)
        ⊎ (((admit_as db fence now e change t).0 ≡ epoch_written t)
            ⊎ ((admit_as db fence now e change t).0 ≡ object_written o t))
  unfolding admit_as admit_epoch accepted_epoch admit_object object_generation admit_change outcome
  admit_as_writes change t o named = ground arith

  -- Whatever a request asks and wherever SQLite fails, an admission lowers neither the accepted epoch
  -- nor the generation of any object, changes no digest but with a higher generation, and leaves the
  -- outcomes as they are.
  pub admit_as-Grows : (change : Bool) (t : Tables) → Grows t (admit_as db fence now e change t).0
  admit_as-Grows change t =
      let to : (t' : Tables)
          → Grows t t'
          → (admit_as db fence now e change t).0 ≡ t'
          → Grows t (admit_as db fence now e change t).0 =
        λ t' g path. subst (Grows t) (sym path) g in
      let (o, named) = object_or_none in
      elim (admit_as_writes change t o named) [
        | inl same ↦ to t (Grows-refl t) same
        | inr (inl epoch) ↦ to (epoch_written t) (Grows-accept_epoch db e.epoch t) epoch
        | inr (inr both) ↦
            to (object_written o t)
              (Grows-trans (Grows-accept_epoch db e.epoch t)
                (Grows-accept_object db o (epoch_written t)))
              both
      ]
    where
      object_or_none : (o : ObjectFence) × ((e.object ≡ none) ⊎ (e.object ≡ some o))
      object_or_none = elim (Option-cases e.object) [
        | inl unnamed ↦ (
          record { object_id = e.request_id; generation = e.epoch; digest = e.holder_id },
          inl unnamed,
        )
        | inr (o, named) ↦ (o, inr named)
      ]

  -- A request with an epoch below the accepted one never gets permission.
  pub admit_as-stale_epoch :
      (change : Bool) (t : Tables)
      → ltb_ℤ e.epoch t.epoch ≡ true
      → (admit_as db fence now e change t).1 ≢ some allowed
  unfolding admit_as admit_epoch accepted_epoch
  admit_as-stale_epoch change t stale h = ground arith

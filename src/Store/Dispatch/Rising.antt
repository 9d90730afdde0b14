-- ===== src/Store/Dispatch/Rising.antt =====
-- Histories of dispatches (`next_dispatch_generation` of crates/store/src/runners.rs).
use bento.Shared.{
  ℕ, ◌+◌, ◌-◌, ◌*◌, ◌<◌, ◌^◌, ◌≡◌, refl, arith, inl, inr, Bool, true, String, List, [], ◌∷◌, Option,
  none, some, ◌==◌, ==_iff, ==_refl, string_eq, Bool-cases, Option-cases,
}
use bento.Shared.Rows.{row, put, row-put}
use bento.Shared.Int.{ℤ, pos, ltb_ℤ, ◌≤ℤ◌, int_eq}
use bento.Store.Database.{ok, settle-ok, settle_keeps}
use bento.Store.Lease.Epochs.{succ_ℤ-above}
use bento.Store.Dispatch.{
  saturating_million, lowest_generation, raise_generation, next_dispatch_generation,
}

-- The row has a generation, and at least this one.
abbrev AtLeast : ℤ → Option ℤ → Type 0
AtLeast generation none = ⊥
AtLeast generation (some later) = generation ≤ℤ later

raise_generation-ok :
    (object_id : String) (lowest : ℤ) (rows rows' : List (String × ℤ)) {generation : ℤ}
    → raise_generation object_id lowest rows ≡ ok (rows', generation)
    → (rows' ≡ put object_id generation rows)
      × (lowest ≤ℤ generation)
      × ((old : ℤ) → row object_id rows ≡ some old → ltb_ℤ old generation ≡ true)
unfolding raise_generation
raise_generation-ok object_id lowest rows rows' h = elim (Option-cases (row object_id rows)) [
  | inl new ↦
      (ground (arith, h, new), ground (arith, h, new), λ old e. absurd (ground (arith, new, e)))
  | inr (g, found) ↦ (
    ground (arith, h, found),
    ground (arith, h, found),
    λ old e. ground (arith, h, found, e, succ_ℤ-above g),
  )
]

-- A dispatch lowers no object's generation.
raise_generation-AtLeast :
    (object_id k : String) (lowest old : ℤ) (rows rows' : List (String × ℤ)) (generation : ℤ)
    → raise_generation object_id lowest rows ≡ ok (rows', generation)
    → AtLeast old (row k rows)
    → AtLeast old (row k rows')
raise_generation-AtLeast object_id k lowest old rows rows' generation h kept =
    let (put_row, _, above) = raise_generation-ok object_id lowest rows rows' h in
    rw (put_row, row-put k object_id generation rows)
      (elim (Bool-cases (object_id == k)) [
        | inr other ↦ rw other kept
        | inl same ↦
            let id≡k : object_id ≡ k = (==_iff object_id k).0 same in
            rw same (risen (row k rows) (λ g e. above g (rw id≡k e)) kept)
      ])
  where
    risen :
        (found : Option ℤ)
        → ((g : ℤ) → found ≡ some g → ltb_ℤ g generation ≡ true)
        → AtLeast old found
        → old ≤ℤ generation
    risen none above kept = absurd kept
    risen (some g) above kept = ground (arith, above g refl, kept)

-- A dispatch that somebody asked for: whether it commits, its object and the epoch.
pub record Dispatch : Type 0 where
  pub commits : Bool
  pub object_id : String
  pub epoch : ℤ

unfoldable pub dispatch_all : List Dispatch → List (String × ℤ) → List (String × ℤ)
dispatch_all [] rows = rows
dispatch_all (d ∷ rest) rows =
    dispatch_all rest (next_dispatch_generation d.commits d.object_id d.epoch rows).0

dispatch_all-AtLeast :
    (history : List Dispatch) (k : String) (old : ℤ) (rows : List (String × ℤ))
    → AtLeast old (row k rows)
    → AtLeast old (row k (dispatch_all history rows))
unfolding dispatch_all next_dispatch_generation
dispatch_all-AtLeast [] k old rows kept = kept
dispatch_all-AtLeast (d ∷ rest) k old rows kept =
    let lowest = lowest_generation d.epoch in
    dispatch_all-AtLeast rest k old _ (
      settle_keeps (λ r. AtLeast old (row k r)) d.commits rows
        (raise_generation d.object_id lowest rows) kept
        (λ rows' generation h.
          raise_generation-AtLeast d.object_id k lowest old rows rows' generation h kept))

-- Of two dispatches for one object that succeed, the later has the higher generation, whatever is dispatched
-- between them and in whatever epochs.
pub next_dispatch_generation-rises :
    (commits commits' : Bool) (object_id : String) (epoch epoch' : ℤ) (rows : List (String × ℤ))
    (history : List Dispatch) {first second : ℤ}
    → (next_dispatch_generation commits object_id epoch rows).1 ≡ ok first
    → (next_dispatch_generation commits' object_id epoch'
        (dispatch_all history (next_dispatch_generation commits object_id epoch rows).0)).1
      ≡ ok second
    → ltb_ℤ first second ≡ true
unfolding next_dispatch_generation
next_dispatch_generation-rises commits commits' object_id epoch epoch' rows history {first} {second}
      h h' =
    let left : List (String × ℤ) = (next_dispatch_generation commits object_id epoch rows).0 in
    let (_, one) =
      settle-ok commits rows (raise_generation object_id (lowest_generation epoch) rows) h in
    let (written, _, _) = raise_generation-ok object_id (lowest_generation epoch) rows left one in
    let there : AtLeast first (row object_id left) =
      rw (written, row-put object_id object_id first rows, ==_refl object_id) (ground arith) in
    let later = dispatch_all-AtLeast history object_id first left there in
    let (_, two) =
      settle-ok commits' (dispatch_all history left)
        (raise_generation object_id (lowest_generation epoch') (dispatch_all history left)) h' in
    let (_, _, above) =
      raise_generation-ok object_id (lowest_generation epoch') (dispatch_all history left) _ two in
    ahead (row object_id (dispatch_all history left)) above later
  where
    ahead :
        (found : Option ℤ)
        → ((g : ℤ) → found ≡ some g → ltb_ℤ g second ≡ true)
        → AtLeast first found
        → ltb_ℤ first second ≡ true
    ahead none above kept = absurd kept
    ahead (some g) above kept = ground (arith, above g refl, kept)

-- A dispatched generation is above a million times its epoch, for an epoch whose million fits an i64.
pub next_dispatch_generation-floor :
    (commits : Bool) (object_id : String) (epoch : ℕ) (rows : List (String × ℤ)) {generation : ℤ}
    → epoch * 1_000_000 < 2 ^ 63 - 1
    → (next_dispatch_generation commits object_id (pos epoch) rows).1 ≡ ok generation
    → ltb_ℤ (pos (epoch * 1_000_000)) generation ≡ true
unfolding next_dispatch_generation
next_dispatch_generation-floor commits object_id epoch rows small h =
    let (_, one) =
      settle-ok commits rows (raise_generation object_id (lowest_generation (pos epoch)) rows) h in
    let (_, above, _) = raise_generation-ok object_id (lowest_generation (pos epoch)) rows _ one in
    let lowest = floor epoch small in ground (arith, above, lowest)
  where
    floor :
        (epoch : ℕ)
        → epoch * 1_000_000 < 2 ^ 63 - 1
        → lowest_generation (pos epoch) ≡ pos (epoch * 1_000_000 + 1)
    floor epoch small = unfold lowest_generation saturating_million in ground (arith, small)

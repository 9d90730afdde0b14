-- ===== src/Network/Subnet/Allocation.antt =====
-- What `Plan::allocate` of crates/network/src/subnet.rs hands out.
use bento.Shared.{
  ℕ, ◌<◌, ◌≡◌, true, arith, ◌↔◌, ◌⊎◌, inl, inr, List, [], ◌∷◌, some, contains, nat_eq, first_free,
  first_free-some, first_free-none, Option-cases,
}
use bento.Shared.Int.{pos}
use bento.Network.Error.{ok, err, subnets_exhausted}
use bento.Network.Prefix.{Ipv4Prefix}
use bento.Network.Subnet.{Plan, subnets, subnet, index, taken_indices, allocate}
use bento.Network.Subnet.Numbering.{IsPlan, index-subnet}

-- Some prefix of the list has this index in the plan.
abbrev pub Taken : Plan → List Ipv4Prefix → ℕ → Type 0
Taken plan [] i = ⊥
Taken plan (q ∷ used) i = (index plan q ≡ ok i) ⊎ Taken plan used i

taken_indices-Taken :
    (plan : Plan) (used : List Ipv4Prefix) (i : ℕ)
    → (contains (taken_indices plan used) i ≡ true) ↔ Taken plan used i
unfolding taken_indices
taken_indices-Taken plan [] i = ground arith
taken_indices-Taken plan (q ∷ used) i = ground (arith, taken_indices-Taken plan used i)

-- An allocated subnet has the lowest index of the plan that no user's subnet has.
pub record IsLowestSubnet (plan : Plan) (used : List Ipv4Prefix) (p : Ipv4Prefix) : Type 0 where
  pub number : ℕ
  pub indexed : index plan p ≡ ok number
  pub free : ¬ Taken plan used number
  pub lower_taken : (j : ℕ) → j < number → Taken plan used j

-- A subnet that the allocator gives out has an index in the plan that no used prefix has, and every
-- lower index is one of a used prefix; for a well-formed plan.
pub allocate-IsLowestSubnet :
    (plan : Plan) (used : List Ipv4Prefix) {p : Ipv4Prefix}
    → IsPlan plan
    → allocate plan (some used) ≡ ok p
    → IsLowestSubnet plan used p
unfolding allocate
allocate-IsLowestSubnet plan used v e =
    elim (Option-cases (first_free (subnets plan) 0 (contains (taken_indices plan used)))) [
      | inl full ↦ absurd (ground (arith, full))
      | inr (i, found) ↦
          let low = first_free-some (subnets plan) 0 _ found in
          let taken = taken_indices-Taken plan used in
          record {
            number = i;
            indexed = index-subnet plan i v (ground (arith, found));
            free = λ t. ground (arith, (taken i).1 t, low.free);
            lower_taken = λ j below. (taken j).0 (low.lower_taken j (omega arith) below);
          }
    ]

-- The allocator reports exhaustion exactly when every index of the plan is one of a used prefix.
pub allocate-exhausted :
    (plan : Plan) (used : List Ipv4Prefix)
    → (allocate plan (some used) ≡ err subnets_exhausted)
      ↔ ((i : ℕ) → i < subnets plan → Taken plan used i)
unfolding allocate
allocate-exhausted plan used =
    elim (Option-cases (first_free (subnets plan) 0 (contains (taken_indices plan used)))) [
      | inl full ↦ (
        λ _ i below.
            (taken_indices-Taken plan used i).0
              (first_free-none (subnets plan) 0 _ full i (omega arith) (omega arith)),
        λ _. ground (arith, full),
      )
      | inr (i, found) ↦
          let low = first_free-some (subnets plan) 0 _ found in
          (
            λ e. absurd (subnet-ne-exhausted plan i (ground (arith, found))),
            λ all. absurd (
                ground (
                  arith,
                  (taken_indices-Taken plan used i).1 (all i (omega (arith, low.below_end))),
                  low.free,
                )),
          )
    ]
  where
    subnet-ne-exhausted : (q : Plan) (i : ℕ) → subnet q (pos i) ≡ err subnets_exhausted → ⊥
    subnet-ne-exhausted q i e = unfold subnet in ground arith

-- ===== src/Lifecycle/Create/Placed.antt =====
-- Where an instance that is created lies (crates/lifecycle/src/new.rs).
use bento.Shared.{ℕ, ◌≡◌, refl, sym, subst, arith, String, List, Option, none, some}
use bento.Shared.Result.{Result, ok}
use bento.Types.{Instance, State}
use bento.Network.Error.{Result as NetworkResult}
use bento.Network.Prefix.{Ipv4Prefix, IsPrefixValue}
use bento.Network.Subnet.{GuestNetwork}
use bento.Lifecycle.Manager.{Error, Manager, World, after, machine_call, after-both}
use bento.Lifecycle.Allocate.Owned.{IsOwned, IsFirstFree, allocate_in_owned_slot-IsOwned}
use bento.Lifecycle.Create.Unwind.{check_request-unchanged}
use bento.Lifecycle.Create.{
  NewRequest, Lookups, Plan, settled, allocate_step, or_operation, new_instance, plan_new,
  unwind_new, record_built, build_on, build_for, build, create,
}

or_operation-ok : {A : Type 0} (o : Option A) {a : A} → or_operation o ≡ ok a → o ≡ some a
unfolding or_operation
or_operation-ok none h = cc
or_operation-ok (some b) h = ground (arith, h)

-- What a chain answers when it succeeds.
abbrev Answers : {M A : Type 0} → (A → Type 0) → World M × Result Error A → Type 0
Answers {M} {A} P r = (a : A) → r.1 ≡ ok a → P a

-- A chain answers what its rest answers.
after-Answers :
    {M A B : Type 0} (P : B → Type 0) (first : World M × Result Error A)
    (next : A → World M → World M × Result Error B)
    → ((a : A) → first.1 ≡ ok a → Answers P (next a first.0))
    → Answers P (after first next)
after-Answers P first next goes = after-both (Answers P) first next (λ e _ b h. cc) goes

module _ {M : Type 0} (m : Manager M) (lookups : Lookups) where
  -- The instance has a slot, which is an active one of its host, and its address is the lowest of the slot in the
  -- subnet of its owner that was free before.
  abbrev pub InOwnSlot : NewRequest → List Instance → Instance → Type 0
  InOwnSlot request rows i =
      (n : ℕ) × (i.slot ≡ some n)
      × IsOwned i.host_id lookups.slots n
      × ((subnet : Ipv4Prefix) × (a : ℕ) × (request.owner_subnet ≡ some subnet)
          × (i.address ≡ lookups.write_address a)
          × IsFirstFree rows subnet (record { bits = lookups.runner_prefix }) n a)

  plan_new-InOwnSlot :
      (request : NewRequest) (now : ℕ) (w : World M)
      → ((subnet : Ipv4Prefix) → request.owner_subnet ≡ some subnet → IsPrefixValue subnet)
      → Answers
          (λ plan. InOwnSlot request w.db.instances plan.instance)
          (plan_new m lookups request now w)
  unfolding plan_new settled allocate_step new_instance
  plan_new-InOwnSlot request now w valid =
      let P : Plan → Type 0 = λ plan. InOwnSlot request w.db.instances plan.instance in
      after-Answers P _ _ (λ _ _. after-Answers P _ _ (λ checksum _. after-Answers P _ _ (λ _ _.
        after-Answers P _ _ (λ is_oci _. after-Answers P _ _ (λ subnet reads.
          after-Answers P _ _ (λ host_id _. after-Answers P _ _ (λ (address, slot) found.
            after-Answers P _ _ (λ capacity _ plan h.
              let (owned, free) =
                allocate_in_owned_slot-IsOwned _ host_id subnet
                  (valid subnet (or_operation-ok _ reads)) found in
              let same : new_instance lookups request checksum host_id address slot now
                  ≡ plan.instance =
                ground (arith, h) in
              subst (InOwnSlot request w.db.instances) same (
                slot,
                refl,
                owned,
                (
                  subnet,
                  address,
                  or_operation-ok _ reads,
                  refl,
                  subst
                      (λ v.
                        IsFirstFree v.db.instances subnet (record { bits = lookups.runner_prefix })
                          slot address)
                      (check_request-unchanged m lookups request w) free,
                ),
              )))))))))

  -- The instance that a machine has built is the planned one, in the state that the machine reports.
  abbrev Built : Plan → Instance → Type 0
  Built plan i = (state : State) × (i ≡ record plan.instance { state = state })

  build_for-Built :
      (request : NewRequest) (now : ℕ) (plan : Plan) (guest : NetworkResult (GuestNetwork ℕ))
      (w : World M)
      → Answers (Built plan) (build_for m lookups request now plan guest w)
  unfolding build_for build_on record_built unwind_new machine_call
  build_for-Built request now plan (NetworkResult.err _) w = λ i h. cc
  build_for-Built request now plan (NetworkResult.ok guest) w =
      on_network (m.network_of request.owner_id)
    where
      built :
          (answer : Option State) (v : World M)
          → Answers (Built plan) (record_built m lookups plan.instance now answer v)
      built none v = λ i h. cc
      built (some state) v = λ i h. (state, ground (arith, h))

      on_network :
          (network : Option String)
          → Answers (Built plan) (build_on m lookups request now plan guest network w)
      on_network none = λ i h. cc
      on_network (some network) = after-Answers (Built plan) _ _ (λ answer _. built answer _)

  -- An instance that is created has the number of an active slot of the host it runs on, and its address is that of
  -- the lowest host that may be assigned in that slot of its owner's subnet and that no instance had; if the
  -- subnet is a prefix in range.
  pub create-InOwnSlot :
      (request : NewRequest) (minted_at checked_at created_at unwound_at : ℕ) (w : World M)
      {i : Instance}
      → ((subnet : Ipv4Prefix) → request.owner_subnet ≡ some subnet → IsPrefixValue subnet)
      → (create m lookups request minted_at checked_at created_at unwound_at w).1 ≡ ok i
      → InOwnSlot request w.db.instances i
  unfolding create build
  create-InOwnSlot request minted_at checked_at created_at unwound_at w {i} valid =
      let Q : World M × Result Error Instance → Type 0 =
        Answers (InOwnSlot request w.db.instances) in
      let planned = plan_new m lookups request minted_at w in
      let finished : (plan : Plan)
          → InOwnSlot request w.db.instances plan.instance
          → (v : World M) → Q (build m lookups request unwound_at plan v) =
        λ plan own v j h.
          let (state, same) = build_for-Built request unwound_at plan _ v j h in
          subst (InOwnSlot request w.db.instances) (sym same) own in
      after-Answers (InOwnSlot request w.db.instances) planned _
        (λ plan found.
          after-Answers (InOwnSlot request w.db.instances) _ _
            (λ _ _. finished plan (plan_new-InOwnSlot request minted_at w valid plan found) _))
        i

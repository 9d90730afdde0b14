-- ===== src/Store/Hosts/Placing.antt =====
-- crates/store/src/runners.rs: the host that a new instance goes on. The arithmetic of `f64` is a
-- parameter. The reasons that a refusal gives are values; the program writes them out as texts.
pub mod Order
pub mod Eligible
pub mod Loop
pub mod Choice
use Prim.Native.Nat.{Ordering}
use bento.Shared.{
  ℕ, ◌+◌, ◌-◌, max, Bool, true, false, ◌&&◌, not, if◌then◌else◌, ltb, nat_beq, String, List, [],
  ◌∷◌, ◌++◌, Option, none, some, ◌==◌, string_eq, select,
}
use bento.Shared.Int.{ℤ, int_eq, ltb_ℤ}
use bento.Types.{Placement, Instance, Slot, SlotState, slot_state_beq, Host, Placing}
use bento.Store.Database.{Result, ok, err, ◌>>=◌, Rejection, no_placement}
use bento.Store.Instances.{to_sql_int, saturating_add}
use bento.Store.Observation.{HostHealth, Observation, placeable}
use bento.Store.Hosts.{Fleet, observation_row}

-- The operations of `f64`: the conversions from and to `u64`, and `partial_cmp`.
pub record Float (F : Type 0) : Type 0 where
  pub from_u64 : ℕ → F
  pub to_u64 : F → ℕ
  pub times : F → F → F
  pub divide : F → F → F
  pub partial_cmp : F → F → Option Ordering

pub record Weight (F : Type 0) : Type 0 where
  pub memory_ratio : F
  pub vcpu_ratio : F

pub data Verdict (F : Type 0) : Type 0 where
  eligible : Weight F → Verdict F
  rejected : Rejection → Verdict F

-- `SELECT COUNT(*) … WHERE owner_host_id = ? AND state = 'active'`
unfoldable pub active_slots : ℤ → List Slot → ℕ
active_slots host_id [] = 0
active_slots host_id (s ∷ rows) =
    (if (s.owner_host_id == host_id) && slot_state_beq s.state SlotState.active then 1 else 0)
    + active_slots host_id rows

-- `COALESCE(SUM(column), 0) … WHERE host_id = ?`
unfoldable pub reserved : (Instance → ℕ) → ℤ → List Instance → ℕ
reserved column host_id [] = 0
reserved column host_id (i ∷ rows) =
    (if i.host_id == host_id then column i else 0) + reserved column host_id rows

unfoldable pub unwrap_or_zero : Option ℕ → ℕ
unwrap_or_zero none = 0
unwrap_or_zero (some n) = n

unfoldable pub check_arch : (want host : Option String) → Option Rejection
check_arch (some want) (some host) =
    if want == host then none else some (Rejection.other_arch host want)
check_arch _ _ = none

unfoldable pub check_disk : (available : Option ℕ) → (wants : ℕ) → Option Rejection
check_disk none wants = none
check_disk (some available) wants =
    if ltb available wants then some (Rejection.disk_short available wants) else none

-- `enabled = 1 AND placement = 'active'`
unfoldable pub takes_new : Host → Bool
takes_new h = h.enabled && (elim h.placement [ Placement.active ↦ true | _ ↦ false ])

module _ {F : Type 0} (float : Float F) where
  unfoldable pub overcommitted_memory_mib : ℕ → F → ℕ
  overcommitted_memory_mib memory_mib overcommit_ratio =
      float.to_u64 (float.times (float.from_u64 memory_mib) overcommit_ratio)

  -- The part of `weigh_host` that comes after the two sums.
  unfoldable pub weigh : Observation → Placing → F → (memory vcpu : ℕ) → Verdict F
  weigh o want overcommit_ratio memory vcpu =
      let memory_total = unwrap_or_zero o.memory_total_mib in
      let memory_limit = overcommitted_memory_mib memory_total overcommit_ratio in
      let memory_after = saturating_add memory want.memory_mib in
      let cpu_count = max (unwrap_or_zero o.cpu_count) 1 in
      let vcpu_after = saturating_add vcpu want.vcpu in
      if nat_beq memory_total 0
      then rejected Rejection.no_memory
      else if ltb memory_limit memory_after
      then rejected (Rejection.memory_short (memory_limit - memory) memory_limit want.memory_mib)
      else (elim (check_disk o.storage_available_gib want.disk_gib) [
        | some reason ↦ rejected reason
        | none ↦ eligible (record {
          memory_ratio = float.divide (float.from_u64 memory_after) (float.from_u64 memory_limit);
          vcpu_ratio = float.divide (float.from_u64 vcpu_after) (float.from_u64 cpu_count);
        })
      ])

  unfoldable pub weigh_host : Fleet → Host → Placing → F → Result (Verdict F)
  weigh_host fleet host want overcommit_ratio = elim (observation_row host.id fleet.observations) [
    | none ↦ ok (rejected Rejection.never_answered)
    | some o ↦
        if not (placeable o.health)
        then ok (rejected (Rejection.last_seen o.health))
        else if nat_beq (active_slots host.id fleet.slots) 0
        then ok (rejected Rejection.no_active_slot)
        else (elim (check_arch want.arch o.arch) [
          | some reason ↦ ok (rejected reason)
          | none ↦ to_sql_int (reserved (λ i. i.memory_mib) host.id fleet.instances) >>= λ memory.
              to_sql_int (reserved (λ i. i.vcpu) host.id fleet.instances) >>= λ vcpu.
              ok (weigh o want overcommit_ratio memory vcpu)
        ])
  ]

  abbrev pub Candidate : Type 0
  Candidate = Weight F × Host

  -- `<` of the triples of the two ratios and the id.
  unfoldable pub below : Candidate → Candidate → Bool
  below (w, h) (v, g) = elim (float.partial_cmp w.memory_ratio v.memory_ratio) [
    | some Ordering.lt ↦ true
    | some Ordering.eq ↦ elim (float.partial_cmp w.vcpu_ratio v.vcpu_ratio) [
      | some Ordering.lt ↦ true
      | some Ordering.eq ↦ ltb_ℤ h.id g.id
      | _ ↦ false
    ]
    | _ ↦ false
  ]

  unfoldable pub better : Candidate → Option Candidate → Option Candidate
  better candidate none = some candidate
  better candidate (some current) = if below candidate current then some candidate else some current

  -- The loop over the hosts.
  unfoldable pub weigh_all :
      Fleet
      → Placing
      → F
      → List Host
      → Option Candidate
      → List (String × Rejection)
      → Result (Option Candidate × List (String × Rejection))
  weigh_all fleet want ratio [] best reasons = ok (best, reasons)
  weigh_all fleet want ratio (h ∷ hosts) best reasons = weigh_host fleet h want ratio >>= λ verdict.
      elim verdict [
        | eligible weight ↦ weigh_all fleet want ratio hosts (better (weight, h) best) reasons
        | rejected reason ↦ weigh_all fleet want ratio hosts best (reasons ++ (h.name, reason) ∷ [])
      ]

  unfoldable pub choose_host : Fleet → Placing → F → Result Host
  choose_host fleet want ratio =
      weigh_all fleet want ratio (select takes_new fleet.hosts) none [] >>= λ (best, reasons).
      elim best [ some (_, host) ↦ ok host | none ↦ err (no_placement reasons) ]

-- ===== src/Lifecycle/Manager.antt =====
-- crates/lifecycle/src/manager.rs and lib.rs: what the manager works on. Its store is the model of
-- crates/store; the machines, which it reaches through a hypervisor and a fleet, are a state of their own,
-- with an operation for each call. A call that fails may have changed its machine, so it gives a state in
-- any case. Messages and log lines are left out.
use bento.Shared.{List, ◌≡◌, refl, sym, subst, arith, ℕ, Bool, true, false, String, Option}
use bento.Shared.Int.{ℤ, int_eq}
use bento.Shared.Result.{Result, ok, err}
use bento.Types.{Instance, State, Capacity}
use bento.Network.Error.{Error as NetworkError}
use bento.Network.Prefix.{Ipv4Prefix}
use bento.Store.Database.{Database, Backend, Result as StoreResult, Error as StoreError}

pub data Error : Type 0 where
  operation dependency nested_unavailable no_image_version fleet_image_not_ready : Error
  disk_shrink : (stored requested : ℕ) → Error
  rename_needs_stop : State → Error
  no_slot_for_host : (host_id : ℤ) → Error
  caused : StoreError → Error
  network : NetworkError → Error

pub data StopResult : Type 0 where
  graceful forced : StopResult

-- The outcome of a call that undefines a domain, and of one that asks for its state.
pub data Removal : Type 0 where
  removed domain_not_found failed : Removal

pub data DomainState : Type 0 where
  in_state : State → DomainState
  domain_not_found failed : DomainState

-- What cloud-init gets for a new guest. The program writes the addresses out as texts.
pub record Seed : Type 0 where
  pub instance_id : String
  pub hostname : String
  pub user_name : String
  pub authorized_keys : List String
  pub mac : String
  pub address : Ipv4Prefix
  pub gateway : ℕ
  pub dns : ℕ
  pub install_guest_agent : Bool

pub record ProvisionSpec : Type 0 where
  pub host_id : ℤ
  pub instance : Instance
  pub network : String
  pub seed : Seed
  pub with_seed_iso : Bool
  pub start : Bool

-- The calls of `Hypervisor`, `Fleet`, `OverlayResizer` and the definer, on the machine of a host id.
pub record Machines (M : Type 0) : Type 0 where
  pub reaches : M → ℤ → Bool
  pub nested : M → Bool
  pub capacity : M → ℤ → Option Capacity
  pub start : ℤ → (name : String) → M → M × Bool
  pub stop : ℤ → (name : String) → M → M × Option StopResult
  pub reboot : ℤ → (name : String) → M → M × Bool
  pub remove : ℤ → (name : String) → M → M × Removal
  pub domain_state : ℤ → (name : String) → M → DomainState
  pub provision : ProvisionSpec → M → M × Option State
  pub deprovision : Instance → M → M
  pub grow_disk : Instance → (disk_gib : ℕ) → M → M × Bool
  pub renders : Instance → M → Bool
  pub define : Instance → M → M × Bool
  pub redefine : Instance → (network : String) → (previous_name : Option String) → M → M × Bool

-- The calls of the store that write. What SQLite does is a matter of each call.
pub data Call : Type 0 where
  on_create on_delete on_desired on_observed on_check on_resize on_rename on_unwind : Call

-- The settings of a manager. The network of an owner is read from the users' table.
pub record Manager (M : Type 0) : Type 0 where
  pub host_id : ℤ
  pub has_definer : Bool
  pub cooldown : ℕ
  pub backend : Call → Backend
  pub machines : Machines M
  pub network_of : ℤ → Option String

pub record World (M : Type 0) : Type 0 where
  pub db : Database
  pub machines : M

-- A step of an action: what it leaves behind stays, whether it succeeds or not.
abbrev pub Step : (M A : Type 0) → Type 0
Step M A = World M → World M × Result Error A

-- The error of the store is kept as the cause.
unfoldable pub external : {A : Type 0} → StoreResult A → Result Error A
external (StoreResult.ok a) = ok a
external (StoreResult.err e) = err (caused e)

module _ {M : Type 0} where
  abbrev pub return : {A : Type 0} → A → Step M A
  return a w = (w, ok a)

  abbrev pub fail : {A : Type 0} → Error → Step M A
  fail e w = (w, err e)

  unfoldable pub after :
      {A B : Type 0} → World M × Result Error A → (A → Step M B) → World M × Result Error B
  after (w, err e) next = (w, err e)
  after (w, ok a) next = next a w

  infixl 5 ◌>>=◌
  abbrev pub ◌>>=◌ : {A B : Type 0} → Step M A → (A → Step M B) → Step M B
  ◌>>=◌ step next w = after (step w) next

  unfoldable pub store_read : {A : Type 0} → (Database → StoreResult A) → Step M A
  store_read read w = (w, external (read w.db))

  unfoldable pub store_call : {A : Type 0} → (Database → Database × StoreResult A) → Step M A
  store_call write w = let (db, r) = write w.db in (record w { db = db }, external r)

  unfoldable pub machine_call : {A : Type 0} → (M → M × A) → Step M A
  machine_call call w = let (m, a) = call w.machines in (record w { machines = m }, ok a)

  unfoldable pub require : Error → Bool → Step M (Unit {0})
  require e true w = (w, ok tt)
  require e false w = (w, err e)

  -- What holds where the first step stops, and of what the rest leaves, holds at the end.
  pub after-keeps {κ} :
      {A B : Type 0} (P : World M → Type κ) (first : World M × Result Error A) (next : A → Step M B)
      → ((e : Error) → first.1 ≡ err e → P first.0)
      → ((a : A) → first.1 ≡ ok a → P (next a first.0).0)
      → P (after first next).0
  unfolding after
  after-keeps P (w, err e) next stops goes = stops e refl
  after-keeps P (w, ok a) next stops goes = goes a refl

  -- What holds of either way through a chain holds of it.
  pub after-both {κ} :
      {A B : Type 0} (Q : World M × Result Error B → Type κ) (first : World M × Result Error A)
      (next : A → Step M B)
      → ((e : Error) → first.1 ≡ err e → Q (first.0, err e))
      → ((a : A) → first.1 ≡ ok a → Q (next a first.0))
      → Q (after first next)
  unfolding after
  after-both Q (w, err e) next stops goes = stops e refl
  after-both Q (w, ok a) next stops goes = goes a refl

  -- The same, where the first step changes nothing.
  pub after-reads {κ} :
      {A B : Type 0} (P : World M → Type κ) (w : World M) (first : World M × Result Error A)
      (next : A → Step M B)
      → first.0 ≡ w
      → P w
      → ((a : A) → first.1 ≡ ok a → P (next a w).0)
      → P (after first next).0
  after-reads P w first next same stops goes =
      after-keeps P first next (λ e _. subst P (sym same) stops)
        (λ a done. subst (λ v. P (next a v).0) (sym same) (goes a done))

  -- A chain that succeeds goes through its first step.
  pub after-done {κ} :
      {A B : Type 0} (P : World M → Type κ) (first : World M × Result Error A) (next : A → Step M B)
      {b : B}
      → (after first next).1 ≡ ok b
      → ((a : A) → first.1 ≡ ok a → (next a first.0).1 ≡ ok b → P (next a first.0).0)
      → P (after first next).0
  unfolding after
  after-done P (w, err e) next h goes = cc
  after-done P (w, ok a) next h goes = goes a refl h

pub external-ok :
    {A : Type 0} (r : StoreResult A) {a : A} → external r ≡ ok a → r ≡ StoreResult.ok a
unfolding external
external-ok (StoreResult.ok b) h = ground (arith, h)
external-ok (StoreResult.err e) h = cc

pub require-ok :
    {M : Type 0} (e : Error) (b : Bool) (w : World M) {u : Unit {0}}
    → (require e b w).1 ≡ ok u
    → b ≡ true
unfolding require
require-ok e true w h = refl
require-ok e false w h = cc

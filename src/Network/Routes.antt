-- ===== src/Network/Routes.antt =====
-- crates/network/src/routes.rs: converging the routes to remote guest slots. The `ip` command that the
-- route applier runs is not the repository's code: the kernel's table and the three calls on it are a
-- parameter, `Applier`, with what `ip route show`, `ip route replace` and `ip route del` do.
pub mod Converge
pub mod Repeat
use bento.Shared.{
  ℕ, ◌+◌, suc, Bool, true, false, ◌&&◌, ◌||◌, not, if◌then◌else◌, leb, nat_beq, ◌≡◌, ◌↔◌, List, [],
  ◌∷◌, ◌++◌, Option, none, some, Eq, ◌==◌, contains, arith,
}
use bento.Network.Error.{Error, invalid, not_slot_prefix, apply, Result, ok, err, ◌>>=◌, ◌>>◌}
use bento.Network.Prefix.{Ipv4Prefix}

pub record Route : Type 0 where
  pub destination : Ipv4Prefix
  pub next_hop : ℕ

abbrev pub prefix_beq : Ipv4Prefix → Ipv4Prefix → Bool
prefix_beq a b = nat_beq a.addr b.addr && nat_beq a.bits b.bits

abbrev pub route_beq : Route → Route → Bool
route_beq a b = prefix_beq a.destination b.destination && nat_beq a.next_hop b.next_hop

pub route_beq_iff : (a b : Route) → (route_beq a b ≡ true) ↔ (a ≡ b)
route_beq_iff a b = ground arith

instance abbrev pub route_eq : Eq Route
route_eq = record { same = route_beq; same_iff = route_beq_iff }

-- A call answers `none` where the command fails.
pub record Applier : Type 1 where
  pub Kernel : Type 0
  pub installed : Kernel → Option (List Route)
  pub add : Route → Kernel → Option Kernel
  pub remove : Route → Kernel → Option Kernel

-- The documented effect of the calls that succeed, on the routes that a later `installed` lists:
-- `ip route replace` leaves one route to the destination, and `ip route del` takes one route away. Which routes are
-- listed at all is the applier's matter: the repository's lists those inside the private range.
pub record IsRouteTable (a : Applier) : Type 0 where
  pub shows : a.Kernel → List Route
  pub manages : Route → Bool
  pub installed_shows : (k : a.Kernel) (rs : List Route) → a.installed k ≡ some rs → rs ≡ shows k
  pub add_shows :
      (r : Route) (k k' : a.Kernel)
      → manages r ≡ true
      → a.add r k ≡ some k'
      → (x : Route)
      → contains (shows k') x
        ≡ ((r == x) || (contains (shows k) x && not (prefix_beq r.destination x.destination)))
  pub remove_shows :
      (r : Route) (k k' : a.Kernel)
      → a.remove r k ≡ some k'
      → (x : Route) → contains (shows k') x ≡ (contains (shows k) x && not (r == x))

pub record Converged : Type 0 where
  pub added : List Route
  pub removed : List Route
  pub unchanged : ℕ

-- `unique`: an element stays unless it stands among the ones before it.
unfoldable pub unique_after : List Route → List Route → List Route
unique_after seen [] = []
unique_after seen (r ∷ rs) =
    let rest = unique_after (seen ++ (r ∷ [])) rs in if contains seen r then rest else r ∷ rest

unfoldable pub unique : List Route → List Route
unfolding unique_after
unique = unique_after []

-- The first loop of `converge`: every destination is a runner-slot prefix.
unfoldable pub check_desired : List Route → Result (Unit {0})
check_desired [] = ok tt
check_desired (r ∷ rs) =
    if leb 24 r.destination.bits && leb r.destination.bits 27
    then check_desired rs
    else err (invalid (not_slot_prefix r.destination))

module _ (a : Applier) where
  open a use {Kernel, installed, add, remove}

  -- `applier.call(…).await.map_err(Error::Apply)?`
  abbrev pub try {ℓ} : {A : Type ℓ} → Option A → Result A
  try none = err apply
  try (some x) = ok x

  unfoldable pub remove_stale :
      List Route → List Route → Converged → Kernel → Result (Converged × Kernel)
  remove_stale desired [] c k = ok (c, k)
  remove_stale desired (r ∷ rs) c k =
      let next = λ (k' : Kernel).
        remove_stale desired rs (record c { removed = c.removed ++ (r ∷ []) }) k' in
      let rest = remove_stale desired rs c k in
      if not (contains desired r) then try (remove r k) >>= next else rest

  unfoldable pub add_missing :
      List Route → List Route → Converged → Kernel → Result (Converged × Kernel)
  add_missing had [] c k = ok (c, k)
  add_missing had (r ∷ rs) c k =
      let next =
        λ (k' : Kernel). add_missing had rs (record c { added = c.added ++ (r ∷ []) }) k' in
      let rest = add_missing had rs (record c { unchanged = c.unchanged + 1 }) k in
      if contains had r then rest else try (add r k) >>= next

  unfoldable pub converge : List Route → Kernel → Result (Converged × Kernel)
  unfolding check_desired unique
  converge desired k = do
    check_desired desired
    had ← try (installed k)
    (c, k') ←
        remove_stale desired (unique had) (record { added = []; removed = []; unchanged = 0 }) k
    add_missing had (unique desired) c k'

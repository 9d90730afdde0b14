-- ===== src/Store/Hosts/Placing/Choice.antt =====
-- Which host `choose_host` answers (crates/store/src/runners.rs).
use mathlib.Core.List.{Memᴰ}
use bento.Shared.{
  ◌≡◌, subst, arith, String, List, [], none, string_eq, select, inl, inr, Option-cases,
}
use bento.Shared.Int.{int_eq}
use bento.Types.{Host, Placing}
use bento.Store.Database.{Result-cases, ok, err, Rejection, no_placement}
use bento.Store.Hosts.{Fleet}
use bento.Store.Hosts.Placing.{Float, rejected, takes_new, weigh_host, weigh_all, choose_host}
use bento.Store.Hosts.Placing.Eligible.{HasRoom, load}
use bento.Store.Hosts.Placing.Order.{Lower}
use bento.Store.Hosts.Placing.Loop.{weigh_all-rejects, weigh_all-err}

module _ {F : Type 0} (float : Float F) (fleet : Fleet) (want : Placing) (ratio : F) where
  -- The answer is a host that takes new instances and has room for this one, and none that has room too is lower: by
  -- the share of its memory that would be taken, then by that of its processors, then by its id.
  pub record IsChosen (host : Host) : Type 0 where
    pub listed : Memᴰ host (select takes_new fleet.hosts)
    pub room : HasRoom float fleet want ratio host
    pub lowest :
        (h : Host) (other : HasRoom float fleet want ratio h)
        → Memᴰ h (select takes_new fleet.hosts)
        → ¬ Lower float
            (load float fleet want ratio h other, h)
            (load float fleet want ratio host room, host)

  -- When the program finds no place, every host that takes new instances has been turned down, and the refusal
  -- says of each of them why.
  pub choose_host-no_placement :
      {reasons : List (String × Rejection)}
      → choose_host float fleet want ratio ≡ err (no_placement reasons)
      → (h : Host) → Memᴰ h (select takes_new fleet.hosts)
      → (reason : Rejection) × (weigh_host float fleet h want ratio ≡ ok (rejected reason))
        × Memᴰ (h.name, reason) reasons
  unfolding choose_host
  choose_host-no_placement {reasons} e h listed =
      let hosts = select takes_new fleet.hosts in
      elim (Result-cases (weigh_all float fleet want ratio hosts none [])) [
        | inl (x, failed) ↦
            absurd
              (ground (arith, failed, weigh_all-err float fleet want ratio hosts none [] failed, e))
        | inr ((best, reasons'), run) ↦ elim (Option-cases best) [
          | inl nobody ↦
              let whole : weigh_all float fleet want ratio hosts none [] ≡ ok (none, reasons') =
                rw nobody at run in
              let same : reasons' ≡ reasons = ground (arith, whole, e) in
              let (_, _, each) =
                weigh_all-rejects float fleet want ratio hosts none [] reasons' whole in
              let (reason, out, named) = each h listed in
              (reason, out, subst (Memᴰ (h.name, reason)) same named)
          | inr ((w, g), found) ↦ absurd (ground (arith, found, run, e))
        ]
      ]

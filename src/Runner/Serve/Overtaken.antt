-- ===== src/Runner/Serve/Overtaken.antt =====
-- The accepted epoch over histories of `serve_one` (crates/runner/src/lib.rs).
use bento.Shared.{
  true, ◌≡◌, inl, inr, refl, ap, arith, Option, some, none, String, string_eq, List, [], ◌∷◌,
}
use bento.Shared.Int.{ltb_ℤ, ◌≤ℤ◌, int_eq}
use bento.Runner.Protocol.{mutates}
use bento.Runner.Reply.{Reply}
use bento.Runner.Fence.{Fence, Admission, allowed, already_done, refused, admit}
use bento.Runner.Fence.Growth.{admit_as-Grows, admit_as-stale_epoch}
use bento.Runner.Serve.{Host, Runner, decide, serve_one}
use bento.Runner.Serve.Once.{Arrival, serve, serve_all, serve-machine, act-Writes}

module _ {N S : Type 0} (host : Host N S) (to_json : Reply → Option String) (fence : Fence) where
  decide-epoch :
      (a : Arrival N S) (admission : Option Admission) (r : Runner host to_json)
      → (decide host to_json a.db a.envelope admission r).0.tables.epoch ≡ r.tables.epoch
  unfolding decide
  decide-epoch a none r = refl
  decide-epoch a (some (refused refusal)) r = refl
  decide-epoch a (some (already_done text)) r = refl
  decide-epoch a (some allowed) r = elim (act-Writes host to_json fence a.db a.envelope r) [
    | inl same ↦ ap (λ t. t.epoch) same
    | inr (_, _, written) ↦ ap (λ t. t.epoch) written
  ]

  serve-epoch :
      (a : Arrival N S) (r : Runner host to_json)
      → r.tables.epoch ≤ℤ (serve host to_json fence a r).tables.epoch
  unfolding serve_one admit
  serve-epoch a r =
      let grown =
        (admit_as-Grows a.db fence a.now a.envelope (mutates a.envelope.op) r.tables).epoch in
      ground (
        arith,
        grown,
        decide-epoch a (admit a.db fence a.now a.envelope r.tables).1
            (record r { tables = (admit a.db fence a.now a.envelope r.tables).0 }),
      )

  serve_all-epoch :
      (history : List (Arrival N S)) (r : Runner host to_json)
      → r.tables.epoch ≤ℤ (serve_all host to_json fence history r).tables.epoch
  unfolding serve_all
  serve_all-epoch [] r = ground arith
  serve_all-epoch (a ∷ rest) r =
      ground (arith, serve-epoch a r, serve_all-epoch rest (serve host to_json fence a r))

  -- Whatever requests come before it, a request with an epoch below the one that the runner had
  -- accepted leaves the machine as it is.
  pub serve_all-stale_epoch :
      (r : Runner host to_json) (history : List (Arrival N S)) (a : Arrival N S)
      → ltb_ℤ a.envelope.epoch r.tables.epoch ≡ true
      → (serve host to_json fence a (serve_all host to_json fence history r)).machine
        ≡ (serve_all host to_json fence history r).machine
  unfolding admit
  serve_all-stale_epoch r history a stale =
      let risen = serve_all-epoch history r in
      serve-machine host to_json fence a (serve_all host to_json fence history r) (
        admit_as-stale_epoch a.db fence a.now a.envelope (mutates a.envelope.op)
          (serve_all host to_json fence history r).tables (ground (arith, risen, stale)))

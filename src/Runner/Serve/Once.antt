-- ===== src/Runner/Serve/Once.antt =====
-- The recorded outcomes over histories of `serve_one` (crates/runner/src/lib.rs).
use bento.Shared.{
  ℕ, true, ◌≡◌, ◌≢◌, ◌⊎◌, inl, inr, refl, ap, subst, ◌∙◌, arith, Option, some, none, String,
  string_eq, ==_iff, Option-cases, Bool-cases, List, [], ◌∷◌,
}
use bento.Shared.Int.{int_eq}
use bento.Runner.Protocol.{Envelope, mutates}
use bento.Runner.Reply.{Reply}
use bento.Runner.Store.{
  Tables, Sqlite, Statement, record_outcome, outcome, object_generation, accepted_epoch,
}
use bento.Shared.Rows.{row, put, row-put}
use bento.Runner.Fence.{
  Fence, Admission, allowed, already_done, refused, admit, admit_as, admit_epoch, admit_object,
  admit_change,
}
use bento.Runner.Fence.Growth.{admit_as-Grows}
use bento.Runner.Serve.{Host, Outcome, done, Runner, run, answer, act, decide, serve_one}

-- One request that arrived: what SQLite does for it, the clock, and the envelope.
pub record Arrival (N S : Type 0) : Type 0 where
  pub db : Sqlite
  pub now : ℕ
  pub envelope : Envelope N S

-- A recorded outcome answers every later change under its request id.
admit-recorded :
    (db : Sqlite) {N S : Type 0} (fence : Fence) (now : ℕ) (e : Envelope N S) (t : Tables)
    {text : String}
    → row e.request_id t.outcomes ≡ some text
    → mutates e.op ≡ true
    → (admit db fence now e t).1 ≢ some allowed
unfolding admit admit_as admit_epoch accepted_epoch admit_object object_generation admit_change
    outcome
admit-recorded db fence now e t found change h = ground arith

module _ {N S : Type 0} (host : Host N S) (to_json : Reply → Option String) (fence : Fence) where
  abbrev pub serve : Arrival N S → Runner host to_json → Runner host to_json
  serve a r = (serve_one host to_json a.db fence a.now a.envelope r).0

  -- The requests of a history, one after the other.
  unfoldable pub serve_all : List (Arrival N S) → Runner host to_json → Runner host to_json
  serve_all [] r = r
  serve_all (a ∷ rest) r = serve_all rest (serve a r)

  -- Without permission the machine is not touched.
  decide-machine :
      (db : Sqlite) (e : Envelope N S) (admission : Option Admission) (r : Runner host to_json)
      → admission ≢ some allowed
      → (decide host to_json db e admission r).0 ≡ r
  unfolding decide
  decide-machine db e none r h = refl
  decide-machine db e (some (refused refusal)) r h = refl
  decide-machine db e (some (already_done text)) r h = refl
  decide-machine db e (some allowed) r h = absurd (h refl)

  pub serve-machine :
      (a : Arrival N S) (r : Runner host to_json)
      → (admit a.db fence a.now a.envelope r.tables).1 ≢ some allowed
      → (serve a r).machine ≡ r.machine
  unfolding serve_one
  serve-machine a r h = ap (λ q. q.machine) (decide-machine a.db a.envelope _ _ h)

  -- Acting keeps the tables, or writes the outcome of the request into them.
  abbrev Writes : Envelope N S → Tables → Tables → Type 0
  Writes e t t' =
      (t' ≡ t)
      ⊎ ((mutates e.op ≡ true)
          × (text : String) × (t' ≡ record t { outcomes = put e.request_id text t.outcomes }))

  answer-Writes :
      (db : Sqlite) (e : Envelope N S) (reply : Reply) (r : Runner host to_json)
      → Writes e r.tables (answer host to_json db e reply r).0.tables
  unfolding answer record_outcome
  answer-Writes db e reply r = elim (Option-cases (to_json reply)) [
    | inl silent ↦ inl (ground (arith, silent))
    | inr (text, said) ↦ elim (Bool-cases (mutates e.op)) [
      | inr reads ↦ inl (ground (arith, reads))
      | inl change ↦ elim (Bool-cases (db Statement.writes_outcome)) [
        | inr fails ↦ inl (ground (arith, said, fails))
        | inl writes ↦ inr (change, text, ground (arith, said, writes, change))
      ]
    ]
  ]

  pub act-Writes :
      (db : Sqlite) (e : Envelope N S) (r : Runner host to_json)
      → Writes e r.tables (act host to_json db e r).0.tables
  unfolding act
  act-Writes db e r = elim (Option-cases (run host to_json e.op r.machine).1) [
    | inl fails ↦ inl (ground (arith, fails))
    | inr (reply, said) ↦
        let ran : Runner host to_json = record r {
          machine = (run host to_json e.op r.machine).0;
        } in
        let path : answer host to_json db e reply ran ≡ act host to_json db e r =
          ground (arith, said) in
        subst (λ (q : Runner host to_json × Option Outcome). Writes e r.tables q.0.tables) path
          (answer-Writes db e reply ran)
  ]

  -- A request that was let through has no outcome yet, so no recorded outcome is replaced.
  Writes-row :
      (e : Envelope N S) (t t' : Tables) (id : String) {text : String}
      → Writes e t t'
      → (mutates e.op ≡ true → row e.request_id t.outcomes ≡ none)
      → row id t.outcomes ≡ some text
      → row id t'.outcomes ≡ some text
  Writes-row e t t' id (inl same) new found = rw same found
  Writes-row e t t' id (inr (change, text, written)) new found =
      rw written (
        ground (arith, row-put id e.request_id text t.outcomes, ==_iff e.request_id id, new change))

  admit-outcomes :
      (a : Arrival N S) (t : Tables) → (admit a.db fence a.now a.envelope t).0.outcomes ≡ t.outcomes
  unfolding admit
  admit-outcomes a t =
      (admit_as-Grows a.db fence a.now a.envelope (mutates a.envelope.op) t).outcomes

  admit-new :
      (a : Arrival N S) (t : Tables)
      → (admit a.db fence a.now a.envelope t).1 ≡ some allowed
      → mutates a.envelope.op ≡ true
      → row a.envelope.request_id t.outcomes ≡ none
  admit-new a t granted change = elim (Option-cases (row a.envelope.request_id t.outcomes)) [
    | inl new ↦ new
    | inr (text, found) ↦ absurd (admit-recorded a.db fence a.now a.envelope t found change granted)
  ]

  decide-row :
      (a : Arrival N S) (admission : Option Admission) (r : Runner host to_json) (id : String)
      {text : String}
      → (admission ≡ some allowed
          → mutates a.envelope.op ≡ true
          → row a.envelope.request_id r.tables.outcomes ≡ none)
      → row id r.tables.outcomes ≡ some text
      → row id (decide host to_json a.db a.envelope admission r).0.tables.outcomes ≡ some text
  unfolding decide
  decide-row a none r id new found = found
  decide-row a (some (refused refusal)) r id new found = found
  decide-row a (some (already_done answer')) r id new found = found
  decide-row a (some allowed) r id new found =
      Writes-row a.envelope r.tables _ id (act-Writes a.db a.envelope r) (new refl) found

  -- What a request did stays on record.
  pub serve-outcomes :
      (a : Arrival N S) (r : Runner host to_json) (id : String) {text : String}
      → row id r.tables.outcomes ≡ some text
      → row id (serve a r).tables.outcomes ≡ some text
  unfolding serve_one
  serve-outcomes a r id found =
      let same = admit-outcomes a r.tables in
      decide-row a (admit a.db fence a.now a.envelope r.tables).1 _ id
        (λ granted change. rw same (admit-new a r.tables granted change)) (rw same found)

  serve_all-outcomes :
      (history : List (Arrival N S)) (r : Runner host to_json) (id : String) {text : String}
      → row id r.tables.outcomes ≡ some text
      → row id (serve_all history r).tables.outcomes ≡ some text
  unfolding serve_all
  serve_all-outcomes [] r id found = found
  serve_all-outcomes (a ∷ rest) r id found =
      serve_all-outcomes rest (serve a r) id (serve-outcomes a r id found)

  -- The text of the reply is the outcome on record for the request.
  abbrev pub IsRecorded : Envelope N S → Reply → Runner host to_json → Type 0
  IsRecorded e said r =
      (text : String) × (to_json said ≡ some text)
      × (row e.request_id r.tables.outcomes ≡ some text)

  answer-done :
      (db : Sqlite) (e : Envelope N S) (reply : Reply) (r : Runner host to_json) {said : Reply}
      → (answer host to_json db e reply r).1 ≡ some (done said)
      → mutates e.op ≡ true
      → IsRecorded e said (answer host to_json db e reply r).0
  unfolding answer record_outcome
  answer-done db e reply r h change = elim (Option-cases (to_json reply)) [
    | inl silent ↦ absurd (ground (arith, silent))
    | inr (text, written) ↦ elim (Bool-cases (db Statement.writes_outcome)) [
      | inr fails ↦ absurd (ground (arith, written, fails))
      | inl writes ↦ (
        text,
        ground (arith, written, writes, h),
        ground (
          arith,
          written,
          writes,
          row-put e.request_id e.request_id text r.tables.outcomes,
          ==_iff e.request_id e.request_id,
        ),
      )
    ]
  ]

  act-done :
      (db : Sqlite) (e : Envelope N S) (r : Runner host to_json) {said : Reply}
      → (act host to_json db e r).1 ≡ some (done said)
      → mutates e.op ≡ true
      → IsRecorded e said (act host to_json db e r).0
  unfolding act
  act-done db e r {said} h change = elim (Option-cases (run host to_json e.op r.machine).1) [
    | inl fails ↦ absurd (ground (arith, fails))
    | inr (reply, replied) ↦
        let ran : Runner host to_json = record r {
          machine = (run host to_json e.op r.machine).0;
        } in
        let path : answer host to_json db e reply ran ≡ act host to_json db e r =
          ground (arith, replied) in
        subst (λ (q : Runner host to_json × Option Outcome). IsRecorded e said q.0) path
          (answer-done db e reply ran (ap (λ p. p.1) path ∙ h) change)
  ]

  decide-done :
      (db : Sqlite) (e : Envelope N S) (admission : Option Admission) (r : Runner host to_json)
      {said : Reply}
      → (decide host to_json db e admission r).1 ≡ some (done said)
      → mutates e.op ≡ true
      → IsRecorded e said (decide host to_json db e admission r).0
  unfolding decide
  decide-done db e none r h change = absurd (ground arith)
  decide-done db e (some (refused refusal)) r h change = absurd (ground arith)
  decide-done db e (some (already_done text)) r h change = absurd (ground arith)
  decide-done db e (some allowed) r h change = act-done db e r h change

  -- A change that was answered `done` has an outcome on record under its request id, which is the text of that
  -- answer.
  pub serve_one-done-IsRecorded :
      (a : Arrival N S) (r : Runner host to_json) {reply : Reply}
      → (serve_one host to_json a.db fence a.now a.envelope r).1 ≡ some (done reply)
      → mutates a.envelope.op ≡ true
      → IsRecorded a.envelope reply (serve a r)
  unfolding serve_one
  serve_one-done-IsRecorded a r said change =
      decide-done a.db a.envelope (admit a.db fence a.now a.envelope r.tables).1 _ said change

  -- Once the outcome of a request is on record, and whatever requests come after it, a change that comes
  -- under the same request id leaves the machine as it is.
  pub serve_all-once :
      (r : Runner host to_json) (history : List (Arrival N S)) (a : Arrival N S) {text : String}
      → row a.envelope.request_id r.tables.outcomes ≡ some text
      → mutates a.envelope.op ≡ true
      → (serve a (serve_all history r)).machine ≡ (serve_all history r).machine
  unfolding serve_all
  serve_all-once r history a found change = serve-machine a (serve_all history r) (
      admit-recorded a.db fence a.now a.envelope (serve_all history r).tables
        (serve_all-outcomes history r a.envelope.request_id found) change)

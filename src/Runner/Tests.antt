-- ===== src/Runner/Tests.antt =====
-- The theorems on the runner at a concrete host, fence and request.
use bento.Shared.{ℕ, ◌+◌, ◌≡◌, refl, true, String, [], ◌∷◌, Option, none, some, string_eq}
use bento.Shared.Int.{pos}
use bento.Types.{State}
use bento.Runner.Protocol.{Envelope, ObjectFence, Operation, InstanceRef, mutates}
use bento.Runner.Reply.{Reply, changed}
use bento.Runner.Store.{
  Tables, Sqlite, newer, accepted_epoch, accept_epoch, outcome, object_generation, accept_object,
  record_outcome,
}
use bento.Shared.Rows.{row, put}
use bento.Runner.Fence.{
  Fence, default_max_skew, skew_seconds, unsigned_abs, check_generation, check_lease, check_address,
  admit_change, admit_object, admit_epoch, admit_as, admit, finish,
}
use bento.Runner.Fence.Changes.{IsAdmitted, admit_as-IsAdmitted}
use bento.Runner.Serve.{Host, Runner, run, answer, act, decide, serve_one}
use bento.Runner.Serve.Once.{
  IsRecorded, Arrival, serve, serve_all, serve_all-once, serve_one-done-IsRecorded,
}
use bento.Runner.Serve.Overtaken.{serve_all-stale_epoch}

-- A host that counts the calls that change it, and does nothing else.
abbrev counting : Host (Unit {0}) (Unit {0})
counting = record {
  Machine = ℕ;
  read_health = λ m. (m, none);
  read_capabilities = λ m. (m, none);
  read_inventory = λ m. (m, none);
  read_sample = λ m. (m, none);
  ensure_image = λ _ m. (m + 1, none);
  apply_network = λ _ m. (m + 1, none);
  provision = λ _ m. (m + 1, none);
  start = λ _ m. (m + 1, some State.running);
  stop = λ _ m. (m + 1, some State.stopped);
  reboot = λ _ m. (m + 1, some State.running);
  remove = λ _ m. (m + 1, some State.stopped);
  redefine = λ _ m. (m + 1, some State.stopped);
  resize_disk = λ _ _ m. (m + 1, some State.stopped);
}

abbrev to_text : Reply → Option String
to_text _ = some "changed"

abbrev sound : Sqlite
sound _ = true

abbrev fence : Fence
fence = record { machine_id = "m1"; max_skew = default_max_skew }

abbrev web : InstanceRef
web = record { uuid = "u1"; name = "web" }

abbrev web_order : ObjectFence
web_order = record { object_id = "u1"; generation = pos 7; digest = "d" }

abbrev start_web : Envelope (Unit {0}) (Unit {0})
start_web = record {
  protocol = 1;
  target_machine_id = some "m1";
  epoch = pos 3;
  holder_id = "c1";
  lease_expires_at = 100;
  sent_at = 40;
  request_id = "r1";
  object = some web_order;
  op = Operation.start_instance web;
}

abbrev look : Envelope (Unit {0}) (Unit {0})
look = record start_web { op = Operation.health; object = none }

-- The epoch of a controller that came later.
abbrev empty_tables : Tables
empty_tables = record { epoch = pos 0; generations = []; outcomes = [] }

abbrev later : Tables
later = record empty_tables { epoch = pos 4 }

abbrev idle : Runner counting to_text
idle = record { tables = empty_tables; machine = 0 }

abbrev arrival : Arrival (Unit {0}) (Unit {0})
arrival = record { db = sound; now = 50; envelope = start_web }

abbrev answered : Runner counting to_text
answered = record idle { tables = record empty_tables { outcomes = ("r1", "changed") ∷ [] } }

serve_all-once_example :
    (serve counting to_text fence arrival
      (serve_all counting to_text fence (arrival ∷ []) answered)).machine
    ≡ (serve_all counting to_text fence (arrival ∷ []) answered).machine
unfolding row mutates
serve_all-once_example =
    serve_all-once counting to_text fence answered (arrival ∷ []) arrival {text = "changed"} refl
      refl

serve_one-done-IsRecorded_example :
    IsRecorded counting to_text fence arrival.envelope
      (changed State.running)
      (serve counting to_text fence arrival idle)
unfolding serve_one admit admit_as admit_epoch admit_object admit_change accepted_epoch accept_epoch
    outcome object_generation accept_object record_outcome row put newer check_address check_lease
    check_generation skew_seconds unsigned_abs mutates decide act answer run finish
serve_one-done-IsRecorded_example =
    serve_one-done-IsRecorded counting to_text fence arrival idle {reply = changed State.running}
      refl refl

serve_all-stale_epoch_example :
    (serve counting to_text fence arrival
      (serve_all counting to_text fence (arrival ∷ []) (record idle { tables = later }))).machine
    ≡ (serve_all counting to_text fence (arrival ∷ []) (record idle { tables = later })).machine
serve_all-stale_epoch_example =
    serve_all-stale_epoch counting to_text fence (record idle { tables = later }) (arrival ∷ [])
      arrival refl

admit_as-IsAdmitted_example :
    IsAdmitted fence 50 start_web empty_tables
      (admit_as sound fence 50 start_web true empty_tables).0
unfolding admit_as admit_epoch admit_object admit_change accepted_epoch accept_epoch outcome
    object_generation accept_object row put newer check_address check_lease check_generation
    skew_seconds unsigned_abs
admit_as-IsAdmitted_example = admit_as-IsAdmitted sound fence 50 start_web empty_tables refl

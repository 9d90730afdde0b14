-- ===== src/Store/Instances/Requests.antt =====
-- The keys of the rows over every request of crates/store/src/instances.rs.
use bento.Shared.{String, arith, ◌≡◌, refl, [], ◌∷◌, Bool-cases, inl, inr, ℕ}
use bento.Types.{Instance, Capacity}
use bento.Store.Database.{Database, Backend, with_tx_keeps, ok, err, Result, ◌>>=◌, >>=-eq-ok}
use bento.Store.Names.{claim_name, claim_name_tx}
use bento.Store.Instances.{
  create_instance, delete_instance, rename_instance, resize, check_resize, set_desired_state,
  set_observed_state, set_visibility, set_http_port, touch_last_seen, update_observed_states,
  get_instance_tx, check_capacity_tx, observe_states,
}
use bento.Store.Instances.Kept.{
  IsKeyed, Request, create, delete, rename, resizing, checking_resize, claiming, desired_state,
  observed_state, observed_states, visibility, http_port, last_seen, perform, KeepsKeys,
  update_instance-IsKeyed, create-IsKeyed, delete-IsKeyed, rename-IsKeyed, resize-IsKeyed,
  observe_states-IsKeyed,
}

abbrev AreKeyed : Database → Type 0
AreKeyed db = IsKeyed db.instances

abbrev fixed :
    (change : Instance → Instance)
    → ((i : Instance) → (change i).uuid ≡ i.uuid)
    → ((i : Instance) → (change i).name ≡ i.name)
    → ((i : Instance) → (change i).address ≡ i.address)
    → ((i : Instance) → (change i).mac ≡ i.mac)
    → KeepsKeys change
fixed change u n a m = record { uuid = u; name = n; address = a; mac = m }

abbrev looked : {A : Type 0} → Result A → Database → Result (Database × Unit {0})
looked m db = m >>= λ _. ok (db, tt)

-- A body that only looks gives the tables it got.
looking : {A : Type 0} (m : Result A) (db db' : Database) → looked m db ≡ ok (db', tt) → db' ≡ db
looking (ok a) db db' h = ground (arith, h)
looking (err e) db db' h = cc

check_resize-looks :
    (uuid : String) (memory disk : ℕ) (capacity : Capacity) (db db' : Database)
    → (get_instance_tx uuid db >>= λ existing.
        looked (check_capacity_tx existing.host_id uuid memory disk capacity db) db)
      ≡ ok (db', tt)
    → db' ≡ db
check_resize-looks uuid memory disk capacity db db' h =
    let (i, _, h1) = >>=-eq-ok (get_instance_tx uuid db) _ h in
    looking (check_capacity_tx i.host_id uuid memory disk capacity db) db db' h1

-- Whatever the data layer is asked, and whether or not it succeeds, if no two instances had the same UUID,
-- name, address or MAC address before, then no two have it after.
pub perform-IsKeyed :
    (b : Backend) (r : Request) (db : Database) → AreKeyed db → AreKeyed (perform b r db)
unfolding perform create_instance delete_instance rename_instance resize check_resize claim_name
    set_desired_state set_observed_state set_visibility set_http_port touch_last_seen
    update_observed_states
perform-IsKeyed b (create i cooldown capacity checked_at created_at) db h =
    with_tx_keeps AreKeyed b.commits _ db h
      (λ db' a e. create-IsKeyed b i cooldown capacity checked_at created_at db db' e h)
perform-IsKeyed b (delete uuid now) db h =
    with_tx_keeps AreKeyed b.commits _ db h (λ db' i e. delete-IsKeyed b uuid now db db' e h)
perform-IsKeyed b (rename uuid name cooldown claimed_at released_at) db h =
    with_tx_keeps AreKeyed b.commits _ db h
      (λ db' a e. rename-IsKeyed b uuid name cooldown claimed_at released_at db db' e h)
perform-IsKeyed b (resizing uuid vcpu memory disk nested capacity) db h =
    with_tx_keeps AreKeyed b.commits _ db h
      (λ db' a e. resize-IsKeyed b uuid vcpu memory disk nested capacity db db' e h)
perform-IsKeyed b (checking_resize uuid memory disk capacity) db h =
    with_tx_keeps AreKeyed b.commits _ db h (λ db' a e.
      let same : db' ≡ db = check_resize-looks uuid memory disk capacity db db' e in rw same h)
perform-IsKeyed b (claiming name user_id cooldown now) db h =
    with_tx_keeps AreKeyed b.commits _ db h (λ db' a e.
      let same : db' ≡ db = looking (claim_name_tx name user_id cooldown now db) db db' e in
      rw same h)
perform-IsKeyed b (desired_state uuid state) db h =
    update_instance-IsKeyed b uuid _ db (fixed _ (λ i. refl) (λ i. refl) (λ i. refl) (λ i. refl)) h
perform-IsKeyed b (observed_state uuid state) db h =
    update_instance-IsKeyed b uuid _ db (fixed _ (λ i. refl) (λ i. refl) (λ i. refl) (λ i. refl)) h
perform-IsKeyed b (observed_states []) db h = h
perform-IsKeyed b (observed_states (s ∷ states)) db h =
    with_tx_keeps AreKeyed b.commits _ db h (λ db' a e.
      let rows : db' ≡ record db { instances = observe_states (s ∷ states) db.instances } =
        ground (arith, e) in
      rw rows (observe_states-IsKeyed (s ∷ states) db.instances h))
perform-IsKeyed b (visibility uuid v) db h =
    update_instance-IsKeyed b uuid _ db (fixed _ (λ i. refl) (λ i. refl) (λ i. refl) (λ i. refl)) h
perform-IsKeyed b (http_port uuid port) db h =
    update_instance-IsKeyed b uuid _ db (fixed _ (λ i. refl) (λ i. refl) (λ i. refl) (λ i. refl)) h
perform-IsKeyed b (last_seen uuid now) db h = elim (Bool-cases (b.formats now)) [
  | inl written ↦
      rw (perform, touch_last_seen, written)
        (update_instance-IsKeyed b uuid _ db
          (fixed _ (λ i. refl) (λ i. refl) (λ i. refl) (λ i. refl)) h)
  | inr fails ↦ rw (perform, touch_last_seen, fails) h
]

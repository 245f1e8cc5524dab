-- ===== src/State/Database/Exclusive.antt =====
-- A second run beside an active one.
use req_pack_core.Prelude.{
  ℕ, Bool, true, nat_eq, Text, text_eq, List, [], Option, none, some, is_empty_of_ne, ◌≡◌, ◌≢◌,
  refl, Bool-cases, if_cases, inl, inr,
}
use req_pack_core.Types.{Package}
use req_pack_core.State.Records.{ActionCodes}
use req_pack_core.State.Store.{Lmdb, IsStore}
use req_pack_core.State.Database.{
  TransactionDatabase, active_run_key, has_text, init_storage, ensure_ready, now_timestamp,
  load_string, finish, open_run, create_run, name_created,
}
use req_pack_core.State.Database.Create.{create_run-Created, create_run_refused}

module _ {D : Type 0} (lmdb : Lmdb D) (actions : ActionCodes) (clock : ℕ → ℕ) where
  ensure_ready_initialized :
      (t : TransactionDatabase D)
      → (ensure_ready lmdb actions clock t).0 ≡ true
      → (ensure_ready lmdb actions clock t).1.initialized ≡ true
  unfolding ensure_ready init_storage
  ensure_ready_initialized t ready = elim (Bool-cases t.initialized) [
    | inl e ↦ rw e refl
    | inr e ↦ rw e (rw e at ready)
  ]

  -- An open database is left as it is.
  ensure_ready_open :
      (t : TransactionDatabase D)
      → t.initialized ≡ true
      → ensure_ready lmdb actions clock t ≡ (true, t)
  unfolding ensure_ready init_storage
  ensure_ready_open t e = rw e refl

  load_string_open :
      (key : Text) (t : TransactionDatabase D)
      → t.initialized ≡ true
      → lmdb.begins_read t.env ≡ true
      → load_string lmdb actions clock key t ≡ (lmdb.get t.env key, t)
  unfolding load_string
  load_string_open key t e reads = rw (ensure_ready_open t e, reads) refl

  load_string_initialized :
      (key : Text) (t : TransactionDatabase D)
      → t.initialized ≡ true
      → (load_string lmdb actions clock key t).1.initialized ≡ true
  unfolding load_string
  load_string_initialized key t e = rw (ensure_ready_open t e) (
      if_cases (λ (x : Option Text × TransactionDatabase D). x.1.initialized ≡ true)
        (lmdb.begins_read t.env) (λ h. e) (λ h. e))

  finish_initialized :
      (t : TransactionDatabase D) (o : Option D)
      → t.initialized ≡ true
      → (finish lmdb actions clock t o).1.initialized ≡ true
  unfolding finish
  finish_initialized t none e = e
  finish_initialized t (some d) e =
      if_cases (λ (x : Bool × TransactionDatabase D). x.1.initialized ≡ true) (lmdb.commits d)
        (λ h. e) (λ h. e)

  module _ (packages : List Package) (flags : List Text) where
    open_run_initialized :
        (timestamp : Text) (t : TransactionDatabase D)
        → t.initialized ≡ true
        → (open_run lmdb actions clock packages flags (timestamp, t)).1.initialized ≡ true
    unfolding open_run name_created
    open_run_initialized timestamp t e =
        if_cases (λ (x : Text × TransactionDatabase D). x.1.initialized ≡ true) (lmdb.begins t.env)
          (λ h. finish_initialized t _ e) (λ h. e)

    create_run_initialized :
        (t : TransactionDatabase D)
        → (create_run lmdb actions clock packages flags t).0 ≢ []
        → (create_run lmdb actions clock packages flags t).1.initialized ≡ true
    unfolding create_run now_timestamp
    create_run_initialized t named =
        let ready = ensure_ready lmdb actions clock t in
        elim (Bool-cases ready.0) [
          | inr shut ↦ absurd (named (rw shut refl))
          | inl up ↦
              let opened =
                load_string_initialized active_run_key ready.1 (ensure_ready_initialized t up) in
              rw up (
                if_cases (λ (x : Text × TransactionDatabase D). x.1.initialized ≡ true)
                  (has_text (load_string lmdb actions clock active_run_key ready.1).0) (λ h. opened)
                  (λ h. open_run_initialized _ _ opened))
        ]

module _ {D : Type 0} (lmdb : Lmdb D) (store : IsStore lmdb) (actions : ActionCodes) (clock : ℕ → ℕ)
    (packages : List Package) (flags : List Text) where
  active_run_taken :
      (t : TransactionDatabase D)
      → let out = create_run lmdb actions clock packages flags t in
        out.0 ≢ []
        → lmdb.begins_read out.1.env ≡ true
        → has_text
            (load_string lmdb actions clock active_run_key
              (ensure_ready lmdb actions clock out.1).1).0
          ≡ true
  active_run_taken t named reads =
      let out = create_run lmdb actions clock packages flags t in
      let open_ = create_run_initialized lmdb actions clock packages flags t named in
      rw
        (
          ensure_ready_open lmdb actions clock out.1 open_,
          load_string_open lmdb actions clock active_run_key out.1 open_ reads,
          (create_run-Created lmdb store actions clock packages flags t named).0,
          is_empty_of_ne out.0 named,
        )
        refl

  -- Behind a call that creates a run, if a read transaction can begin, a second call creates no run,
  -- whatever its packages and flags are, and changes no entry: one run is active at a time.
  pub create_run-create_run :
      (more : List Package) (more_flags : List Text) (t : TransactionDatabase D)
      → (create_run lmdb actions clock packages flags t).0 ≢ []
      → lmdb.begins_read (create_run lmdb actions clock packages flags t).1.env ≡ true
      → let first = create_run lmdb actions clock packages flags t in
        let second = create_run lmdb actions clock more more_flags first.1 in
        (second.0 ≡ []) × ((key : Text) → lmdb.get second.1.env key ≡ lmdb.get first.1.env key)
  create_run-create_run more more_flags t named reads =
      create_run_refused lmdb store actions clock more more_flags
        (create_run lmdb actions clock packages flags t).1 (active_run_taken t named reads)

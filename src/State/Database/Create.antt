-- ===== src/State/Database/Create.antt =====
-- What a new run leaves in the database.
use req_pack_core.Prelude.{
  ℕ, true, nat_eq, Text, text_eq, List, [], ◌∷◌, ◌++◌, ◌≡◌, ◌≢◌, refl, sym, ap, ◌∙◌, Bool-cases,
  inl, inr, true_ne_false,
}
use req_pack_core.Types.{Package}
use req_pack_core.State.Records.{ActionCodes}
use req_pack_core.State.Store.{Lmdb, IsStore}
use req_pack_core.State.Database.{
  TransactionDatabase, active_run_key, has_text, ensure_ready, now_timestamp, load_string, finish,
  write_run, open_run, create_run, name_created, new_run_id,
}
use req_pack_core.State.Database.Outcome.{finish-Holds, finish_unchanged}
use req_pack_core.State.Database.Frame.{get-ensure_ready, get-load_string}
use req_pack_core.State.Database.Written.{Created, write_run-Created}

module _ {D : Type 0} (lmdb : Lmdb D) (store : IsStore lmdb) (actions : ActionCodes) where
  pub append_cons-ne_nil : (s t : Text) (c : ℕ) → s ++ (c ∷ t) ≢ []
  append_cons-ne_nil [] t c = λ e. cc
  append_cons-ne_nil (a ∷ s) t c = λ e. cc

  module _ (clock : ℕ → ℕ) (packages : List Package) (flags : List Text) where
    open_run-Created :
        (timestamp : Text) (t : TransactionDatabase D)
        → (open_run lmdb actions clock packages flags (timestamp, t)).0 ≢ []
        → Created lmdb store actions clock
            (open_run lmdb actions clock packages flags (timestamp, t)).0
            packages
            flags
            (open_run lmdb actions clock packages flags (timestamp, t)).1.env
    unfolding open_run name_created
    open_run-Created timestamp t named =
        let run_id = new_run_id timestamp packages in
        let o = write_run lmdb actions clock timestamp run_id packages flags t.env in
        elim (Bool-cases (lmdb.begins t.env)) [
          | inl b ↦ elim (Bool-cases (finish lmdb actions clock t o).0) [
            | inl done ↦
                rw (b, done)
                  (finish-Holds lmdb actions clock
                    (Created lmdb store actions clock run_id packages flags) t o
                    (write_run-Created lmdb store actions clock run_id timestamp packages flags
                      t.env)
                    done)
            | inr failed ↦ elim ((rw (b, failed) at named) refl) [ ]
          ]
          | inr b ↦ elim ((rw b at named) refl) [ ]
        ]

    open_run_unchanged :
        (timestamp : Text) (t : TransactionDatabase D)
        → (open_run lmdb actions clock packages flags (timestamp, t)).0 ≡ []
        → (open_run lmdb actions clock packages flags (timestamp, t)).1 ≡ t
    unfolding open_run name_created new_run_id
    open_run_unchanged timestamp t unnamed =
        let run_id = new_run_id timestamp packages in
        let o = write_run lmdb actions clock timestamp run_id packages flags t.env in
        elim (Bool-cases (lmdb.begins t.env)) [
          | inl b ↦ elim (Bool-cases (finish lmdb actions clock t o).0) [
            | inl done ↦ elim (append_cons-ne_nil timestamp _ b'-' (rw (b, done) at unnamed)) [ ]
            | inr failed ↦ rw b (finish_unchanged lmdb actions clock t o failed)
          ]
          | inr b ↦ rw b refl
        ]

    create_run_cases :
        (t : TransactionDatabase D)
        → let out = create_run lmdb actions clock packages flags t in
          (out.0 ≢ [] → Created lmdb store actions clock out.0 packages flags out.1.env)
          × (out.0 ≡ [] → (key : Text) → lmdb.get out.1.env key ≡ lmdb.get t.env key)
          × (has_text
                  (load_string lmdb actions clock active_run_key
                    (ensure_ready lmdb actions clock t).1).0
                ≡ true
              → out.0 ≡ [])
    unfolding create_run now_timestamp
    create_run_cases t =
        let ready = ensure_ready lmdb actions clock t in
        let active = load_string lmdb actions clock active_run_key ready.1 in
        let opened = λ (key : Text). get-ensure_ready lmdb store key actions clock t in
        let read = λ (key : Text).
          get-load_string lmdb store key actions clock active_run_key ready.1 ∙ opened key in
        elim (Bool-cases ready.0) [
          | inr shut ↦ rw shut (λ named. elim (named refl) [ ], λ e key. opened key, λ h. refl)
          | inl up ↦ elim (Bool-cases (has_text active.0)) [
            | inl taken ↦
                rw (up, taken) (λ named. elim (named refl) [ ], λ e key. read key, λ h. refl)
            | inr free ↦
                rw (up, free)
                  (
                    open_run-Created _ _,
                    λ e key. ap (λ x. lmdb.get x.env key) (open_run_unchanged _ _ e) ∙ read key,
                    λ h. elim (true_ne_false (sym h)) [ ],
                  )
          ]
        ]

    -- A run that is created is the active run; it is stored as open with its flags, and under the
    -- key of each of its packages stands a planned item of the run, for a package of that key.
    pub create_run-Created :
        (t : TransactionDatabase D)
        → (create_run lmdb actions clock packages flags t).0 ≢ []
        → Created lmdb store actions clock
            (create_run lmdb actions clock packages flags t).0
            packages
            flags
            (create_run lmdb actions clock packages flags t).1.env
    create_run-Created t named = (create_run_cases t).0 named

    -- Where no run is created, no entry is changed.
    pub create_run_unchanged :
        (t : TransactionDatabase D)
        → (create_run lmdb actions clock packages flags t).0 ≡ []
        → (key : Text)
        → lmdb.get (create_run lmdb actions clock packages flags t).1.env key ≡ lmdb.get t.env key
    create_run_unchanged t e = (create_run_cases t).1 e

    -- While the key of the active run can be read and is not empty, no run is created and no entry
    -- is changed.
    pub create_run_refused :
        (t : TransactionDatabase D)
        → has_text
            (load_string lmdb actions clock active_run_key (ensure_ready lmdb actions clock t).1).0
          ≡ true
        → ((create_run lmdb actions clock packages flags t).0 ≡ [])
          × ((key : Text)
              → lmdb.get (create_run lmdb actions clock packages flags t).1.env key
                ≡ lmdb.get t.env key)
    create_run_refused t taken =
        let e = (create_run_cases t).2 taken in (e, create_run_unchanged t e)

-- ===== src/State/Database/Changes/Delete.antt =====
-- What the deletion of a run leaves in the database.
use req_pack_core.Prelude.{
  ℕ, true, ◌&&◌, ◌==◌, nat_eq, Text, text_eq, List, [], ◌∷◌, Option, none, some, ◌≡◌, ◌≢◌, refl,
  sym, ◌∙◌, Bool-cases, inl, inr, true_ne_false, beq_refl, starts_with,
}
use req_pack_core.State.Records.{ActionCodes}
use req_pack_core.State.Keys.{transaction_database_run_key, transaction_database_item_prefix}
use req_pack_core.State.Store.{Lmdb, IsStore, value_in, scan_prefix}
use req_pack_core.State.Store.Prefix.{value_in-scan_prefix}
use req_pack_core.State.Database.{
  TransactionDatabase, active_run_key, ensure_ready, load_prefixed_entries,
}
use req_pack_core.State.Database.Changes.{
  kept_or, release, release_written, names_run, delete_entries, delete_stored_run, delete_run,
}
use req_pack_core.State.Database.Changes.Commit.{Released, release-Released}
use req_pack_core.State.Database.Outcome.{
  Holds, and_then-Holds, Holds-self, Holds-step, finish-Holds,
}

module _ {D : Type 0} (lmdb : Lmdb D) (store : IsStore lmdb) (actions : ActionCodes)
    (clock : ℕ → ℕ) where
  abbrev Gone : Text → D → Type 0
  Gone key d = lmdb.get d key ≡ none

  del-Gone : (key k : Text) (d d' : D) → lmdb.del d k ≡ some d' → Gone key d → Gone key d'
  del-Gone key k d d' e h = elim (Bool-cases (k == key)) [
    | inl same ↦ rw same at (store.get-del d d' k key e)
    | inr other ↦ rw other at (store.get-del d d' k key e) ∙ h
  ]

  delete_entries-Gone_kept :
      (key : Text) (entries : List (Text × Text)) (d : D)
      → Gone key d
      → Holds (Gone key) (delete_entries lmdb actions clock entries d)
  unfolding delete_entries
  delete_entries-Gone_kept key [] d h = h
  delete_entries-Gone_kept key ((k, value) ∷ rest) d h =
      and_then-Holds (Gone key) (lmdb.del d k) (delete_entries lmdb actions clock rest)
        (λ d' e. delete_entries-Gone_kept key rest d' (del-Gone key k d d' e h))

  -- The value of the key is the one among the entries.
  delete_entries-Gone :
      (key : Text) (entries : List (Text × Text)) (d : D)
      → value_in entries key ≡ lmdb.get d key
      → Holds (Gone key) (delete_entries lmdb actions clock entries d)
  unfolding delete_entries value_in
  delete_entries-Gone key [] d h = sym h
  delete_entries-Gone key ((k, value) ∷ rest) d h =
      and_then-Holds (Gone key) (lmdb.del d k) (delete_entries lmdb actions clock rest) (λ d' e.
        elim (Bool-cases (k == key)) [
          | inl same ↦
              delete_entries-Gone_kept key rest d' (rw same at (store.get-del d d' k key e))
          | inr other ↦
              delete_entries-Gone key rest d'
                (rw other at h ∙ sym (rw other at (store.get-del d d' k key e)))
        ])

  kept_or-Gone :
      (key : Text) (d : D) (o : Option D)
      → lmdb.del d active_run_key ≡ o
      → Gone key d
      → Gone key (kept_or lmdb actions clock d o)
  unfolding kept_or
  kept_or-Gone key d none e h = h
  kept_or-Gone key d (some d') e h = del-Gone key active_run_key d d' e h

  release_written-Gone :
      (run_id key : Text) (o : Option D)
      → Holds (Gone key) o
      → Holds
          (λ d. Gone key d × Released lmdb store actions clock run_id d)
          (release_written lmdb actions clock run_id o)
  unfolding release_written release
  release_written-Gone run_id key none h = tt
  release_written-Gone run_id key (some d) h = (
    elim (Bool-cases (names_run lmdb actions clock run_id (lmdb.get d active_run_key))) [
      | inl e ↦ rw e (kept_or-Gone key d _ refl h)
      | inr e ↦ rw e h
    ],
    release-Released lmdb store actions clock run_id d,
  )

  module _ (run_id key : Text) where
    abbrev After : D → Type 0
    After d = Gone key d × Released lmdb store actions clock run_id d

    delete_stored_run-item :
        (entries : List (Text × Text)) (d : D)
        → value_in entries key ≡ lmdb.get d key
        → Holds After (delete_stored_run lmdb actions clock run_id entries d)
    unfolding delete_stored_run
    delete_stored_run-item entries d h =
        let first = delete_entries lmdb actions clock entries d in
        let run_key = transaction_database_run_key run_id in
        release_written-Gone run_id key _ (
          and_then-Holds (Gone key) first (λ d'. lmdb.del d' run_key)
            (λ d' e. Holds-self (Gone key) (lmdb.del d' run_key) (λ x f.
              del-Gone key run_key d' x f
                (Holds-step (Gone key) first (delete_entries-Gone key entries d h) d' e))))

    delete_stored_run-run :
        (entries : List (Text × Text)) (d : D)
        → key ≡ transaction_database_run_key run_id
        → Holds After (delete_stored_run lmdb actions clock run_id entries d)
    unfolding delete_stored_run
    delete_stored_run-run entries d named =
        let run_key = transaction_database_run_key run_id in
        release_written-Gone run_id key _ (
          and_then-Holds (Gone key) (delete_entries lmdb actions clock entries d)
            (λ d'. lmdb.del d' run_key)
            (λ d' e.
              Holds-self (Gone key) (lmdb.del d' run_key)
                (λ x f. rw (sym named, beq_refl key) at (store.get-del d' x run_key key f))))

  -- A database that has been opened stays open.
  ready_again :
      (t : TransactionDatabase D)
      → (ensure_ready lmdb actions clock t).0 ≡ true
      → ensure_ready lmdb actions clock (ensure_ready lmdb actions clock t).1
        ≡ (true, (ensure_ready lmdb actions clock t).1)
  unfolding ensure_ready
  ready_again t e = elim (Bool-cases t.initialized) [
    | inl open_ ↦ rw open_ refl
    | inr shut ↦ rw (shut, rw shut at e) refl
  ]

  deleted :
      (Q : D → Type 0) (run_id : Text) (t : TransactionDatabase D)
      → (let entries =
            load_prefixed_entries lmdb actions clock (transaction_database_item_prefix run_id) t in
          Holds Q (
            delete_stored_run lmdb actions clock run_id entries.0
              (ensure_ready lmdb actions clock entries.1).1.env))
      → (delete_run lmdb actions clock run_id t).0 ≡ true
      → Q (delete_run lmdb actions clock run_id t).1.env
  unfolding delete_run
  deleted Q run_id t h e =
      let entries =
        load_prefixed_entries lmdb actions clock (transaction_database_item_prefix run_id) t in
      let ready = ensure_ready lmdb actions clock entries.1 in
      let o = delete_stored_run lmdb actions clock run_id entries.0 ready.1.env in
      elim (Bool-cases (ready.0 && lmdb.begins ready.1.env)) [
        | inl up ↦ rw up (finish-Holds lmdb actions clock Q ready.1 o h (rw up at e))
        | inr shut ↦ elim (true_ne_false (sym (rw shut at e))) [ ]
      ]

  -- A run whose deletion succeeds is stored no longer, and is not the active run.
  pub delete_run-Released :
      (run_id : Text) (t : TransactionDatabase D)
      → (delete_run lmdb actions clock run_id t).0 ≡ true
      → Gone (transaction_database_run_key run_id) (delete_run lmdb actions clock run_id t).1.env
        × Released lmdb store actions clock run_id (delete_run lmdb actions clock run_id t).1.env
  delete_run-Released run_id t e =
      let run_key = transaction_database_run_key run_id in
      deleted (After run_id run_key) run_id t (delete_stored_run-run run_id run_key _ _ refl) e

  prefix-ne_nil : (run_id : Text) → transaction_database_item_prefix run_id ≢ []
  unfolding transaction_database_item_prefix
  prefix-ne_nil run_id = λ e. cc

  -- Where the entries of a run can be read, none of its items is left by a deletion that succeeds.
  pub delete_run-Gone :
      (run_id key : Text) (t : TransactionDatabase D)
      → (ensure_ready lmdb actions clock t).0 ≡ true
      → lmdb.begins_read (ensure_ready lmdb actions clock t).1.env ≡ true
      → lmdb.cursor_opens (ensure_ready lmdb actions clock t).1.env ≡ true
      → starts_with key (transaction_database_item_prefix run_id) ≡ true
      → (delete_run lmdb actions clock run_id t).0 ≡ true
      → lmdb.get (delete_run lmdb actions clock run_id t).1.env key ≡ none
  unfolding load_prefixed_entries
  delete_run-Gone run_id key t up reads opens prefixed e =
      let prefix = transaction_database_item_prefix run_id in
      let d = (ensure_ready lmdb actions clock t).1.env in
      let listed : value_in (scan_prefix lmdb d prefix) key ≡ lmdb.get d key =
        rw prefixed at
          (value_in-scan_prefix lmdb d prefix key store (prefix-ne_nil run_id) opens) in
      (deleted (After run_id key) run_id t
        (rw (up, reads, ready_again t up) (delete_stored_run-item run_id key _ d listed)) e).0

-- ===== src/State/Database/Changes/Commit.antt =====
-- What the commit of a run leaves in the database.
use mathlib.Core.Option.{none-ne-some}
use req_pack_core.Prelude.{
  ℕ, true, false, ◌&&◌, ◌==◌, nat_eq, Text, text_eq, codes, Option, none, some, ◌≡◌, ◌≢◌, refl, sym,
  ap, ◌∙◌, Bool-cases, inl, inr, true_ne_false, beq_refl,
}
use req_pack_core.State.Records.{TransactionRunRecord, ActionCodes}
use req_pack_core.State.Keys.{transaction_database_run_key}
use req_pack_core.State.Runs.{transaction_database_serialize_run}
use req_pack_core.State.Store.{Lmdb, IsStore}
use req_pack_core.State.Database.{TransactionDatabase, active_run_key, ensure_ready, get_run_items}
use req_pack_core.State.Database.Changes.{
  put_run, stored_run, kept_or, names_run, release, release_written, committed_run, close_commit,
  commit_items, mark_run_committed,
}
use req_pack_core.State.Database.Outcome.{Holds, get-put_self, finish-Holds, active-ne-run_key}

module _ {D : Type 0} (lmdb : Lmdb D) (store : IsStore lmdb) (actions : ActionCodes) (clock : ℕ → ℕ)
    (run_id : Text) where
  abbrev pub Released : D → Type 0
  Released d = lmdb.get d active_run_key ≢ some run_id

  names_run-some : names_run lmdb actions clock run_id (some run_id) ≡ true
  unfolding names_run
  names_run-some = beq_refl run_id

  not_named : (o : Option Text) → names_run lmdb actions clock run_id o ≡ false → o ≢ some run_id
  not_named o h e =
      true_ne_false (sym names_run-some ∙ (ap (names_run lmdb actions clock run_id) (sym e) ∙ h))

  kept_or-Released :
      (d : D) (o : Option D)
      → lmdb.del d active_run_key ≡ o
      → Released (kept_or lmdb actions clock d o)
  unfolding kept_or
  kept_or-Released d none e =
      λ h. none-ne-some run_id (sym (store.del_missing d active_run_key e) ∙ h)
  kept_or-Released d (some d') e = λ h. none-ne-some run_id (
      sym (rw (beq_refl active_run_key) at (store.get-del d d' active_run_key active_run_key e))
      ∙ h)

  pub release-Released : (d : D) → Released (release lmdb actions clock run_id d)
  unfolding release
  release-Released d =
      elim (Bool-cases (names_run lmdb actions clock run_id (lmdb.get d active_run_key))) [
        | inl e ↦ rw e (kept_or-Released d _ refl)
        | inr e ↦ rw e (not_named _ e)
      ]

  -- The run is stored, with the state.
  abbrev pub Stored : Text → D → Type 0
  Stored state d =
      (run : TransactionRunRecord) × (lmdb.get d (transaction_database_run_key run_id)
        ≡ some (transaction_database_serialize_run run))
      × (run.state ≡ state)

  kept_or_same :
      (d : D) (o : Option D) (key : Text)
      → lmdb.del d active_run_key ≡ o
      → (active_run_key == key) ≡ false
      → lmdb.get (kept_or lmdb actions clock d o) key ≡ lmdb.get d key
  unfolding kept_or
  kept_or_same d none key e other = refl
  kept_or_same d (some d') key e other = rw other at (store.get-del d d' active_run_key key e)

  release-Stored :
      (state : Text) (d : D) → Stored state d → Stored state (release lmdb actions clock run_id d)
  unfolding release
  release-Stored state d h =
      elim (Bool-cases (names_run lmdb actions clock run_id (lmdb.get d active_run_key))) [
        | inl e ↦ rw e (h.0, kept_or_same d _ _ refl (active-ne-run_key run_id) ∙ h.1, h.2)
        | inr e ↦ rw e h
      ]

  abbrev pub CommittedRun : D → Type 0
  CommittedRun d = Released d × Stored (codes "committed") d

  release_written-Committed :
      (run : TransactionRunRecord) (d : D) (o : Option D)
      → put_run lmdb actions clock run_id run d ≡ o
      → run.state ≡ codes "committed"
      → Holds CommittedRun (release_written lmdb actions clock run_id o)
  unfolding release_written put_run
  release_written-Committed run d none e s = tt
  release_written-Committed run d (some d') e s = (
    release-Released d',
    release-Stored (codes "committed") d' (run, get-put_self lmdb store d d' _ _ e, s),
  )

  committed_run-state :
      (t : TransactionDatabase D) (run : Option TransactionRunRecord)
      → (committed_run lmdb actions clock run_id t run).0.state ≡ codes "committed"
  unfolding committed_run
  committed_run-state t none = refl
  committed_run-state t (some run) = refl

  close_commit-Committed :
      (t : TransactionDatabase D) (o : Option D)
      → (close_commit lmdb actions clock run_id t o).0 ≡ true
      → CommittedRun (close_commit lmdb actions clock run_id t o).1.env
  unfolding close_commit
  close_commit-Committed t none e = elim (true_ne_false (sym e)) [ ]
  close_commit-Committed t (some d) e =
      let stored = stored_run lmdb actions clock run_id d in
      let run = committed_run lmdb actions clock run_id t stored in
      finish-Holds lmdb actions clock CommittedRun run.1
        (release_written lmdb actions clock run_id (put_run lmdb actions clock run_id run.0 d))
        (release_written-Committed run.0 d _ refl (committed_run-state t stored)) e

  -- A run whose commit succeeds is stored as committed, and is the active run no longer.
  pub mark_run_committed-CommittedRun :
      (t : TransactionDatabase D)
      → (mark_run_committed lmdb actions clock run_id t).0 ≡ true
      → CommittedRun (mark_run_committed lmdb actions clock run_id t).1.env
  unfolding mark_run_committed
  mark_run_committed-CommittedRun t e =
      let items = get_run_items lmdb actions clock run_id t in
      let ready = ensure_ready lmdb actions clock items.1 in
      let o = commit_items lmdb actions clock run_id items.0 ready.1.env in
      elim (Bool-cases (ready.0 && lmdb.begins ready.1.env)) [
        | inl up ↦ rw up (close_commit-Committed ready.1 o (rw up at e))
        | inr shut ↦ elim (true_ne_false (sym (rw shut at e))) [ ]
      ]

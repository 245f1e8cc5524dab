-- ===== src/State/Database/Changes/RunState.antt =====
-- What a new state of a run changes in the database.
use req_pack_core.Prelude.{
  ℕ, Bool, true, false, ◌&&◌, ◌==◌, nat_eq, Text, text_eq, Option, none, some, ◌≡◌, refl, sym, ◌∙◌,
  if_cases, true_ne_false,
}
use req_pack_core.State.Records.{TransactionRunRecord, ActionCodes}
use req_pack_core.State.Keys.{transaction_database_run_key}
use req_pack_core.State.Store.{Lmdb, IsStore}
use req_pack_core.State.Database.{TransactionDatabase, ensure_ready, now_timestamp}
use req_pack_core.State.Database.Changes.{put_run, set_run_state, mark_run_state}
use req_pack_core.State.Database.Changes.Commit.{Stored}
use req_pack_core.State.Database.Frame.{put-Kept, finish-Kept, get-ensure_ready}
use req_pack_core.State.Database.Outcome.{Holds-self, get-put_self, finish-Holds}

module _ {D : Type 0} (lmdb : Lmdb D) (store : IsStore lmdb) (actions : ActionCodes) (clock : ℕ → ℕ)
    (run_id state : Text) where
  get-set_run_state_other :
      (key : Text) (t : TransactionDatabase D) (run : Option TransactionRunRecord)
      → (transaction_database_run_key run_id == key) ≡ false
      → lmdb.get (set_run_state lmdb actions clock run_id state t run).1.env key
        ≡ lmdb.get t.env key
  unfolding set_run_state now_timestamp put_run
  get-set_run_state_other key t none other = refl
  get-set_run_state_other key t (some run) other =
      finish-Kept lmdb store key actions clock _ _ (put-Kept lmdb store key t.env _ _ other)

  set_run_state-Stored :
      (t : TransactionDatabase D) (run : Option TransactionRunRecord)
      → (set_run_state lmdb actions clock run_id state t run).0 ≡ true
      → Stored lmdb store actions clock run_id state
          (set_run_state lmdb actions clock run_id state t run).1.env
  unfolding set_run_state now_timestamp put_run
  set_run_state-Stored t none e = elim (true_ne_false (sym e)) [ ]
  set_run_state-Stored t (some run) e =
      finish-Holds lmdb actions clock (Stored lmdb store actions clock run_id state) _ _
        (Holds-self _ (lmdb.put t.env _ _)
          (λ d h. (_, get-put_self lmdb store t.env d _ _ h, refl)))
        e

  -- Every key but that of the run is as it was.
  pub get-mark_run_state_other :
      (key : Text) (t : TransactionDatabase D)
      → (transaction_database_run_key run_id == key) ≡ false
      → lmdb.get (mark_run_state lmdb actions clock run_id state t).1.env key ≡ lmdb.get t.env key
  unfolding mark_run_state
  get-mark_run_state_other key t other =
      let ready = ensure_ready lmdb actions clock t in
      let opened = get-ensure_ready lmdb store key actions clock t in
      if_cases (λ (y : Bool × TransactionDatabase D). lmdb.get y.1.env key ≡ lmdb.get t.env key)
        (ready.0 && lmdb.begins ready.1.env)
        (λ e. get-set_run_state_other key ready.1 _ other ∙ opened) (λ e. opened)

  -- Where it succeeds, the run is stored with the state.
  pub mark_run_state-Stored :
      (t : TransactionDatabase D)
      → (mark_run_state lmdb actions clock run_id state t).0 ≡ true
      → Stored lmdb store actions clock run_id state
          (mark_run_state lmdb actions clock run_id state t).1.env
  unfolding mark_run_state
  mark_run_state-Stored t =
      let ready = ensure_ready lmdb actions clock t in
      if_cases
        (λ (y : Bool × TransactionDatabase D).
          y.0 ≡ true → Stored lmdb store actions clock run_id state y.1.env)
        (ready.0 && lmdb.begins ready.1.env) (λ up e. set_run_state-Stored ready.1 _ e)
        (λ shut e. elim (true_ne_false (sym e)) [ ])

-- ===== src/State/Database/Changes/Failure.antt =====
-- An operation that fails changes nothing.
use req_pack_core.Prelude.{
  ℕ, Bool, true, false, ◌&&◌, if◌then◌else◌, nat_eq, Text, text_eq, List, Option, none, some, ◌≡◌,
  refl, ap, ◌∙◌,
}
use req_pack_core.Types.{Package}
use req_pack_core.State.Records.{TransactionRunRecord, ActionCodes}
use req_pack_core.State.Keys.{transaction_database_item_prefix}
use req_pack_core.State.Store.{Lmdb, IsStore}
use req_pack_core.State.Database.{
  TransactionDatabase, ensure_ready, now_timestamp, get_run_items, load_prefixed_entries, finish,
}
use req_pack_core.State.Database.Changes.{
  stored_run, touch_run, close_update, update_items, update_items_status, set_run_state,
  mark_run_state, committed_run, close_commit, commit_items, mark_run_committed, delete_stored_run,
  delete_run,
}
use req_pack_core.State.Database.Outcome.{finish_unchanged}
use req_pack_core.State.Database.Frame.{
  get-ensure_ready, get-load_prefixed_entries, get-get_run_items,
}

module _ {D : Type 0} (lmdb : Lmdb D) (store : IsStore lmdb) (actions : ActionCodes) (clock : ℕ → ℕ)
    (run_id : Text) where
  -- The entries are those of the database.
  abbrev SameEnv : TransactionDatabase D → Bool × TransactionDatabase D → Type 0
  SameEnv t (success, t') = success ≡ false → t'.env ≡ t.env

  finish-SameEnv :
      (t t' : TransactionDatabase D) (o : Option D)
      → t'.env ≡ t.env
      → SameEnv t (finish lmdb actions clock t' o)
  finish-SameEnv t t' o same e = ap (λ x. x.env) (finish_unchanged lmdb actions clock t' o e) ∙ same

  touch_run-SameEnv :
      (t : TransactionDatabase D) (d : D) (run : Option TransactionRunRecord)
      → SameEnv t (touch_run lmdb actions clock run_id d t run)
  unfolding touch_run now_timestamp
  touch_run-SameEnv t d none = finish-SameEnv t t (some d) refl
  touch_run-SameEnv t d (some run) = finish-SameEnv t _ _ refl

  close_update-SameEnv :
      (t : TransactionDatabase D) (o : Option D)
      → SameEnv t (close_update lmdb actions clock run_id t o)
  unfolding close_update
  close_update-SameEnv t none = λ e. refl
  close_update-SameEnv t (some d) = touch_run-SameEnv t d (stored_run lmdb actions clock run_id d)

  set_run_state-SameEnv :
      (state : Text) (t : TransactionDatabase D) (run : Option TransactionRunRecord)
      → SameEnv t (set_run_state lmdb actions clock run_id state t run)
  unfolding set_run_state now_timestamp
  set_run_state-SameEnv state t none = λ e. refl
  set_run_state-SameEnv state t (some run) = finish-SameEnv t _ _ refl

  committed_run-env :
      (t : TransactionDatabase D) (run : Option TransactionRunRecord)
      → (committed_run lmdb actions clock run_id t run).1.env ≡ t.env
  unfolding committed_run now_timestamp
  committed_run-env t none = refl
  committed_run-env t (some run) = refl

  close_commit-SameEnv :
      (t : TransactionDatabase D) (o : Option D)
      → SameEnv t (close_commit lmdb actions clock run_id t o)
  unfolding close_commit
  close_commit-SameEnv t none = λ e. refl
  close_commit-SameEnv t (some d) =
      finish-SameEnv t _ _ (committed_run-env t (stored_run lmdb actions clock run_id d))

  if-SameEnv :
      (t : TransactionDatabase D) (b : Bool) (x : Bool × TransactionDatabase D)
      → SameEnv t x
      → SameEnv t (if b then x else (false, t))
  if-SameEnv t true x h = h
  if-SameEnv t false x h = λ e. refl

  -- Whatever makes it fail, an operation on a run that does not succeed changes no entry, also if it
  -- had written some: no package of an update is marked where one of them cannot be.
  module _ (key : Text) (t : TransactionDatabase D) where
    abbrev at_key : TransactionDatabase D → Option Text
    at_key t' = lmdb.get t'.env key

    -- An update that fails changes no entry, although it may have marked some of the packages.
    pub update_items_status_unchanged :
        (packages : List Package) (status error_message : Text)
        → (update_items_status lmdb actions clock run_id packages status error_message t).0 ≡ false
        → at_key (update_items_status lmdb actions clock run_id packages status error_message t).1
          ≡ at_key t
    unfolding update_items_status
    update_items_status_unchanged packages status error_message e =
        let ready = ensure_ready lmdb actions clock t in
        ap (λ d. lmdb.get d key)
          (if-SameEnv ready.1 (ready.0 && lmdb.begins ready.1.env) _
            (close_update-SameEnv ready.1
              (update_items lmdb actions clock run_id status error_message packages ready.1.env))
            e)
        ∙ get-ensure_ready lmdb store key actions clock t

    -- A commit of a run that fails changes no entry, although it may have written some of the items.
    pub mark_run_committed_unchanged :
        (mark_run_committed lmdb actions clock run_id t).0 ≡ false
        → at_key (mark_run_committed lmdb actions clock run_id t).1 ≡ at_key t
    unfolding mark_run_committed
    mark_run_committed_unchanged e =
        let items = get_run_items lmdb actions clock run_id t in
        let ready = ensure_ready lmdb actions clock items.1 in
        ap (λ d. lmdb.get d key)
          (if-SameEnv ready.1 (ready.0 && lmdb.begins ready.1.env) _
            (close_commit-SameEnv ready.1
              (commit_items lmdb actions clock run_id items.0 ready.1.env))
            e)
        ∙ (get-ensure_ready lmdb store key actions clock items.1
            ∙ get-get_run_items lmdb store key actions clock run_id t)

    pub mark_run_state_unchanged :
        (state : Text)
        → (mark_run_state lmdb actions clock run_id state t).0 ≡ false
        → at_key (mark_run_state lmdb actions clock run_id state t).1 ≡ at_key t
    unfolding mark_run_state
    mark_run_state_unchanged state e =
        let ready = ensure_ready lmdb actions clock t in
        ap (λ d. lmdb.get d key)
          (if-SameEnv ready.1 (ready.0 && lmdb.begins ready.1.env) _
            (set_run_state-SameEnv state ready.1 (stored_run lmdb actions clock run_id ready.1.env))
            e)
        ∙ get-ensure_ready lmdb store key actions clock t

    delete_run_unchanged :
        (delete_run lmdb actions clock run_id t).0 ≡ false
        → at_key (delete_run lmdb actions clock run_id t).1 ≡ at_key t
    unfolding delete_run
    delete_run_unchanged e =
        let entries =
          load_prefixed_entries lmdb actions clock (transaction_database_item_prefix run_id) t in
        let ready = ensure_ready lmdb actions clock entries.1 in
        ap (λ d. lmdb.get d key)
          (if-SameEnv ready.1 (ready.0 && lmdb.begins ready.1.env) _
            (finish-SameEnv ready.1 ready.1
              (delete_stored_run lmdb actions clock run_id entries.0 ready.1.env) refl)
            e)
        ∙ (get-ensure_ready lmdb store key actions clock entries.1
            ∙ get-load_prefixed_entries lmdb store key actions clock _ t)

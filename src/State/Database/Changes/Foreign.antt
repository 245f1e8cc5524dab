-- ===== src/State/Database/Changes/Foreign.antt =====
-- An operation on a run leaves the entries of other runs alone.
use req_pack_core.Prelude.{
  ℕ, Bool, true, false, ◌&&◌, if◌then◌else◌, nat_eq, Text, text_eq, List, [], Option, none, some,
  is_empty, ◌≡◌, refl, sym, ◌∙◌, Bool-cases, inl, inr,
}
use req_pack_core.Types.{Package}
use req_pack_core.State.Records.{TransactionRunRecord, ActionCodes}
use req_pack_core.State.Keys.{transaction_database_item_prefix}
use req_pack_core.State.Store.{Lmdb, IsStore, scan_prefix}
use req_pack_core.State.Database.{
  TransactionDatabase, ensure_ready, now_timestamp, load_prefixed_entries, get_run_items, finish,
  open_run, name_created, new_run_id,
}
use req_pack_core.State.Database.Changes.{
  put_run, touch_run, close_update, update_items_status, set_run_state, mark_run_state,
  release_written, committed_run, close_commit, mark_run_committed, delete_run, stored_run,
}
use req_pack_core.State.Database.Frame.{
  IsForeign, Kept, get-ensure_ready, get-load_prefixed_entries, get-get_run_items, finish-Kept,
}
use req_pack_core.State.Database.Changes.Isolation.{
  Prefixed, entries_while-Prefixed, run-Kept, write_run-Kept, update_items-Kept, commit_items-Kept,
  release_written-Kept, delete_stored_run-Kept,
}

module _ {D : Type 0} (lmdb : Lmdb D) (store : IsStore lmdb) (actions : ActionCodes) (clock : ℕ → ℕ)
    (run_id key : Text) (foreign : IsForeign run_id key) where
  abbrev K : D → Option D → Type 0
  K = Kept lmdb store key

  abbrev at_key : TransactionDatabase D → Option Text
  at_key t = lmdb.get t.env key

  finish_lem :
      (t : TransactionDatabase D) (o : Option D)
      → K t.env o
      → at_key (finish lmdb actions clock t o).1 ≡ at_key t
  finish_lem t o h = finish-Kept lmdb store key actions clock t o h

  later-Kept : (d d' : D) (o : Option D) → lmdb.get d key ≡ lmdb.get d' key → K d o → K d' o
  later-Kept d d' none e h = tt
  later-Kept d d' (some x) e h = h ∙ e

  get-open_run :
      (packages : List Package) (flags : List Text) (timestamp : Text) (t : TransactionDatabase D)
      → run_id ≡ new_run_id timestamp packages
      → at_key (open_run lmdb actions clock packages flags (timestamp, t)).1 ≡ at_key t
  unfolding open_run name_created
  get-open_run packages flags timestamp t named = elim (Bool-cases (lmdb.begins t.env)) [
    | inl e ↦
        rw (e, sym named)
          (finish_lem t _ (
            write_run-Kept lmdb store actions clock run_id key foreign timestamp packages flags
              t.env))
    | inr e ↦ rw e refl
  ]

  get-touch_run :
      (t : TransactionDatabase D) (d : D) (run : Option TransactionRunRecord)
      → lmdb.get d key ≡ at_key t
      → at_key (touch_run lmdb actions clock run_id d t run).1 ≡ at_key t
  unfolding touch_run now_timestamp
  get-touch_run t d none e = finish_lem t (some d) e
  get-touch_run t d (some run) e =
      finish_lem _ _
        (later-Kept d t.env _ e (run-Kept lmdb store actions clock run_id key foreign d _))

  get-close_update :
      (t : TransactionDatabase D) (o : Option D)
      → K t.env o
      → at_key (close_update lmdb actions clock run_id t o).1 ≡ at_key t
  unfolding close_update
  get-close_update t none h = refl
  get-close_update t (some d) h = get-touch_run t d _ h

  get-set_run_state :
      (state : Text) (t : TransactionDatabase D) (run : Option TransactionRunRecord)
      → at_key (set_run_state lmdb actions clock run_id state t run).1 ≡ at_key t
  unfolding set_run_state now_timestamp
  get-set_run_state state t none = refl
  get-set_run_state state t (some run) =
      finish_lem _ _ (run-Kept lmdb store actions clock run_id key foreign t.env _)

  get-commit_as :
      (t : TransactionDatabase D) (d : D) (run : Option TransactionRunRecord)
      → lmdb.get d key ≡ at_key t
      → at_key
          (finish lmdb actions clock (committed_run lmdb actions clock run_id t run).1 (
            release_written lmdb actions clock run_id (
              put_run lmdb actions clock run_id
                (committed_run lmdb actions clock run_id t run).0
                d))).1
        ≡ at_key t
  unfolding committed_run now_timestamp
  get-commit_as t d none e = finish_lem _ _ (
      later-Kept d t.env _ e (
        release_written-Kept lmdb store actions clock run_id key foreign d _
          (run-Kept lmdb store actions clock run_id key foreign d _)))
  get-commit_as t d (some run) e = finish_lem _ _ (
      later-Kept d t.env _ e (
        release_written-Kept lmdb store actions clock run_id key foreign d _
          (run-Kept lmdb store actions clock run_id key foreign d _)))

  if-Prefixed :
      (prefix : Text) (b : Bool) (xs ys : List (Text × Text))
      → Prefixed prefix xs
      → Prefixed prefix ys
      → Prefixed prefix (if b then xs else ys)
  if-Prefixed prefix true xs ys hx hy = hx
  if-Prefixed prefix false xs ys hx hy = hy

  if-at_key :
      (b : Bool) (x y : Bool × TransactionDatabase D) (v : Option Text)
      → at_key x.1 ≡ v
      → at_key y.1 ≡ v
      → at_key (if b then x else y).1 ≡ v
  if-at_key true x y v hx hy = hx
  if-at_key false x y v hx hy = hy

  get-close_commit :
      (t : TransactionDatabase D) (o : Option D)
      → K t.env o
      → at_key (close_commit lmdb actions clock run_id t o).1 ≡ at_key t
  unfolding close_commit
  get-close_commit t none h = refl
  get-close_commit t (some d) h = get-commit_as t d (stored_run lmdb actions clock run_id d) h

  scan_prefix-Prefixed : (d : D) (prefix : Text) → Prefixed prefix (scan_prefix lmdb d prefix)
  unfolding scan_prefix
  scan_prefix-Prefixed d prefix =
      if-Prefixed prefix (is_empty prefix) [] _ tt
        (if-Prefixed prefix (lmdb.cursor_opens d) _ [] (entries_while-Prefixed prefix _) tt)

  load_prefixed_entries-Prefixed :
      (prefix : Text) (t : TransactionDatabase D)
      → Prefixed prefix (load_prefixed_entries lmdb actions clock prefix t).0
  unfolding load_prefixed_entries
  load_prefixed_entries-Prefixed prefix t =
      let ready = ensure_ready lmdb actions clock t in
      elim (Bool-cases (ready.0 && lmdb.begins_read ready.1.env)) [
        | inl e ↦ rw e (scan_prefix-Prefixed ready.1.env prefix)
        | inr e ↦ rw e tt
      ]

  -- Whatever its result, none of the operations on a run changes a key that does not belong to it:
  -- a key other than the one of the active run and the one of the run, without the prefix of the
  -- run's items.
  pub changes-IsForeign :
      (t : TransactionDatabase D) (packages : List Package) (status error_message state : Text)
      → (at_key (update_items_status lmdb actions clock run_id packages status error_message t).1
          ≡ at_key t)
        × (at_key (mark_run_state lmdb actions clock run_id state t).1 ≡ at_key t)
        × (at_key (mark_run_committed lmdb actions clock run_id t).1 ≡ at_key t)
        × (at_key (delete_run lmdb actions clock run_id t).1 ≡ at_key t)
  unfolding update_items_status mark_run_state mark_run_committed delete_run
  changes-IsForeign t packages status error_message state =
      let ready = ensure_ready lmdb actions clock t in
      let opened = get-ensure_ready lmdb store key actions clock t in
      let items = get_run_items lmdb actions clock run_id t in
      let items_ready = ensure_ready lmdb actions clock items.1 in
      let items_opened =
        get-ensure_ready lmdb store key actions clock items.1
        ∙ get-get_run_items lmdb store key actions clock run_id t in
      let entries =
        load_prefixed_entries lmdb actions clock (transaction_database_item_prefix run_id) t in
      let entries_ready = ensure_ready lmdb actions clock entries.1 in
      let entries_opened =
        get-ensure_ready lmdb store key actions clock entries.1
        ∙ get-load_prefixed_entries lmdb store key actions clock _ t in
      (
        if-at_key (ready.0 && lmdb.begins ready.1.env) _ (false, ready.1) (at_key t)
            (get-close_update ready.1 _ (
                update_items-Kept lmdb store actions clock run_id key foreign status error_message
                  packages ready.1.env)
              ∙ opened)
            opened,
        if-at_key (ready.0 && lmdb.begins ready.1.env) _ (false, ready.1) (at_key t)
            (get-set_run_state state ready.1 (stored_run lmdb actions clock run_id ready.1.env)
              ∙ opened)
            opened,
        if-at_key (items_ready.0 && lmdb.begins items_ready.1.env) _ (false, items_ready.1)
            (at_key t)
            (get-close_commit items_ready.1 _ (
                commit_items-Kept lmdb store actions clock run_id key foreign items.0
                  items_ready.1.env)
              ∙ items_opened)
            items_opened,
        if-at_key (entries_ready.0 && lmdb.begins entries_ready.1.env) _ (false, entries_ready.1)
            (at_key t)
            (finish_lem entries_ready.1 _ (
                delete_stored_run-Kept lmdb store actions clock run_id key foreign entries.0
                  entries_ready.1.env (load_prefixed_entries-Prefixed _ t))
              ∙ entries_opened)
            entries_opened,
      )

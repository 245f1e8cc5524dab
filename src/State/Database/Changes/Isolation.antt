-- ===== src/State/Database/Changes/Isolation.antt =====
-- What is written for a run leaves a key alone that does not belong to it.
use req_pack_core.Prelude.{
  ℕ, ◌+◌, true, ◌==◌, nat_eq, Text, text_eq, text_beq_iff, List, [], ◌∷◌, Option, none, some,
  starts_with, ◌≡◌, refl, sym, ap, ◌∙◌, Bool-cases, inl, inr, true_ne_false, All,
}
use req_pack_core.Types.{Package}
use req_pack_core.State.Records.{TransactionRunRecord, TransactionItemRecord, ActionCodes}
use req_pack_core.State.Keys.{transaction_database_item_prefix, transaction_database_item_key}
use req_pack_core.State.Store.{Lmdb, IsStore, entries_while}
use req_pack_core.State.Database.{active_run_key, write_items, write_run}
use req_pack_core.State.Database.Changes.{
  put_status, update_item, update_items, put_run, commit_items, release, release_written, names_run,
  kept_or, delete_entries, delete_stored_run,
}
use req_pack_core.State.Database.Frame.{
  IsForeign, IsForeign-item_key, Kept, and_then-Kept, put-Kept, del-Kept,
}

abbrev pub Prefixed : Text → List (Text × Text) → Type 0
Prefixed prefix = All (λ entry. starts_with entry.0 prefix ≡ true)

pub entries_while-Prefixed :
    (prefix : Text) (entries : List (Text × Text)) → Prefixed prefix (entries_while prefix entries)
unfolding entries_while
entries_while-Prefixed prefix [] = tt
entries_while-Prefixed prefix ((key, value) ∷ rest) = elim (Bool-cases (starts_with key prefix)) [
  | inl found ↦ rw found (found, entries_while-Prefixed prefix rest)
  | inr behind ↦ rw behind tt
]

module _ {D : Type 0} (lmdb : Lmdb D) (store : IsStore lmdb) (actions : ActionCodes) (clock : ℕ → ℕ)
    (run_id key : Text) (foreign : IsForeign run_id key) where
  abbrev pub K : D → Option D → Type 0
  K = Kept lmdb store key

  pub item-Kept :
      (d : D) (pkg : Package) (value : Text)
      → K d (lmdb.put d (transaction_database_item_key actions run_id pkg) value)
  item-Kept d pkg value =
      put-Kept lmdb store key d _ value (IsForeign-item_key actions run_id key pkg foreign)

  pub run-Kept :
      (d : D) (run : TransactionRunRecord) → K d (put_run lmdb actions clock run_id run d)
  unfolding put_run
  run-Kept d run = put-Kept lmdb store key d _ _ foreign.not_run

  write_items-Kept :
      (index : ℕ) (packages : List Package) (d : D)
      → K d (write_items lmdb actions clock run_id index packages d)
  unfolding write_items
  write_items-Kept index [] d = refl
  write_items-Kept index (pkg ∷ rest) d =
      and_then-Kept lmdb store key d _ _ (item-Kept d pkg _) (write_items-Kept (index + 1) rest)

  pub write_run-Kept :
      (timestamp : Text) (packages : List Package) (flags : List Text) (d : D)
      → K d (write_run lmdb actions clock timestamp run_id packages flags d)
  unfolding write_run
  write_run-Kept timestamp packages flags d =
      and_then-Kept lmdb store key d _ _ (put-Kept lmdb store key d _ _ foreign.not_active) (λ d'.
        and_then-Kept lmdb store key d' _ _ (put-Kept lmdb store key d' _ _ foreign.not_run)
          (write_items-Kept 0 packages))

  put_status-Kept :
      (status error_message : Text) (pkg : Package) (d : D) (stored : Option TransactionItemRecord)
      → K d (
          put_status lmdb actions clock
            (transaction_database_item_key actions run_id pkg)
            status
            error_message
            d
            stored)
  unfolding put_status
  put_status-Kept status error_message pkg d none = tt
  put_status-Kept status error_message pkg d (some item) = item-Kept d pkg _

  update_item-Kept :
      (status error_message : Text) (pkg : Package) (d : D)
      → K d (update_item lmdb actions clock run_id status error_message pkg d)
  unfolding update_item
  update_item-Kept status error_message pkg d = put_status-Kept status error_message pkg d _

  pub update_items-Kept :
      (status error_message : Text) (packages : List Package) (d : D)
      → K d (update_items lmdb actions clock run_id status error_message packages d)
  unfolding update_items
  update_items-Kept status error_message [] d = refl
  update_items-Kept status error_message (pkg ∷ rest) d =
      and_then-Kept lmdb store key d _ _ (update_item-Kept status error_message pkg d)
        (update_items-Kept status error_message rest)

  pub commit_items-Kept :
      (items : List TransactionItemRecord) (d : D)
      → K d (commit_items lmdb actions clock run_id items d)
  unfolding commit_items
  commit_items-Kept [] d = refl
  commit_items-Kept (item ∷ rest) d =
      and_then-Kept lmdb store key d _ _ (item-Kept d item.pkg _) (commit_items-Kept rest)

  kept_or_lem :
      (d : D) (o : Option D)
      → K d o
      → lmdb.get (kept_or lmdb actions clock d o) key ≡ lmdb.get d key
  unfolding kept_or
  kept_or_lem d none h = refl
  kept_or_lem d (some d') h = h

  get-release : (d : D) → lmdb.get (release lmdb actions clock run_id d) key ≡ lmdb.get d key
  unfolding release
  get-release d =
      elim (Bool-cases (names_run lmdb actions clock run_id (lmdb.get d active_run_key))) [
        | inl e ↦ rw e (kept_or_lem d _ (del-Kept lmdb store key d _ foreign.not_active))
        | inr e ↦ rw e refl
      ]

  pub release_written-Kept :
      (d : D) (o : Option D) → K d o → K d (release_written lmdb actions clock run_id o)
  unfolding release_written
  release_written-Kept d none h = tt
  release_written-Kept d (some d') h = get-release d' ∙ h

  delete_entries-Kept :
      (entries : List (Text × Text)) (d : D)
      → Prefixed (transaction_database_item_prefix run_id) entries
      → K d (delete_entries lmdb actions clock entries d)
  unfolding delete_entries
  delete_entries-Kept [] d h = refl
  delete_entries-Kept ((k, value) ∷ rest) d h =
      and_then-Kept lmdb store key d _ _
        (del-Kept lmdb store key d k (elim (Bool-cases (k == key)) [
          | inl same ↦
              elim (true_ne_false (
                sym h.0
                ∙ (ap (λ x. starts_with x (transaction_database_item_prefix run_id))
                      ((text_beq_iff k key).0 same)
                    ∙ foreign.not_item))) [ ]
          | inr other ↦ other
        ]))
        (λ d'. delete_entries-Kept rest d' h.1)

  pub delete_stored_run-Kept :
      (entries : List (Text × Text)) (d : D)
      → Prefixed (transaction_database_item_prefix run_id) entries
      → K d (delete_stored_run lmdb actions clock run_id entries d)
  unfolding delete_stored_run
  delete_stored_run-Kept entries d h = release_written-Kept d _ (
      and_then-Kept lmdb store key d _ _ (delete_entries-Kept entries d h)
        (λ d'. del-Kept lmdb store key d' _ foreign.not_run))

-- ===== src/State/Database/Frame.antt =====
-- The keys that an operation leaves alone.
use req_pack_core.Prelude.{
  ℕ, false, ◌&&◌, ◌==◌, nat_eq, Text, text_eq, text_beq_iff, Option, none, some, starts_with,
  starts_with-append, ◌≡◌, refl, sym, ap, ◌∙◌, Bool-cases, inl, inr, true_ne_false,
}
use req_pack_core.Types.{Package}
use req_pack_core.State.Records.{ActionCodes}
use req_pack_core.State.Keys.{
  transaction_database_run_key, transaction_database_item_prefix, transaction_database_item_key,
}
use req_pack_core.State.Store.{Lmdb, IsStore}
use req_pack_core.State.Database.{
  TransactionDatabase, and_then, active_run_key, ensure_ready, load_string, load_prefixed_entries,
  get_run_items, finish,
}

-- A key that does not belong to a run.
pub record IsForeign (run_id key : Text) : Type 0 where
  pub not_active : (active_run_key == key) ≡ false
  pub not_run : (transaction_database_run_key run_id == key) ≡ false
  pub not_item : starts_with key (transaction_database_item_prefix run_id) ≡ false

pub IsForeign-item_key :
    (actions : ActionCodes) (run_id key : Text) (pkg : Package)
    → IsForeign run_id key
    → (transaction_database_item_key actions run_id pkg == key) ≡ false
unfolding transaction_database_item_key
IsForeign-item_key actions run_id key pkg f =
    elim (Bool-cases (transaction_database_item_key actions run_id pkg == key)) [
      | inl same ↦
          elim (true_ne_false (
            sym (starts_with-append (transaction_database_item_prefix run_id) _)
            ∙ (ap (λ k. starts_with k (transaction_database_item_prefix run_id))
                  ((text_beq_iff _ key).0 same)
                ∙ f.not_item))) [ ]
      | inr other ↦ other
    ]

module _ {D : Type 0} (lmdb : Lmdb D) (store : IsStore lmdb) (key : Text) where
  -- A step that may fail has not changed the key.
  abbrev pub Kept : D → Option D → Type 0
  Kept d none = Unit
  Kept d (some d') = lmdb.get d' key ≡ lmdb.get d key

  later-Kept : (d d' : D) (o : Option D) → lmdb.get d' key ≡ lmdb.get d key → Kept d' o → Kept d o
  later-Kept d d' none e h = tt
  later-Kept d d' (some d'') e h = h ∙ e

  pub and_then-Kept :
      (d : D) (m : Option D) (f : D → Option D)
      → Kept d m
      → ((d' : D) → Kept d' (f d'))
      → Kept d (and_then m f)
  unfolding and_then
  and_then-Kept d none f h k = tt
  and_then-Kept d (some d') f h k = later-Kept d d' (f d') h (k d')

  -- Behind a read.
  pub and_then_read-Kept :
      {A : Type 0} (d : D) (m : Option A) (f : A → Option D)
      → ((a : A) → Kept d (f a))
      → Kept d (and_then m f)
  unfolding and_then
  and_then_read-Kept d none f k = tt
  and_then_read-Kept d (some a) f k = k a

  Kept-of_put :
      (d : D) (k value : Text) (o : Option D)
      → lmdb.put d k value ≡ o
      → (k == key) ≡ false
      → Kept d o
  Kept-of_put d k value none e other = tt
  Kept-of_put d k value (some d') e other = rw other at (store.get-put d d' k value key e)

  pub put-Kept : (d : D) (k value : Text) → (k == key) ≡ false → Kept d (lmdb.put d k value)
  put-Kept d k value other = Kept-of_put d k value (lmdb.put d k value) refl other

  Kept-of_del : (d : D) (k : Text) (o : Option D) → lmdb.del d k ≡ o → (k == key) ≡ false → Kept d o
  Kept-of_del d k none e other = tt
  Kept-of_del d k (some d') e other = rw other at (store.get-del d d' k key e)

  pub del-Kept : (d : D) (k : Text) → (k == key) ≡ false → Kept d (lmdb.del d k)
  del-Kept d k other = Kept-of_del d k (lmdb.del d k) refl other

  module _ (actions : ActionCodes) (clock : ℕ → ℕ) where
    abbrev pub at : TransactionDatabase D → Option Text
    at t = lmdb.get t.env key

    pub get-ensure_ready :
        (t : TransactionDatabase D) → at (ensure_ready lmdb actions clock t).1 ≡ at t
    unfolding ensure_ready
    get-ensure_ready t = elim (Bool-cases t.initialized) [
      | inl open_ ↦ rw open_ refl
      | inr shut ↦ rw shut (store.get-open_environment t.env key)
    ]

    pub get-load_string :
        (k : Text) (t : TransactionDatabase D) → at (load_string lmdb actions clock k t).1 ≡ at t
    unfolding load_string
    get-load_string k t =
        let ready = ensure_ready lmdb actions clock t in
        elim (Bool-cases (ready.0 && lmdb.begins_read ready.1.env)) [
          | inl e ↦ rw e (get-ensure_ready t)
          | inr e ↦ rw e (get-ensure_ready t)
        ]

    pub get-load_prefixed_entries :
        (prefix : Text) (t : TransactionDatabase D)
        → at (load_prefixed_entries lmdb actions clock prefix t).1 ≡ at t
    unfolding load_prefixed_entries
    get-load_prefixed_entries prefix t =
        let ready = ensure_ready lmdb actions clock t in
        elim (Bool-cases (ready.0 && lmdb.begins_read ready.1.env)) [
          | inl e ↦ rw e (get-ensure_ready t)
          | inr e ↦ rw e (get-ensure_ready t)
        ]

    pub get-get_run_items :
        (run_id : Text) (t : TransactionDatabase D)
        → at (get_run_items lmdb actions clock run_id t).1 ≡ at t
    unfolding get_run_items
    get-get_run_items run_id t = get-load_prefixed_entries _ t

    pub finish-Kept :
        (t : TransactionDatabase D) (o : Option D)
        → Kept t.env o
        → at (finish lmdb actions clock t o).1 ≡ at t
    unfolding finish
    finish-Kept t none h = refl
    finish-Kept t (some d) h = elim (Bool-cases (lmdb.commits d)) [
      | inl e ↦ rw e h
      | inr e ↦ rw e refl
    ]

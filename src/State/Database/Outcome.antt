-- ===== src/State/Database/Outcome.antt =====
-- What holds behind a transaction that was written or committed.
use mathlib.Core.Option.{some-injective}
use req_pack_core.Prelude.{
  subst, ℕ, true, false, ◌==◌, Text, text_eq, text_beq, Option, none, some, ◌≡◌, refl, sym,
  Bool-cases, inl, inr, true_ne_false, beq_refl,
}
use req_pack_core.Types.{Package}
use req_pack_core.State.Records.{ActionCodes}
use req_pack_core.State.Keys.{
  transaction_database_run_key, transaction_database_item_prefix, transaction_database_item_key,
}
use req_pack_core.State.Store.{Lmdb, IsStore}
use req_pack_core.State.Database.{TransactionDatabase, and_then, active_run_key, finish}

pub item_key-ne-active :
    (actions : ActionCodes) (run_id : Text) (pkg : Package)
    → (transaction_database_item_key actions run_id pkg == active_run_key) ≡ false
unfolding transaction_database_item_key transaction_database_item_prefix text_beq
item_key-ne-active actions run_id pkg = refl

pub item_key-ne-run_key :
    (actions : ActionCodes) (run_id other : Text) (pkg : Package)
    → (transaction_database_item_key actions run_id pkg == transaction_database_run_key other)
      ≡ false
unfolding transaction_database_item_key transaction_database_item_prefix
    transaction_database_run_key text_beq
item_key-ne-run_key actions run_id other pkg = refl

pub run_key-ne-item_key :
    (actions : ActionCodes) (run_id other : Text) (pkg : Package)
    → (transaction_database_run_key run_id == transaction_database_item_key actions other pkg)
      ≡ false
unfolding transaction_database_item_key transaction_database_item_prefix
    transaction_database_run_key text_beq
run_key-ne-item_key actions run_id other pkg = refl

pub run_key-ne-active :
    (run_id : Text) → (transaction_database_run_key run_id == active_run_key) ≡ false
unfolding transaction_database_run_key text_beq
run_key-ne-active run_id = refl

pub active-ne-run_key :
    (run_id : Text) → (active_run_key == transaction_database_run_key run_id) ≡ false
unfolding transaction_database_run_key text_beq
active-ne-run_key run_id = refl

module _ {D : Type 0} where
  -- A step that may fail ends, if it does not, where `Q` holds.
  abbrev pub Holds : (D → Type 0) → Option D → Type 0
  Holds Q none = Unit
  Holds Q (some d) = Q d

  pub and_then-Holds :
      {A : Type 0} (Q : D → Type 0) (m : Option A) (f : A → Option D)
      → ((a : A) → m ≡ some a → Holds Q (f a))
      → Holds Q (and_then m f)
  unfolding and_then
  and_then-Holds Q none f h = tt
  and_then-Holds Q (some a) f h = h a refl

  pub Holds-step : (Q : D → Type 0) (m : Option D) → Holds Q m → (d : D) → m ≡ some d → Q d
  Holds-step Q none h d e = cc
  Holds-step Q (some x) h d e = subst Q (some-injective x d e) h

  pub Holds-self : (Q : D → Type 0) (m : Option D) → ((d : D) → m ≡ some d → Q d) → Holds Q m
  Holds-self Q none h = tt
  Holds-self Q (some d) h = h d refl

  pub Holds-both :
      (P Q : D → Type 0) (m : Option D) → Holds P m → Holds Q m → Holds (λ d. P d × Q d) m
  Holds-both P Q none p q = tt
  Holds-both P Q (some d) p q = (p, q)

  pub Holds-three :
      (P Q R : D → Type 0) (m : Option D)
      → Holds P m
      → Holds Q m
      → Holds R m
      → Holds (λ d. P d × Q d × R d) m
  Holds-three P Q R none p q r = tt
  Holds-three P Q R (some d) p q r = (p, q, r)

  module _ (lmdb : Lmdb D) (store : IsStore lmdb) where
    -- A key that is written, and one that is not.
    pub get-put_self :
        (d d' : D) (key value : Text)
        → lmdb.put d key value ≡ some d'
        → lmdb.get d' key ≡ some value
    get-put_self d d' key value e = rw (beq_refl key) at (store.get-put d d' key value key e)

    pub get-put_other :
        (d d' : D) (key value j : Text)
        → lmdb.put d key value ≡ some d'
        → (key == j) ≡ false
        → lmdb.get d' j ≡ lmdb.get d j
    get-put_other d d' key value j e other = rw other at (store.get-put d d' key value j e)

  module _ (lmdb : Lmdb D) (actions : ActionCodes) (clock : ℕ → ℕ) where
    -- A transaction that is committed ends where its last step did.
    pub finish-Holds :
        (Q : D → Type 0) (t : TransactionDatabase D) (o : Option D)
        → Holds Q o
        → (finish lmdb actions clock t o).0 ≡ true
        → Q (finish lmdb actions clock t o).1.env
    unfolding finish
    finish-Holds Q t none h e = elim (true_ne_false (sym e)) [ ]
    finish-Holds Q t (some d) h e = elim (Bool-cases (lmdb.commits d)) [
      | inl c ↦ rw c h
      | inr c ↦ elim (true_ne_false (sym (rw c at e))) [ ]
    ]

    -- One that is not leaves everything as it was.
    pub finish_unchanged :
        (t : TransactionDatabase D) (o : Option D)
        → (finish lmdb actions clock t o).0 ≡ false
        → (finish lmdb actions clock t o).1 ≡ t
    unfolding finish
    finish_unchanged t none e = refl
    finish_unchanged t (some d) e = elim (Bool-cases (lmdb.commits d)) [
      | inl c ↦ elim (true_ne_false (rw c at e)) [ ]
      | inr c ↦ rw c refl
    ]

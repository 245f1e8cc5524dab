-- ===== src/State/Store.antt =====
-- ecosystem/storage/lmdb_store.cpp: keys and values under a transaction. LMDB is the parameter
-- `Lmdb`: what one transaction sees is a value of `D`, an abort goes back to the value before, and a
-- call that may fail gives an `Option`.
pub mod Prefix
pub mod Memory
use req_pack_core.Prelude.{
  Bool, true, false, if◌then◌else◌, Text, text_eq, ◌==◌, List, [], ◌∷◌, Option, none, some,
  starts_with, is_empty, ◌≡◌, ltb, nat_eq, ◌||◌, ◌&&◌,
}

pub record Lmdb (D : Type 0) : Type 0 where
  -- `mdb_get`, `mdb_put`, `mdb_del`
  pub get : D → Text → Option Text
  pub put : D → Text → Text → Option D
  pub del : D → Text → Option D
  -- `mdb_cursor_get` with `MDB_SET_RANGE` at a key, and then with `MDB_NEXT` to the end.
  pub entries_from : D → Text → List (Text × Text)
  -- `mdb_cursor_open`, `mdb_txn_begin` for reading and for writing, `mdb_txn_commit`
  pub cursor_opens : D → Bool
  pub begins_read : D → Bool
  pub begins : D → Bool
  pub commits : D → Bool
  -- `open_lmdb_environment`
  pub open_environment : D → Bool × D

-- The order of keys: bytes from the left, a shorter key first.
unfoldable pub key_lt : Text → Text → Bool
key_lt s [] = false
key_lt [] (b ∷ t) = true
key_lt (a ∷ s) (b ∷ t) = ltb a b || a == b && key_lt s t

-- The keys of the entries ascend, and are above the given one.
abbrev pub Ascending : Text → List (Text × Text) → Type 0
Ascending before [] = Unit
Ascending before ((key, value) ∷ rest) = (key_lt before key ≡ true) × Ascending key rest

abbrev pub StartsAt : Text → List (Text × Text) → Type 0
StartsAt least [] = Unit
StartsAt least ((key, value) ∷ rest) = (key_lt key least ≡ false) × Ascending key rest

-- The value of a key in a list of entries.
unfoldable pub value_in : List (Text × Text) → Text → Option Text
value_in [] key = none
value_in ((k, v) ∷ rest) key = if k == key then some v else value_in rest key

-- What LMDB documents: a write is seen by later reads of its key and of no other, a key is not
-- deleted only where it is missing, a cursor goes through the keys from the given one on in
-- ascending order, and opening the environment changes no entry.
pub record IsStore {D : Type 0} (lmdb : Lmdb D) : Type 0 where
  pub get-put :
      (d d' : D) (key value j : Text)
      → lmdb.put d key value ≡ some d'
      → lmdb.get d' j ≡ (if key == j then some value else lmdb.get d j)
  pub get-del :
      (d d' : D) (key j : Text)
      → lmdb.del d key ≡ some d'
      → lmdb.get d' j ≡ (if key == j then none else lmdb.get d j)
  pub del_missing : (d : D) (key : Text) → lmdb.del d key ≡ none → lmdb.get d key ≡ none
  pub ordered : (d : D) (key : Text) → StartsAt key (lmdb.entries_from d key)
  pub listed :
      (d : D) (key j : Text)
      → key_lt j key ≡ false
      → value_in (lmdb.entries_from d key) j ≡ lmdb.get d j
  pub get-open_environment :
      (d : D) (j : Text) → lmdb.get (lmdb.open_environment d).1 j ≡ lmdb.get d j

-- The loop of `scan_prefix`: it breaks at the first key without the prefix.
unfoldable pub entries_while : Text → List (Text × Text) → List (Text × Text)
entries_while prefix [] = []
entries_while prefix ((key, value) ∷ rest) =
    if starts_with key prefix then (key, value) ∷ entries_while prefix rest else []

unfoldable pub scan_prefix : {D : Type 0} → Lmdb D → D → Text → List (Text × Text)
unfolding entries_while
scan_prefix lmdb d prefix =
    if is_empty prefix
    then []
    else if lmdb.cursor_opens d
    then entries_while prefix (lmdb.entries_from d prefix)
    else []

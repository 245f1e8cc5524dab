-- ===== src/State/Store/Prefix.antt =====
-- The entries with a prefix stand together.
use req_pack_core.Prelude.{
  true, false, ◌==◌, nat_eq, if◌then◌else◌, Text, text_eq, List, [], ◌∷◌, none, starts_with, ◌≡◌,
  ◌≢◌, refl, sym, ap, ◌∙◌, arith, Bool-cases, inl, inr, true_ne_false, text_beq_iff, is_empty_of_ne,
}
use req_pack_core.State.Store.{
  Lmdb, IsStore, key_lt, Ascending, StartsAt, value_in, entries_while, scan_prefix,
}

pub key_lt_irrefl : (s : Text) → key_lt s s ≡ false
unfolding key_lt
key_lt_irrefl [] = refl
key_lt_irrefl (a ∷ s) = ground (arith, key_lt_irrefl s)

pub key_lt_trans : (s t u : Text) → key_lt s t ≡ true → key_lt t u ≡ true → key_lt s u ≡ true
unfolding key_lt
key_lt_trans s [] u h k = cc
key_lt_trans s (b ∷ t) [] h k = cc
key_lt_trans [] (b ∷ t) (c ∷ u) h k = refl
key_lt_trans (a ∷ s) (b ∷ t) (c ∷ u) h k = ground (arith, key_lt_trans s t u)

-- A key with the prefix is not below it.
starts_with-key_lt : (key prefix : Text) → starts_with key prefix ≡ true → key_lt key prefix ≡ false
unfolding key_lt starts_with
starts_with-key_lt key [] h = refl
starts_with-key_lt [] (p ∷ prefix) h = cc
starts_with-key_lt (c ∷ key) (p ∷ prefix) h = ground (arith, starts_with-key_lt key prefix)

-- A key between the prefix and a key with it has it too.
starts_with_between :
    (key later prefix : Text)
    → key_lt key prefix ≡ false
    → key_lt key later ≡ true
    → starts_with later prefix ≡ true
    → starts_with key prefix ≡ true
unfolding key_lt starts_with
starts_with_between key later [] a b h = refl
starts_with_between key [] (p ∷ prefix) a b h = cc
starts_with_between [] (d ∷ later) (p ∷ prefix) a b h = cc
starts_with_between (c ∷ key) (d ∷ later) (p ∷ prefix) a b h =
    ground (arith, starts_with_between key later prefix)

-- A key that is not above the one before all entries has no value.
value_in_below :
    (before key : Text) (entries : List (Text × Text))
    → Ascending before entries
    → key_lt before key ≡ false
    → value_in entries key ≡ none
unfolding value_in
value_in_below before key [] asc h = refl
value_in_below before key ((k, v) ∷ rest) asc h = elim (Bool-cases (k == key)) [
  | inl same ↦
      elim (true_ne_false (sym asc.0 ∙ (ap (key_lt before) ((text_beq_iff k key).0 same) ∙ h))) [ ]
  | inr other ↦ elim (Bool-cases (key_lt k key)) [
    | inl above ↦ elim (true_ne_false (sym (key_lt_trans before k key asc.0 above) ∙ h)) [ ]
    | inr below ↦ rw other (value_in_below k key rest asc.1 below)
  ]
]

above_prefix :
    (before k prefix : Text)
    → key_lt before prefix ≡ false
    → key_lt before k ≡ true
    → key_lt k prefix ≡ false
above_prefix before k prefix least above = elim (Bool-cases (key_lt k prefix)) [
  | inl e ↦ elim (true_ne_false (sym (key_lt_trans before k prefix above e) ∙ least)) [ ]
  | inr e ↦ e
]

-- Behind a key without the prefix there is none with it.
value_in_behind :
    (k prefix key : Text) (rest : List (Text × Text))
    → key_lt k prefix ≡ false
    → starts_with k prefix ≡ false
    → Ascending k rest
    → starts_with key prefix ≡ true
    → value_in rest key ≡ none
value_in_behind k prefix key rest least other asc h = elim (Bool-cases (key_lt k key)) [
  | inl above ↦
      elim (true_ne_false (sym (starts_with_between k key prefix least above h) ∙ other)) [ ]
  | inr below ↦ value_in_below k key rest asc below
]

later_StartsAt :
    (k prefix : Text) (rest : List (Text × Text))
    → key_lt k prefix ≡ false
    → Ascending k rest
    → StartsAt prefix rest
later_StartsAt k prefix [] least asc = tt
later_StartsAt k prefix ((j, v) ∷ rest) least asc = (above_prefix k j prefix least asc.0, asc.1)

value_in-entries_while :
    (prefix key : Text) (entries : List (Text × Text))
    → StartsAt prefix entries
    → starts_with key prefix ≡ true
    → value_in (entries_while prefix entries) key ≡ value_in entries key
unfolding value_in entries_while
value_in-entries_while prefix key [] asc h = refl
value_in-entries_while prefix key ((k, v) ∷ rest) asc h = elim (Bool-cases (k == key)) [
  | inl same ↦
      let e : starts_with k prefix ≡ true =
        ap (λ x. starts_with x prefix) ((text_beq_iff k key).0 same) ∙ h in
      rw (e, same) refl
  | inr other ↦ elim (Bool-cases (starts_with k prefix)) [
    | inl found ↦
        rw (found, other)
          (value_in-entries_while prefix key rest (later_StartsAt k prefix rest asc.0 asc.1) h)
    | inr behind ↦ rw (behind, other) (sym (value_in_behind k prefix key rest asc.0 behind asc.1 h))
  ]
]

entries_while-prefix :
    (prefix key : Text) (entries : List (Text × Text))
    → starts_with key prefix ≡ false
    → value_in (entries_while prefix entries) key ≡ none
unfolding value_in entries_while
entries_while-prefix prefix key [] h = refl
entries_while-prefix prefix key ((k, v) ∷ rest) h = elim (Bool-cases (starts_with k prefix)) [
  | inl found ↦ elim (Bool-cases (k == key)) [
    | inl same ↦
        elim (true_ne_false
          (sym found ∙ (ap (λ x. starts_with x prefix) ((text_beq_iff k key).0 same) ∙ h))) [ ]
    | inr other ↦ rw (found, other) (entries_while-prefix prefix key rest h)
  ]
  | inr behind ↦ rw behind refl
]

-- Where a cursor can be opened and the prefix is not empty, the entries that are scanned are those
-- of the store whose keys have the prefix.
pub value_in-scan_prefix :
    {D : Type 0} (lmdb : Lmdb D) (d : D) (prefix key : Text)
    → IsStore lmdb
    → prefix ≢ []
    → lmdb.cursor_opens d ≡ true
    → value_in (scan_prefix lmdb d prefix) key
      ≡ (if starts_with key prefix then lmdb.get d key else none)
unfolding scan_prefix
value_in-scan_prefix lmdb d prefix key store filled opens =
    elim (Bool-cases (starts_with key prefix)) [
      | inl found ↦
          rw (is_empty_of_ne prefix filled, opens, found)
            (value_in-entries_while prefix key _ (store.ordered d prefix) found
              ∙ store.listed d prefix key (starts_with-key_lt key prefix found))
      | inr other ↦
          rw (is_empty_of_ne prefix filled, opens, other) (entries_while-prefix prefix key _ other)
    ]

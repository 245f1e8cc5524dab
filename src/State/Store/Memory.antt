-- ===== src/State/Store/Memory.antt =====
-- A store in memory, which shows that what is asked of LMDB can be met: the writes in a list, the
-- latest in front, sorted when a cursor is opened.
use mathlib.Core.Option.{some-injective}
use req_pack_core.Prelude.{
  true, false, ◌==◌, nat_eq, if◌then◌else◌, Text, text_eq, text_beq, text_beq_iff, List, [], ◌∷◌,
  Option, none, some, ◌≡◌, refl, sym, ap, subst, ◌∙◌, arith, Bool-cases, inl, inr, true_ne_false,
  beq_false_comm,
}
use req_pack_core.State.Store.{Lmdb, IsStore, key_lt, Ascending, StartsAt, value_in}

abbrev pub Writes : Type 0
Writes = List (Text × Text)

unfoldable pub without : Text → Writes → Writes
without key [] = []
without key ((k, v) ∷ rest) = if k == key then without key rest else (k, v) ∷ without key rest

unfoldable pub insert : Text → Text → Writes → Writes
insert key value [] = (key, value) ∷ []
insert key value ((k, v) ∷ rest) =
    if key_lt key k
    then (key, value) ∷ (k, v) ∷ rest
    else if key == k
    then (key, value) ∷ rest
    else (k, v) ∷ insert key value rest

unfoldable pub sorted : Writes → Writes
unfolding insert
sorted [] = []
sorted ((k, v) ∷ rest) = insert k v (sorted rest)

unfoldable pub from_key : Text → Writes → Writes
from_key key [] = []
from_key key ((k, v) ∷ rest) = if key_lt k key then from_key key rest else (k, v) ∷ rest

unfoldable pub delete_found : Text → Writes → Option Text → Option Writes
unfolding without
delete_found key writes none = none
delete_found key writes (some value) = some (without key writes)

abbrev pub memory : Lmdb Writes
memory = record {
  get = λ d key. value_in d key;
  put = λ d key value. some ((key, value) ∷ d);
  del = λ d key. delete_found key d (value_in d key);
  entries_from = λ d key. from_key key (sorted d);
  cursor_opens = λ d. true;
  begins_read = λ d. true;
  begins = λ d. true;
  commits = λ d. true;
  open_environment = λ d. (true, d);
}

value_in-without :
    (key j : Text) (d : Writes)
    → value_in (without key d) j ≡ (if key == j then none else value_in d j)
unfolding value_in without
value_in-without key j [] = ground arith
value_in-without key j ((k, v) ∷ rest) =
    let ih = value_in-without key j rest in
    elim (Bool-cases (k == key)) [
      | inl gone ↦ elim (Bool-cases (key == j)) [
        | inl e ↦ rw (gone, e) (rw e at ih)
        | inr e ↦
            let kj : (k == j) ≡ false = ap (λ x. x == j) ((text_beq_iff k key).0 gone) ∙ e in
            rw (gone, e, kj) (rw e at ih)
      ]
      | inr kept ↦ elim (Bool-cases (k == j)) [
        | inl e ↦
            let kj : (key == j) ≡ false =
              ap (λ x. key == x) (sym ((text_beq_iff k j).0 e)) ∙ beq_false_comm k key kept in
            rw (kept, e, kj) refl
        | inr e ↦ rw (kept, e) ih
      ]
    ]

key_lt_total : (s t : Text) → key_lt s t ≡ false → (s == t) ≡ false → key_lt t s ≡ true
unfolding key_lt text_beq
key_lt_total [] [] h e = cc
key_lt_total (a ∷ s) [] h e = refl
key_lt_total [] (b ∷ t) h e = cc
key_lt_total (a ∷ s) (b ∷ t) h e = ground (arith, key_lt_total s t)

insert-Ascending :
    (before key value : Text) (entries : Writes)
    → key_lt before key ≡ true
    → Ascending before entries
    → Ascending before (insert key value entries)
unfolding insert
insert-Ascending before key value [] h asc = (h, tt)
insert-Ascending before key value ((k, v) ∷ rest) h asc = elim (Bool-cases (key_lt key k)) [
  | inl below ↦ rw below (h, (below, asc.1))
  | inr above ↦ elim (Bool-cases (key == k)) [
    | inl same ↦
        rw (above, same)
          (h, subst (λ x. Ascending x rest) (sym ((text_beq_iff key k).0 same)) asc.1)
    | inr other ↦
        rw (above, other)
          (asc.0, insert-Ascending k key value rest (key_lt_total key k above other) asc.1)
  ]
]

value_in-insert :
    (key value j : Text) (entries : Writes)
    → value_in (insert key value entries) j ≡ (if key == j then some value else value_in entries j)
unfolding value_in insert
value_in-insert key value j [] = refl
value_in-insert key value j ((k, v) ∷ rest) =
    let ih = value_in-insert key value j rest in
    elim (Bool-cases (key_lt key k)) [
      | inl below ↦ rw below refl
      | inr above ↦ elim (Bool-cases (key == k)) [
        | inl same ↦ elim (Bool-cases (key == j)) [
          | inl e ↦ rw (above, same, e) refl
          | inr e ↦
              let kj : (k == j) ≡ false =
                ap (λ x. x == j) (sym ((text_beq_iff key k).0 same)) ∙ e in
              rw (above, same, e, kj) refl
        ]
        | inr other ↦ elim (Bool-cases (k == j)) [
          | inl e ↦
              let kj : (key == j) ≡ false =
                ap (λ x. key == x) (sym ((text_beq_iff k j).0 e)) ∙ other in
              rw (above, other, e, kj) refl
          | inr e ↦ rw (above, other, e) ih
        ]
      ]
    ]

value_in-sorted : (j : Text) (d : Writes) → value_in (sorted d) j ≡ value_in d j
unfolding value_in sorted
value_in-sorted j [] = refl
value_in-sorted j ((k, v) ∷ rest) =
    value_in-insert k v j (sorted rest)
    ∙ ap (λ x. if k == j then some v else x) (value_in-sorted j rest)

insert-StartsAt :
    (key value : Text) (entries : Writes)
    → StartsAt [] entries
    → StartsAt [] (insert key value entries)
unfolding insert key_lt
insert-StartsAt key value [] h = (refl, tt)
insert-StartsAt key value ((k, v) ∷ rest) h = elim (Bool-cases (key_lt key k)) [
  | inl below ↦ rw below (refl, (below, h.1))
  | inr above ↦ elim (Bool-cases (key == k)) [
    | inl same ↦
        rw (above, same)
          (refl, subst (λ x. Ascending x rest) (sym ((text_beq_iff key k).0 same)) h.1)
    | inr other ↦
        rw (above, other)
          (refl, insert-Ascending k key value rest (key_lt_total key k above other) h.1)
  ]
]

sorted-StartsAt : (d : Writes) → StartsAt [] (sorted d)
unfolding sorted
sorted-StartsAt [] = tt
sorted-StartsAt ((k, v) ∷ rest) = insert-StartsAt k v (sorted rest) (sorted-StartsAt rest)

Ascending-StartsAt :
    (before : Text) (entries : Writes) → Ascending before entries → StartsAt [] entries
unfolding key_lt
Ascending-StartsAt before [] h = tt
Ascending-StartsAt before ((k, v) ∷ rest) h = (refl, h.1)

from_key-StartsAt :
    (key : Text) (entries : Writes) → StartsAt [] entries → StartsAt key (from_key key entries)
unfolding from_key
from_key-StartsAt key [] h = tt
from_key-StartsAt key ((k, v) ∷ rest) h = elim (Bool-cases (key_lt k key)) [
  | inl below ↦ rw below (from_key-StartsAt key rest (Ascending-StartsAt k rest h.1))
  | inr above ↦ rw above (above, h.1)
]

value_in-from_key :
    (key j : Text) (entries : Writes)
    → key_lt j key ≡ false
    → value_in (from_key key entries) j ≡ value_in entries j
unfolding value_in from_key
value_in-from_key key j [] h = refl
value_in-from_key key j ((k, v) ∷ rest) h = elim (Bool-cases (key_lt k key)) [
  | inl below ↦ elim (Bool-cases (k == j)) [
    | inl e ↦
        elim (true_ne_false (sym below ∙ (ap (λ x. key_lt x key) ((text_beq_iff k j).0 e) ∙ h))) [ ]
    | inr e ↦ rw (below, e) (value_in-from_key key j rest h)
  ]
  | inr above ↦ rw above refl
]

delete_found-some :
    (key : Text) (d d' : Writes) (o : Option Text)
    → delete_found key d o ≡ some d'
    → without key d ≡ d'
unfolding delete_found
delete_found-some key d d' none e = cc
delete_found-some key d d' (some v) e = some-injective (without key d) d' e

delete_found-none :
    (key : Text) (d : Writes) (o : Option Text) → delete_found key d o ≡ none → o ≡ none
unfolding delete_found
delete_found-none key d none e = refl
delete_found-none key d (some v) e = cc

pub memory-IsStore : IsStore memory
unfolding value_in delete_found sorted from_key
memory-IsStore = record {
  get-put =
      λ d d' key value j e. ap (λ x. value_in x j) (sym (some-injective ((key, value) ∷ d) d' e));
  get-del = λ d d' key j e.
      ap (λ x. value_in x j) (sym (delete_found-some key d d' (value_in d key) e))
      ∙ value_in-without key j d;
  del_missing = λ d key e. delete_found-none key d (value_in d key) e;
  ordered = λ d key. from_key-StartsAt key (sorted d) (sorted-StartsAt d);
  listed = λ d key j h. value_in-from_key key j (sorted d) h ∙ value_in-sorted j d;
  get-open_environment = λ d j. refl;
}

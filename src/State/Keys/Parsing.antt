-- ===== src/State/Keys/Parsing.antt =====
-- The key of an item gives back its run and its item.
use req_pack_core.Prelude.{
  ℕ, zero, suc, ◌/◌, ltb, ◌≡◌, ◌≢◌, refl, nat_eq, Text, text_eq, [], ◌∷◌, ◌++◌, some,
  is_empty_of_ne, starts_with, append_assoc, Bool-cases, inl, inr, beq_refl,
}
use req_pack_core.Types.{Package}
use req_pack_core.State.Records.{ActionCodes}
use req_pack_core.State.Fields.{split_first}
use req_pack_core.State.Fields.Escaping.{Without}
use req_pack_core.State.Keys.{
  hex_from, to_hex, transaction_database_item_prefix, parse_item_key,
  transaction_database_item_id_for_package, transaction_database_item_key,
}

pub split_first-append :
    (byte : ℕ) (before behind : Text)
    → Without byte before
    → split_first byte (before ++ (byte ∷ behind)) ≡ some (before, behind)
unfolding split_first
split_first-append byte [] behind h = rw (beq_refl byte) refl
split_first-append byte (c ∷ before) behind h =
    rw (h.0, split_first-append byte before behind h.1) refl

hex_from-ne_nil : (fuel n c : ℕ) (digits : Text) → hex_from fuel n (c ∷ digits) ≢ []
unfolding hex_from
hex_from-ne_nil zero n c digits = λ e. cc
hex_from-ne_nil (suc fuel) n c digits = elim (Bool-cases (ltb n 16)) [
  | inl small ↦ rw small (λ e. cc)
  | inr big ↦ rw big (hex_from-ne_nil fuel (n / 16) _ (c ∷ digits))
]

-- A number is printed with one digit at least.
pub to_hex-ne_nil : (n : ℕ) → to_hex n ≢ []
unfolding to_hex
to_hex-ne_nil n = elim (Bool-cases (ltb n 16)) [
  | inl small ↦ rw (hex_from, small) (λ e. cc)
  | inr big ↦ rw (hex_from, big) (hex_from-ne_nil 15 (n / 16) _ [])
]

pub item_id-ne_nil :
    (actions : ActionCodes) (p : Package) → transaction_database_item_id_for_package actions p ≢ []
unfolding transaction_database_item_id_for_package
item_id-ne_nil actions p = to_hex-ne_nil _

-- A key is taken apart into its run and its item, if the run has no colon and neither is empty.
pub parse_item_key-prefix :
    (run_id item_id : Text)
    → run_id ≢ []
    → item_id ≢ []
    → Without b':' run_id
    → parse_item_key (transaction_database_item_prefix run_id ++ item_id) ≡ some (run_id, item_id)
unfolding parse_item_key transaction_database_item_prefix starts_with
parse_item_key-prefix run_id item_id named item plain =
    rw
      (
        append_assoc run_id (b':' ∷ []) item_id,
        split_first-append b':' run_id item_id plain,
        is_empty_of_ne run_id named,
        is_empty_of_ne item_id item,
      )
      refl

-- The key that is written for a package of a run gives back the run and the identifier of the
-- package, if the run's identifier is not empty and has no colon.
pub parse_item_key-item_key :
    (actions : ActionCodes) (run_id : Text) (p : Package)
    → run_id ≢ []
    → Without b':' run_id
    → parse_item_key (transaction_database_item_key actions run_id p)
      ≡ some (run_id, transaction_database_item_id_for_package actions p)
unfolding transaction_database_item_key
parse_item_key-item_key actions run_id p named plain =
    parse_item_key-prefix run_id _ named (item_id-ne_nil actions p) plain

-- ===== src/State/Fields.antt =====
-- ecosystem/state/transaction_database_store.cpp: lines, and the escaping of a field's value.
pub mod Escaping
pub mod Lines
use req_pack_core.Prelude.{
  ℕ, zero, suc, ◌+◌, ◌-◌, ◌*◌, ◌/◌, ◌%◌, ◌^◌, ◌<◌, ltb, leb, Bool, true, false, not, ◌&&◌, ◌||◌,
  ◌==◌, if◌then◌else◌, nat_eq, Text, text_eq, codes, List, [], ◌∷◌, ◌++◌, Option, none, some, ℤ,
  pos, is_empty, starts_with, take, drop, length,
}
use req_pack_core.Types.{ActionType, Package, empty_package}
use req_pack_core.Decimal.{to_string, stoul, stoi}

pub add_to_split : ℕ → Option (Text × Text) → Option (Text × Text)
add_to_split c none = none
add_to_split c (some (before, behind)) = some (c ∷ before, behind)

-- `text.find(byte)`, as what stands before the byte and what stands behind it.
unfoldable pub split_first : ℕ → Text → Option (Text × Text)
unfolding add_to_split
split_first byte [] = none
split_first byte (c ∷ rest) =
    if c == byte then some ([], rest) else add_to_split c (split_first byte rest)

-- `std::getline` until the stream ends.
pub add_to_first : ℕ → List Text → List Text
add_to_first c [] = (c ∷ []) ∷ []
add_to_first c (line ∷ rest) = (c ∷ line) ∷ rest

unfoldable pub getlines : ℕ → Text → List Text
unfolding add_to_first
getlines separator [] = []
getlines separator (c ∷ rest) =
    let more = getlines separator rest in if c == separator then [] ∷ more else add_to_first c more

pub transaction_database_escape_field : Text → Text
transaction_database_escape_field [] = []
transaction_database_escape_field (c ∷ rest) =
    let more = transaction_database_escape_field rest in
    if c == 92 || c == 10 then 92 ∷ (if c == 10 then b'n' else c) ∷ more else c ∷ more

-- The loop, with its flag `escaped`.
unfoldable pub unescape_from : Bool → Text → Text
unescape_from escaped [] = []
unescape_from false (c ∷ rest) =
    let more = unescape_from (c == 92) rest in if c == 92 then more else c ∷ more
unescape_from true (c ∷ rest) = (if c == b'n' then 10 else c) ∷ unescape_from false rest

-- What the search for the first backslash found.
unescape_at : Text → Option (Text × Text) → Text
unfolding unescape_from
unescape_at value none = value
unescape_at value (some (plain, rest)) = plain ++ unescape_from false (92 ∷ rest)

unfoldable pub transaction_database_unescape_field : Text → Text
unfolding unescape_at
transaction_database_unescape_field value = unescape_at value (split_first 92 value)

-- `stream << key << escape(value) << '\n'`, before the rest of the stream.
unfoldable pub field : Text → Text → Text → Text
field key value rest = key ++ (transaction_database_escape_field value ++ (10 ∷ rest))

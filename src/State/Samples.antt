-- ===== src/State/Samples.antt =====
-- Stored runs and items on small inputs.
use req_pack_core.Prelude.{
  ◌≡◌, refl, Text, codes, List, [], ◌∷◌, some, true, false, all_of, arith, ℕ, ℤ, pos, negsuc,
}
use req_pack_core.Types.{
  ActionType, empty_package, unknown, install, ensure, remove, update, search, list, info, outdated,
  snapshot, pack, serve, remote, sbom, audit, host,
}
use req_pack_core.State.Records.{TransactionRunRecord, TransactionItemRecord, ActionCodes}
use req_pack_core.State.Fields.{
  transaction_database_escape_field, transaction_database_unescape_field, unescape_from,
}
use req_pack_core.State.Keys.{
  parse_item_key, transaction_database_item_key, transaction_database_item_id_for_package,
}
use req_pack_core.State.Keys.Parsing.{parse_item_key-item_key, item_id-ne_nil}
use req_pack_core.State.Fields.Escaping.{
  unescape-escape, unescape-eq-unescape_from, Without, all_of-Without,
}
use req_pack_core.State.Runs.{
  transaction_database_serialize_run, transaction_database_deserialize_run,
}
use req_pack_core.State.Runs.RoundTrip.{
  IsComplete, deserialize_run-serialize, deserialize_run-semicolon,
}
use req_pack_core.State.Items.{
  transaction_database_serialize_item, transaction_database_deserialize_item,
}
use req_pack_core.State.Items.RoundTrip.{IsFaithful, restored, deserialize_item-serialize}

unescape-escape_example :
    transaction_database_unescape_field (transaction_database_escape_field (92 ∷ 10 ∷ []))
    ≡ 92 ∷ 10 ∷ []
unescape-escape_example = unescape-escape (92 ∷ 10 ∷ [])

-- A numbering of the actions.
code : ActionType → ℕ
code unknown = 0
code install = 1
code ensure = 2
code remove = 3
code update = 4
code search = 5
code list = 6
code info = 7
code outdated = 8
code snapshot = 9
code pack = 10
code serve = 11
code remote = 12
code sbom = 13
code audit = 14
code host = 15

by_code : List ActionType
by_code =
    unknown ∷ install ∷ ensure ∷ remove ∷ update ∷ search ∷ list ∷ info ∷ outdated ∷ snapshot ∷ pack
    ∷ serve ∷ remote ∷ sbom ∷ audit ∷ host ∷ []

nth : List ActionType → ℕ → ActionType
nth [] n = unknown
nth (a ∷ rest) ℕ.zero = a
nth (a ∷ rest) (ℕ.suc n) = nth rest n

of_code : ℤ → ActionType
unfolding nth by_code
of_code (pos n) = nth by_code n
of_code (negsuc n) = unknown

abbrev numbering : ActionCodes
numbering = record { code = code; of_code = of_code }

numbering-IsFaithful : IsFaithful numbering
unfolding code of_code
numbering-IsFaithful = record { small = λ a. ground arith; back = λ a. ground arith }

abbrev stored : TransactionItemRecord
stored = record {
  run_id = codes "1700-1";
  item_id = codes "x";
  sequence = 3;
  pkg = record empty_package {
    action = install;
    system = codes "npm";
    name = codes "left-pad";
    version = codes "1.3";
    flags = codes "--force" ∷ [];
    direct_request = true;
  };
  status = codes "planned";
  error_message = [];
}

abbrev opened : TransactionRunRecord
opened = record {
  id = codes "1700-1";
  state = codes "open";
  created_at = codes "1700";
  updated_at = codes "1700";
  flags = codes "--force" ∷ codes "-y" ∷ [];
}

opened-IsComplete : IsComplete opened
opened-IsComplete = record {
  id = λ e. cc;
  state = λ e. cc;
  created_at = λ e. cc;
  updated_at = λ e. cc;
}

deserialize_run-serialize_example :
    transaction_database_deserialize_run
      (codes "1700-1")
      (transaction_database_serialize_run opened)
    ≡ some opened
unfolding all_of
deserialize_run-serialize_example = deserialize_run-serialize opened opened-IsComplete (
  (λ e. cc, all_of-Without b';' (codes "--force") refl),
  ((λ e. cc, all_of-Without b';' (codes "-y") refl), tt),
)

abbrev joined : TransactionRunRecord
joined = record opened { flags = codes "--a=x;y" ∷ [] }

joined-IsComplete : IsComplete joined
joined-IsComplete = record {
  id = λ e. cc;
  state = λ e. cc;
  created_at = λ e. cc;
  updated_at = λ e. cc;
}

deserialize_run-semicolon_example :
    transaction_database_deserialize_run
      (codes "1700-1")
      (transaction_database_serialize_run joined)
    ≡ some (record opened { flags = codes "--a=x" ∷ codes "y" ∷ [] })
unfolding all_of
deserialize_run-semicolon_example =
    deserialize_run-semicolon joined (codes "--a=x") (codes "y") joined-IsComplete
      (λ e. cc, all_of-Without b';' (codes "--a=x") refl)
      (λ e. cc, all_of-Without b';' (codes "y") refl) refl

run_id-Without : Without b':' (codes "1700-1")
unfolding all_of
run_id-Without = all_of-Without b':' (codes "1700-1") refl

parse_item_key-item_key_example :
    parse_item_key (transaction_database_item_key numbering (codes "1700-1") stored.pkg)
    ≡ some (codes "1700-1", transaction_database_item_id_for_package numbering stored.pkg)
parse_item_key-item_key_example =
    parse_item_key-item_key numbering (codes "1700-1") stored.pkg (λ e. cc) run_id-Without

abbrev stored_id : Text
stored_id = transaction_database_item_id_for_package numbering stored.pkg

deserialize_item-serialize_example :
    transaction_database_deserialize_item numbering
      (transaction_database_item_key numbering (codes "1700-1") stored.pkg)
      (transaction_database_serialize_item numbering stored)
    ≡ some (restored numbering stored (codes "1700-1") stored_id)
deserialize_item-serialize_example =
    deserialize_item-serialize numbering stored
      (transaction_database_item_key numbering (codes "1700-1") stored.pkg) (codes "1700-1")
      stored_id numbering-IsFaithful parse_item_key-item_key_example (λ e. cc)
      (item_id-ne_nil numbering stored.pkg) (omega arith) (λ e. cc)

unescape-eq-unescape_from_example :
    transaction_database_unescape_field (codes "a\\n") ≡ unescape_from false (codes "a\\n")
unescape-eq-unescape_from_example = unescape-eq-unescape_from (codes "a\\n")

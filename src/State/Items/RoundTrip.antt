-- ===== src/State/Items/RoundTrip.antt =====
-- An item that is written is read back, but for what is not written.
use req_pack_core.Prelude.{
  ◌<◌, ◌^◌, Bool, true, false, ◌≡◌, ◌≢◌, refl, ◌∙◌, if◌then◌else◌, nat_eq, Text, text_eq, text_beq,
  codes, List, [], ◌∷◌, ◌++◌, some, pos, all_of, is_empty_of_ne,
}
use req_pack_core.Types.{ActionType, empty_package}
use req_pack_core.Decimal.{to_string, is_digit}
use req_pack_core.Decimal.RoundTrip.{to_string-Without, stoul-to_string, stoi-to_string}
use req_pack_core.State.Records.{TransactionItemRecord, ActionCodes}
use req_pack_core.State.Fields.{
  split_first, getlines, field, transaction_database_escape_field,
  transaction_database_unescape_field,
}
use req_pack_core.State.Fields.Escaping.{Without, unescape-escape, unescape-plain}
use req_pack_core.State.Fields.Lines.{getlines-field_then, getlines-key_then}
use req_pack_core.State.Keys.{parse_item_key}
use req_pack_core.State.Items.{
  transaction_database_serialize_item, transaction_database_deserialize_item, read_item_lines,
  fresh_item, ItemParse, set_local_target, set_item_field,
}

-- What the code relies on of the numbers of the enumerators: they fit in an `int`, and the cast
-- back undoes the cast.
pub record IsFaithful (actions : ActionCodes) : Type 0 where
  pub small : (a : ActionType) → actions.code a < 2 ^ 31
  pub back : (a : ActionType) → actions.of_code (pos (actions.code a)) ≡ a

-- The text of `localTarget`.
mark : Bool → Text
mark b = (if b then b'1' else b'0') ∷ []

mark-Without : (b : Bool) → (Without 10 (mark b)) × (Without 92 (mark b))
unfolding mark
mark-Without true = ((refl, tt), (refl, tt))
mark-Without false = ((refl, tt), (refl, tt))

set_local_target-mark :
    (b : Bool) (p : ItemParse)
    → set_local_target (transaction_database_unescape_field (mark b)) p
      ≡ some (record p {
        item = record (p.item) { pkg = record (p.item.pkg) { local_target = b } };
        has_local_target = true;
      })
unfolding set_local_target text_beq mark
set_local_target-mark true p = rw (unescape-plain (mark true) (mark-Without true).1) refl
set_local_target-mark false p = rw (unescape-plain (mark false) (mark-Without false).1) refl

abbrev tail_lines : TransactionItemRecord → List Text
tail_lines item =
    (codes "localTarget=" ++ mark item.pkg.local_target)
    ∷ (codes "status=" ++ transaction_database_escape_field item.status)
    ∷ (codes "error=" ++ transaction_database_escape_field item.error_message)
    ∷ []

-- What the first six lines leave in the variables of the loop.
abbrev head_read : TransactionItemRecord → Text → Text → ItemParse
head_read item run_id item_id = record {
  item = record {
    run_id = run_id;
    item_id = item_id;
    sequence = item.sequence;
    pkg = record (item.pkg) { local_target = false; flags = []; direct_request = false };
    status = [];
    error_message = [];
  };
  has_sequence = true;
  has_action = true;
  has_system = true;
  has_name = true;
  has_version = true;
  has_source_path = true;
  has_local_target = false;
  has_status = false;
  has_error = false;
}

module _ (actions : ActionCodes) where
  abbrev head_lines : TransactionItemRecord → List Text → List Text
  head_lines item rest =
      (codes "sequence=" ++ to_string item.sequence)
      ∷ (codes "action=" ++ to_string (actions.code item.pkg.action))
      ∷ (codes "system=" ++ transaction_database_escape_field item.pkg.system)
      ∷ (codes "name=" ++ transaction_database_escape_field item.pkg.name)
      ∷ (codes "version=" ++ transaction_database_escape_field item.pkg.version)
      ∷ (codes "sourcePath=" ++ transaction_database_escape_field item.pkg.source_path)
      ∷ rest

  serialized_lines :
      (item : TransactionItemRecord)
      → getlines 10 (transaction_database_serialize_item actions item)
        ≡ head_lines item (tail_lines item)
  unfolding transaction_database_serialize_item all_of getlines is_digit mark
  serialized_lines item =
      getlines-key_then (codes "sequence=") (to_string item.sequence) _ refl
        (to_string-Without 10 item.sequence refl)
        (getlines-key_then (codes "action=") (to_string (actions.code item.pkg.action)) _ refl
          (to_string-Without 10 (actions.code item.pkg.action) refl)
          (getlines-field_then (codes "system=") item.pkg.system _ refl (
            getlines-field_then (codes "name=") item.pkg.name _ refl (
              getlines-field_then (codes "version=") item.pkg.version _ refl (
                getlines-field_then (codes "sourcePath=") item.pkg.source_path _ refl (
                  getlines-key_then (codes "localTarget=") (mark item.pkg.local_target)
                    (field (codes "status=") item.status
                      (field (codes "error=") item.error_message []))
                    refl (mark-Without item.pkg.local_target).0
                    (getlines-field_then (codes "status=") item.status
                      (field (codes "error=") item.error_message []) refl
                      (getlines-field_then (codes "error=") item.error_message [] refl refl))))))))

  -- One line whose key and value are known.
  read_line :
      (key raw value : Text) (rest : List Text) (p q : ItemParse)
      → split_first b'=' (key ++ (b'=' ∷ raw)) ≡ some (key, raw)
      → transaction_database_unescape_field raw ≡ value
      → set_item_field actions key value p ≡ some q
      → read_item_lines actions ((key ++ (b'=' ∷ raw)) ∷ rest) (some p)
        ≡ read_item_lines actions rest (some q)
  unfolding read_item_lines
  read_line key raw value rest p q split unescaped set =
      rw (read_item_lines, split, unescaped, set) refl

  -- The first six lines, from the values at the start of the loop.
  read_head :
      (item : TransactionItemRecord) (run_id item_id : Text) (rest : List Text)
      → IsFaithful actions
      → item.sequence < 2 ^ 64
      → read_item_lines actions (head_lines item rest) (some (fresh_item run_id item_id))
        ≡ read_item_lines actions rest (some (head_read item run_id item_id))
  unfolding set_item_field split_first text_beq is_digit
  read_head item run_id item_id rest faithful small =
      let number = item.sequence in
      let action = actions.code item.pkg.action in
      let p0 = fresh_item run_id item_id in
      let p1 = record p0 { item = record (p0.item) { sequence = number }; has_sequence = true } in
      let p2 = record p1 {
        item = record (p1.item) { pkg = record empty_package { action = item.pkg.action } };
        has_action = true;
      } in
      let p3 = record p2 {
        item = record (p2.item) { pkg = record (p2.item.pkg) { system = item.pkg.system } };
        has_system = true;
      } in
      let p4 = record p3 {
        item = record (p3.item) { pkg = record (p3.item.pkg) { name = item.pkg.name } };
        has_name = true;
      } in
      let p5 = record p4 {
        item = record (p4.item) { pkg = record (p4.item.pkg) { version = item.pkg.version } };
        has_version = true;
      } in
      read_line (codes "sequence") (to_string number) (to_string number) _ p0 p1 refl
        (unescape-plain _ (to_string-Without 92 number refl))
        (rw (stoul-to_string number small) refl)
      ∙ read_line (codes "action") (to_string action) (to_string action) _ p1 p2 refl
          (unescape-plain _ (to_string-Without 92 action refl))
          (rw (stoi-to_string action (faithful.small item.pkg.action), faithful.back) refl)
      ∙ read_line (codes "system") _ item.pkg.system _ p2 p3 refl (unescape-escape _) refl
      ∙ read_line (codes "name") _ item.pkg.name _ p3 p4 refl (unescape-escape _) refl
      ∙ read_line (codes "version") _ item.pkg.version _ p4 p5 refl (unescape-escape _) refl
      ∙ read_line (codes "sourcePath") _ item.pkg.source_path _ p5 _ refl (unescape-escape _) refl

  -- The last three lines.
  read_tail :
      (item : TransactionItemRecord) (p : ItemParse)
      → read_item_lines actions (tail_lines item) (some p)
        ≡ some (record p {
          item = record (p.item) {
            pkg = record (p.item.pkg) { local_target = item.pkg.local_target };
            status = item.status;
            error_message = item.error_message;
          };
          has_local_target = true;
          has_status = true;
          has_error = true;
        })
  unfolding read_item_lines split_first text_beq
  read_tail item p = rw (set_local_target-mark, unescape-escape, unescape-escape) refl

  -- What is read back: flags and `directRequest` are not written.
  abbrev pub restored : TransactionItemRecord → Text → Text → TransactionItemRecord
  restored item run_id item_id = record item {
    run_id = run_id;
    item_id = item_id;
    pkg = record (item.pkg) { flags = []; direct_request = false };
  }

  -- An item is read back with the run and the identifier that its key names, if its sequence number
  -- has 64 bits and its status is not empty. Everything else that is written comes back; the
  -- package's flags and its mark as a direct request are lost.
  pub deserialize_item-serialize :
      (item : TransactionItemRecord) (key run_id item_id : Text)
      → IsFaithful actions
      → parse_item_key key ≡ some (run_id, item_id)
      → run_id ≢ []
      → item_id ≢ []
      → item.sequence < 2 ^ 64
      → item.status ≢ []
      → transaction_database_deserialize_item actions key
          (transaction_database_serialize_item actions item)
        ≡ some (restored item run_id item_id)
  unfolding transaction_database_deserialize_item
  deserialize_item-serialize item key run_id item_id faithful parsed named identified small status =
      rw
        (
          parsed,
          serialized_lines item,
          read_head item run_id item_id (tail_lines item) faithful small,
          read_tail item (head_read item run_id item_id),
          is_empty_of_ne run_id named,
          is_empty_of_ne item_id identified,
          is_empty_of_ne item.status status,
        )
        refl

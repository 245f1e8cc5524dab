-- ===== src/State/Runs.antt =====
-- ecosystem/state/transaction_database_store.cpp: how a run is written and read.
pub mod RoundTrip
use req_pack_core.Prelude.{
  ℕ, zero, suc, ◌+◌, ◌-◌, ◌*◌, ◌/◌, ◌%◌, ◌^◌, ◌<◌, ltb, leb, Bool, true, false, not, ◌&&◌, ◌||◌,
  ◌==◌, if◌then◌else◌, nat_eq, Text, text_eq, codes, List, [], ◌∷◌, ◌++◌, Option, none, some, ℤ,
  pos, is_empty, starts_with, take, drop, length,
}
use req_pack_core.Types.{ActionType, Package, empty_package}
use req_pack_core.Decimal.{to_string, stoul, stoi}
use req_pack_core.State.Records.{TransactionRunRecord}
use req_pack_core.State.Fields.{
  split_first, getlines, field, transaction_database_escape_field,
  transaction_database_unescape_field,
}

join_flags : List Text → Text
join_flags [] = []
join_flags (flag ∷ []) = transaction_database_escape_field flag
join_flags (flag ∷ more) = transaction_database_escape_field flag ++ (b';' ∷ join_flags more)

pub transaction_database_serialize_run : TransactionRunRecord → Text
unfolding field join_flags
transaction_database_serialize_run run = field (codes "state=") run.state (
    field (codes "createdAt=") run.created_at (
      field (codes "updatedAt=") run.updated_at
        (codes "flags=" ++ (join_flags run.flags ++ (10 ∷ [])))))

-- The variables of the loop of `deserialize_run`.
pub record RunParse : Type 0 where
  pub run : TransactionRunRecord
  pub has_state : Bool
  pub has_created_at : Bool
  pub has_updated_at : Bool

push_flags : List Text → List Text → List Text
push_flags flags [] = flags
push_flags flags (flag ∷ rest) =
    push_flags (if is_empty flag then flags else flags ++ (flag ∷ [])) rest

set_run_field : Text → Text → RunParse → RunParse
unfolding push_flags getlines
set_run_field key value p =
    if key == codes "state"
    then record p { run = record (p.run) { state = value }; has_state = true }
    else if key == codes "createdAt"
    then record p { run = record (p.run) { created_at = value }; has_created_at = true }
    else if key == codes "updatedAt"
    then record p { run = record (p.run) { updated_at = value }; has_updated_at = true }
    else if key == codes "flags"
    then record p { run = record (p.run) { flags = push_flags p.run.flags (getlines b';' value) } }
    else p

read_run_lines : List Text → RunParse → RunParse
unfolding set_run_field split_first
read_run_lines [] p = p
read_run_lines (line ∷ rest) p = read_run_lines rest (elim (split_first b'=' line) [
  | none ↦ p
  | some (key, value) ↦ set_run_field key (transaction_database_unescape_field value) p
])

finish_run : RunParse → Option TransactionRunRecord
finish_run p =
    if is_empty p.run.id
      || not p.has_state
      || not p.has_created_at
      || not p.has_updated_at
      || is_empty p.run.state
      || is_empty p.run.created_at
      || is_empty p.run.updated_at
    then none
    else some p.run

unfoldable pub transaction_database_deserialize_run : Text → Text → Option TransactionRunRecord
unfolding read_run_lines finish_run getlines
transaction_database_deserialize_run run_id payload = finish_run (
    read_run_lines (getlines 10 payload) (record {
      run = record { id = run_id; state = []; created_at = []; updated_at = []; flags = [] };
      has_state = false;
      has_created_at = false;
      has_updated_at = false;
    }))

-- ===== src/State/Records.antt =====
-- ecosystem/state/transaction_database.h: the records that the database keeps. The numbers of the
-- enumerators of `ActionType` are declared in the security library: they are the parameter
-- `ActionCodes`.
use req_pack_core.Prelude.{ℕ, nat_eq, Text, text_eq, List, ℤ}
use req_pack_core.Types.{ActionType, Package}

pub record TransactionRunRecord : Type 0 where
  pub id : Text
  pub state : Text
  pub created_at : Text
  pub updated_at : Text
  pub flags : List Text

pub record TransactionItemRecord : Type 0 where
  pub run_id : Text
  pub item_id : Text
  pub sequence : ℕ
  pub pkg : Package
  pub status : Text
  pub error_message : Text

-- `static_cast<int>(action)` and `static_cast<ActionType>(number)`.
pub record ActionCodes : Type 0 where
  pub code : ActionType → ℕ
  pub of_code : ℤ → ActionType

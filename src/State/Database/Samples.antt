-- ===== src/State/Database/Samples.antt =====
-- Creating a run in a store in memory.
use req_pack_core.Prelude.{
  ℕ, ◌+◌, false, nat_eq, Text, text_eq, codes, List, [], ◌∷◌, ◌≡◌, ◌≢◌, refl,
}
use req_pack_core.Types.{Package, empty_package, install}
use req_pack_core.Decimal.{to_string}
use req_pack_core.State.Records.{ActionCodes}
use req_pack_core.State.Store.{value_in}
use req_pack_core.State.Store.Memory.{memory, memory-IsStore, Writes}
use req_pack_core.State.Database.{TransactionDatabase, create_run, new_run_id}
use req_pack_core.State.Database.Written.{Created}
use req_pack_core.State.Database.Create.{create_run-Created, append_cons-ne_nil}
use req_pack_core.State.Database.Exclusive.{create_run-create_run}

abbrev no_codes : ActionCodes
no_codes = record { code = λ a. 1; of_code = λ n. install }

abbrev millis : ℕ → ℕ
millis n = 1700 + n

abbrev empty_database : TransactionDatabase Writes
empty_database = record { initialized = false; env = []; readings = 0 }

abbrev one_package : List Package
one_package =
    record empty_package { action = install; system = codes "npm"; name = codes "left-pad" } ∷ []

created : (create_run memory no_codes millis one_package [] empty_database).0 ≢ []
unfolding create_run value_in new_run_id
created = append_cons-ne_nil memory memory-IsStore no_codes (to_string 1700) (to_string 1) b'-'

create_run-Created_example :
    Created memory memory-IsStore no_codes millis
      (create_run memory no_codes millis one_package [] empty_database).0
      one_package
      []
      (create_run memory no_codes millis one_package [] empty_database).1.env
create_run-Created_example =
    create_run-Created memory memory-IsStore no_codes millis one_package [] empty_database created

create_run-create_run_example :
    let first = create_run memory no_codes millis one_package [] empty_database in
    let second = create_run memory no_codes millis [] (codes "--force" ∷ []) first.1 in
    (second.0 ≡ []) × ((key : Text) → value_in second.1.env key ≡ value_in first.1.env key)
create_run-create_run_example =
    create_run-create_run memory memory-IsStore no_codes millis one_package [] []
      (codes "--force" ∷ []) empty_database created refl

-- ===== src/State/Fields/Lines.antt =====
-- What `std::getline` reads of lines that were written.
use req_pack_core.Prelude.{
  ℕ, true, not, ◌==◌, ◌≡◌, refl, ap, ◌∙◌, nat_eq, Text, text_eq, List, [], ◌∷◌, ◌++◌, all_of,
  All-append, append_assoc, beq_refl,
}
use req_pack_core.State.Fields.{getlines, field, transaction_database_escape_field}
use req_pack_core.State.Fields.Escaping.{Without, all_of-Without, escape-Without}

pub getlines-line :
    (byte : ℕ) (line rest : Text)
    → Without byte line
    → getlines byte (line ++ (byte ∷ rest)) ≡ line ∷ getlines byte rest
unfolding getlines
getlines-line byte [] rest h = rw (beq_refl byte) refl
getlines-line byte (c ∷ line) rest h = rw (h.0, getlines-line byte line rest h.1) refl

pub getlines-last :
    (byte c : ℕ) (line : Text)
    → Without byte (c ∷ line)
    → getlines byte (c ∷ line) ≡ (c ∷ line) ∷ []
unfolding getlines
getlines-last byte c [] h = rw h.0 refl
getlines-last byte c (d ∷ line) h = rw (h.0, getlines-last byte d line h.1) refl

-- A written field is one line, whatever its value.
pub getlines-field :
    (key value rest : Text)
    → Without 10 key
    → getlines 10 (field key value rest)
      ≡ (key ++ transaction_database_escape_field value) ∷ getlines 10 rest
unfolding field
getlines-field key value rest h =
    rw (← append_assoc key (transaction_database_escape_field value) (10 ∷ rest))
      (getlines-line 10 _ rest (All-append _ key _ h (escape-Without value)))

abbrev pub IsKey : Text → Type 0
IsKey key = all_of (λ c. not (c == 10)) key ≡ true

module _ (key value rest : Text) {lines : List Text} where
  pub getlines-field_then :
      IsKey key
      → getlines 10 rest ≡ lines
      → getlines 10 (field key value rest)
        ≡ (key ++ transaction_database_escape_field value) ∷ lines
  getlines-field_then plain e =
      getlines-field key value rest (all_of-Without 10 key plain)
      ∙ ap (◌∷◌ (key ++ transaction_database_escape_field value)) e

  pub getlines-key_then :
      IsKey key
      → Without 10 value
      → getlines 10 rest ≡ lines
      → getlines 10 (key ++ (value ++ (10 ∷ rest))) ≡ (key ++ value) ∷ lines
  getlines-key_then plain one_line e = rw (← append_assoc key value (10 ∷ rest)) (
      getlines-line 10 (key ++ value) rest
        (All-append _ key value (all_of-Without 10 key plain) one_line)
      ∙ ap (◌∷◌ (key ++ value)) e)

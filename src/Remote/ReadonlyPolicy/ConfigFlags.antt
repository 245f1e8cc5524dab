-- ===== src/Remote/ReadonlyPolicy/ConfigFlags.antt =====
-- Configuration flags on a command line, and what the read-only policy makes of them.
use req_pack_core.Prelude.{
  Bool, true, false, ◌==◌, Text, text_eq, codes, List, [], ◌∷◌, ◌++◌, ◌≡◌, ◌∙◌, ◌⊎◌, inl, inr, refl,
  sym, ap, arith, starts_with, text_beq_iff, All, Option, none, some, Bool-cases, true_ne_false,
}
use req_pack_core.Remote.ReadonlyPolicy.{
  strip_from, strip_config_like_prefix_flags, is_config_word, is_config_assignment,
  command_line_blocked_in_readonly_mode, is_self_update_command_line, is_plugin_info_command_line,
  command_line_is_query_fast_path, is_security_status_or_doctor_command, is_version_print_command,
}

-- The parts of a command line: a word of the command, a flag with the value behind it, which may be
-- any token, and a flag that holds its value.
pub data Part : Type 0 where
  word : Text → Part
  flag : Text → Text → Part
  assignment : Text → Part

abbrev pub IsFlag : Text → Type 0
IsFlag token = (token ≡ codes "--config") ⊎ (token ≡ codes "-c")

abbrev pub IsAssignment : Text → Type 0
IsAssignment token =
    (starts_with token (codes "--config=") ≡ true) ⊎ (starts_with token (codes "-c=") ≡ true)

abbrev pub IsPart : Part → Type 0
IsPart (word token) = (¬ IsFlag token) × (¬ IsAssignment token)
IsPart (flag token value) = IsFlag token
IsPart (assignment token) = IsAssignment token

abbrev pub tokens_of : Part → List Text
tokens_of (word token) = token ∷ []
tokens_of (flag token value) = token ∷ value ∷ []
tokens_of (assignment token) = token ∷ []

-- The command line that the parts make up; a flag at its end may have no value.
pub command_line : List Part → Option Text → List Text
command_line [] none = []
command_line [] (some last) = last ∷ []
command_line (part ∷ rest) end = tokens_of part ++ command_line rest end

-- The words of the command.
pub words_of : List Part → List Text
words_of [] = []
words_of (word token ∷ rest) = token ∷ words_of rest
words_of (flag token value ∷ rest) = words_of rest
words_of (assignment token ∷ rest) = words_of rest

abbrev pub IsEnd : Option Text → Type 0
IsEnd none = Unit
IsEnd (some last) = IsFlag last

IsFlag-is_config_word : (token : Text) → IsFlag token → is_config_word token ≡ true
unfolding is_config_word
IsFlag-is_config_word token (inl e) = ground (arith, (text_beq_iff token (codes "--config")).1 e)
IsFlag-is_config_word token (inr e) = ground (arith, (text_beq_iff token (codes "-c")).1 e)

is_config_word-IsFlag : (token : Text) → is_config_word token ≡ true → IsFlag token
unfolding is_config_word
is_config_word-IsFlag token e = elim (Bool-cases (token == codes "--config")) [
  | inl f ↦ inl ((text_beq_iff _ _).0 f)
  | inr f ↦ inr ((text_beq_iff token (codes "-c")).0 (ground arith))
]

IsAssignment-is_config_assignment :
    (token : Text) → IsAssignment token → is_config_assignment token ≡ true
unfolding is_config_assignment
IsAssignment-is_config_assignment token (inl e) = ground arith
IsAssignment-is_config_assignment token (inr e) = ground arith

is_config_assignment-IsAssignment :
    (token : Text) → is_config_assignment token ≡ true → IsAssignment token
unfolding is_config_assignment
is_config_assignment-IsAssignment token e =
    elim (Bool-cases (starts_with token (codes "--config="))) [
      | inl f ↦ inl f
      | inr f ↦ inr (ground arith)
    ]

is_false_of_not : (b : Bool) → ¬ (b ≡ true) → b ≡ false
is_false_of_not true n = absurd (n refl)
is_false_of_not false n = refl

IsFlag-IsAssignment_disjoint : (token : Text) → IsFlag token → ¬ IsAssignment token
unfolding starts_with
IsFlag-IsAssignment_disjoint token (inl e) (inl a) = true_ne_false (sym (rw e at a))
IsFlag-IsAssignment_disjoint token (inl e) (inr a) = true_ne_false (sym (rw e at a))
IsFlag-IsAssignment_disjoint token (inr e) (inl a) = true_ne_false (sym (rw e at a))
IsFlag-IsAssignment_disjoint token (inr e) (inr a) = true_ne_false (sym (rw e at a))

strip_from-command_line :
    (parts : List Part) (end : Option Text)
    → All IsPart parts
    → IsEnd end
    → strip_from false (command_line parts end) ≡ words_of parts
unfolding strip_from command_line words_of
strip_from-command_line [] none h e = refl
strip_from-command_line [] (some last) h e = rw (IsFlag-is_config_word last e) refl
strip_from-command_line (word token ∷ rest) end h e =
    rw
      (
        is_false_of_not _ (λ c. h.0.0 (is_config_word-IsFlag token c)),
        is_false_of_not _ (λ c. h.0.1 (is_config_assignment-IsAssignment token c)),
      )
      (ap (◌∷◌ token) (strip_from-command_line rest end h.1 e))
strip_from-command_line (flag token value ∷ rest) end h e =
    rw (IsFlag-is_config_word token h.0) (strip_from-command_line rest end h.1 e)
strip_from-command_line (assignment token ∷ rest) end h e =
    elim (Bool-cases (is_config_word token)) [
      | inl c ↦ elim (IsFlag-IsAssignment_disjoint token (is_config_word-IsFlag token c) h.0) [ ]
      | inr c ↦
          rw (c, IsAssignment-is_config_assignment token h.0)
            (strip_from-command_line rest end h.1 e)
    ]

strip_from-words :
    (parts : List Part) → All IsPart parts → strip_from false (words_of parts) ≡ words_of parts
unfolding strip_from words_of
strip_from-words [] h = refl
strip_from-words (word token ∷ rest) h =
    rw
      (
        is_false_of_not _ (λ c. h.0.0 (is_config_word-IsFlag token c)),
        is_false_of_not _ (λ c. h.0.1 (is_config_assignment-IsAssignment token c)),
      )
      (ap (◌∷◌ token) (strip_from-words rest h.1))
strip_from-words (flag token value ∷ rest) h = strip_from-words rest h.1
strip_from-words (assignment token ∷ rest) h = strip_from-words rest h.1

-- A token that both tests of the loop let through is a word.
pub word-IsPart :
    (token : Text)
    → is_config_word token ≡ false
    → is_config_assignment token ≡ false
    → IsPart (word token)
word-IsPart token e f = (
  λ h. true_ne_false (sym (IsFlag-is_config_word token h) ∙ e),
  λ h. true_ne_false (sym (IsAssignment-is_config_assignment token h) ∙ f),
)

-- The command line made up of the parts is the line of its words to the policy: with the flags
-- `--config` and `-c`, the values behind them (whatever these are), the flags that hold their value,
-- and a last flag without a value, each test answers what it answers on the words alone, if no word
-- is a flag of this kind.
pub readonly_policy-command_line :
    (parts : List Part) (end : Option Text)
    → All IsPart parts
    → IsEnd end
    → let line = command_line parts end in
      let words = words_of parts in
      (strip_config_like_prefix_flags line ≡ words)
      × (command_line_blocked_in_readonly_mode line ≡ command_line_blocked_in_readonly_mode words)
      × (is_self_update_command_line line ≡ is_self_update_command_line words)
      × (is_plugin_info_command_line line ≡ is_plugin_info_command_line words)
      × (command_line_is_query_fast_path line ≡ command_line_is_query_fast_path words)
unfolding strip_config_like_prefix_flags command_line_is_query_fast_path
    is_security_status_or_doctor_command is_version_print_command
    command_line_blocked_in_readonly_mode is_self_update_command_line is_plugin_info_command_line
readonly_policy-command_line parts end h e =
    let line : strip_from false (command_line parts end) ≡ words_of parts =
      strip_from-command_line parts end h e in
    let words : strip_from false (words_of parts) ≡ words_of parts = strip_from-words parts h in
    (
      line,
      rw (line, words) refl,
      rw (line, words) refl,
      rw (line, words) refl,
      rw (line, words) refl,
    )

-- ===== src/Platform/ActionTokens/Spellings.antt =====
-- Which words name which action.
use req_pack_core.Prelude.{
  true, false, ◌==◌, Text, text_eq, codes, to_lower_copy, to_lower_copy_idem, contains,
  contains-All, All, List, [], ◌∷◌, ◌≡◌, ◌≢◌, ◌↔◌, refl, arith, ap, Bool-cases, inl, inr, text_beq,
  text_beq_iff,
}
use req_pack_core.Types.{
  ActionType, unknown, install, ensure, remove, update, search, list, info, outdated, snapshot,
  pack, serve, remote, sbom, audit, host,
}
use req_pack_core.Platform.ActionTokens.{parse_action_token, action_of_word}

-- The documented words of each action.
abbrev pub spellings : ActionType → List Text
spellings install = codes "install" ∷ codes "i" ∷ []
spellings remove = codes "remove" ∷ codes "rm" ∷ []
spellings update = codes "update" ∷ codes "up" ∷ []
spellings search = codes "search" ∷ codes "s" ∷ codes "find" ∷ []
spellings list = codes "list" ∷ codes "ls" ∷ []
spellings info = codes "info" ∷ []
spellings ensure = codes "ensure" ∷ []
spellings sbom = codes "sbom" ∷ []
spellings audit = codes "audit" ∷ []
spellings outdated = codes "outdated" ∷ codes "out" ∷ []
spellings host = codes "host" ∷ []
spellings snapshot = codes "snapshot" ∷ []
spellings pack = codes "pack" ∷ []
spellings serve = codes "serve" ∷ []
spellings remote = codes "remote" ∷ []
spellings unknown = []

action_of_word-spelled :
    (word : Text) (a : ActionType)
    → action_of_word word ≡ a
    → a ≢ unknown
    → contains (spellings a) word ≡ true
unfolding action_of_word contains
action_of_word-spelled word a e known = ground arith

spelled-action_of_word : (a : ActionType) → All (λ s. action_of_word s ≡ a) (spellings a)
unfolding action_of_word text_beq
spelled-action_of_word unknown = tt
spelled-action_of_word install = (refl, (refl, tt))
spelled-action_of_word remove = (refl, (refl, tt))
spelled-action_of_word update = (refl, (refl, tt))
spelled-action_of_word search = (refl, (refl, (refl, tt)))
spelled-action_of_word list = (refl, (refl, tt))
spelled-action_of_word outdated = (refl, (refl, tt))
spelled-action_of_word _ = (refl, tt)

-- A word names an action other than UNKNOWN exactly if its lowered form is one of the words listed
-- for that action.
pub parse_action_token_iff :
    (command : Text) (a : ActionType)
    → a ≢ unknown
    → (parse_action_token command ≡ a) ↔ (contains (spellings a) (to_lower_copy command) ≡ true)
unfolding parse_action_token
parse_action_token_iff command a known = (
  λ e. action_of_word-spelled (to_lower_copy command) a e known,
  λ h.
      contains-All (λ s. action_of_word s ≡ a) (spellings a) (to_lower_copy command) h
        (spelled-action_of_word a),
)

-- Upper and lower case letters name the same action.
pub parse_action_token-to_lower_copy :
    (command : Text) → parse_action_token (to_lower_copy command) ≡ parse_action_token command
unfolding parse_action_token
parse_action_token-to_lower_copy command = rw to_lower_copy_idem

-- A word that names no action: a command that names one does not spell it.
pub ne_of_known :
    (command w : Text)
    → parse_action_token command ≢ unknown
    → action_of_word w ≡ unknown
    → (to_lower_copy command == w) ≡ false
unfolding parse_action_token
ne_of_known command w known e = elim (Bool-cases (to_lower_copy command == w)) [
  | inl same ↦ absurd (known (rw ((text_beq_iff _ _).0 same) e))
  | inr other ↦ other
]

-- The command words that other parts of the program read, and that name no action.
pub action_of_word_ensure : action_of_word (codes "ensure") ≡ ensure
unfolding action_of_word text_beq
action_of_word_ensure = refl

pub plugin_commands_unknown :
    (action_of_word (codes "plugin") ≡ unknown)
    × (action_of_word (codes "test-plugin") ≡ unknown)
    × (action_of_word (codes "self-update") ≡ unknown)
    × (action_of_word (codes "security") ≡ unknown)
    × (action_of_word (codes "version") ≡ unknown)
    × (action_of_word (codes "--version") ≡ unknown)
    × (action_of_word (codes "-v") ≡ unknown)
unfolding action_of_word text_beq
plugin_commands_unknown = (refl, refl, refl, refl, refl, refl, refl)

pub parse_of_word :
    (command w : Text)
    → (to_lower_copy command == w) ≡ true
    → parse_action_token command ≡ action_of_word w
unfolding parse_action_token
parse_of_word command w same = ap action_of_word ((text_beq_iff _ _).0 same)

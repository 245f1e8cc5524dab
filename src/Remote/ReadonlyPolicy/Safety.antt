-- ===== src/Remote/ReadonlyPolicy/Safety.antt =====
-- What the read-only policy lets through.
use req_pack_core.Prelude.{
  true, false, not, ◌||◌, ◌==◌, if◌then◌else◌, Text, text_eq, codes, to_lower_copy, List, [], ◌∷◌,
  ◌≡◌, ◌∙◌, beq_refl, text_beq_iff, ◌≢◌, refl, arith, Bool-cases, inl, inr, contains, All, all_of,
  text_beq, ◌↔◌,
}
use req_pack_core.Types.{
  ActionType, unknown, search, list, info, outdated, sbom, audit, Request, action_eq, action_beq,
}
use req_pack_core.Platform.ActionTokens.{parse_action_token, action_of_word}
use req_pack_core.Platform.ActionTokens.Spellings.{
  ne_of_known, parse_of_word, action_of_word_ensure, plugin_commands_unknown,
}
use req_pack_core.Remote.ReadonlyPolicy.{
  strip_config_like_prefix_flags, is_self_update, is_self_update_command_line, is_blocked,
  command_line_blocked_in_readonly_mode, requests_allowed_in_readonly_mode, is_status_or_doctor,
  is_version_word, is_security_status_or_doctor_command, is_version_print_command,
  command_line_is_query_fast_path, is_request_allowed,
}

-- The actions that only read.
abbrev pub query_actions : List ActionType
query_actions = search ∷ list ∷ info ∷ outdated ∷ sbom ∷ audit ∷ []

-- `is_self_update` and the tests before the `switch` let every named action through to it.
is_blocked_known :
    (front : Text) (rest : List Text)
    → parse_action_token front ≢ unknown
    → (if is_self_update (front ∷ rest) then true else is_blocked (front ∷ rest))
      ≡ not (contains query_actions (parse_action_token front))
unfolding is_blocked is_self_update contains action_beq
is_blocked_known front rest known = ground (
  arith,
  ne_of_known front (codes "plugin") known plugin_commands_unknown.0,
  ne_of_known front (codes "test-plugin") known plugin_commands_unknown.1,
  ne_of_known front (codes "self-update") known plugin_commands_unknown.2,
  parse_of_word front (codes "ensure"),
  action_of_word_ensure,
)

-- On a read-only server, a command line whose first word (after the removed configuration flags)
-- names an action is blocked exactly if the action is not one of the six that only read.
pub command_line_blocked-known :
    (tokens : List Text) (front : Text) (rest : List Text)
    → strip_config_like_prefix_flags tokens ≡ front ∷ rest
    → parse_action_token front ≢ unknown
    → command_line_blocked_in_readonly_mode tokens
      ≡ not (contains query_actions (parse_action_token front))
unfolding command_line_blocked_in_readonly_mode is_self_update_command_line
command_line_blocked-known tokens front rest e known = rw e (is_blocked_known front rest known)

-- The words with which the server's own commands begin, as they are after lowering.
abbrev IsServerWord : Text → Type 0
IsServerWord w =
    (action_of_word w ≡ unknown)
    × ((w == codes "self-update") ≡ false)
    × ((w == codes "test-plugin") ≡ false)
    × ((w == codes "plugin") ≡ false)
    × ((w == codes "ensure") ≡ false)

security-IsServerWord : IsServerWord (codes "security")
unfolding text_beq
security-IsServerWord = (plugin_commands_unknown.3, refl, refl, refl, refl)

version-IsServerWord : IsServerWord (codes "version")
unfolding text_beq
version-IsServerWord = (plugin_commands_unknown.4, refl, refl, refl, refl)

long_version-IsServerWord : IsServerWord (to_lower_copy (codes "--version"))
unfolding text_beq to_lower_copy
long_version-IsServerWord = (plugin_commands_unknown.5, refl, refl, refl, refl)

short_version-IsServerWord : IsServerWord (to_lower_copy (codes "-V"))
unfolding text_beq to_lower_copy
short_version-IsServerWord = (plugin_commands_unknown.6, refl, refl, refl, refl)

IsOpen : List Text → Type 0
IsOpen filtered = (is_self_update filtered ≡ false) × (is_blocked filtered ≡ false)

server_word-IsOpen :
    (front : Text) (rest : List Text) → IsServerWord (to_lower_copy front) → IsOpen (front ∷ rest)
unfolding is_self_update is_blocked action_beq IsOpen
server_word-IsOpen front rest h =
    let e : parse_action_token front ≡ unknown =
      parse_of_word front (to_lower_copy front) (beq_refl {A = Text} _) ∙ h.0 in
    (ground (arith, e, h.1), ground (arith, e, h.2, h.3, h.4))

version_word-IsOpen : (a : Text) → is_version_word (a ∷ []) ≡ true → IsOpen (a ∷ [])
unfolding is_version_word
version_word-IsOpen a h =
    server_word-IsOpen a [] (elim (Bool-cases (to_lower_copy a == codes "version")) [
      | inl e ↦ rw ((text_beq_iff _ _).0 e) version-IsServerWord
      | inr e ↦ elim (Bool-cases (a == codes "--version")) [
        | inl f ↦ rw ((text_beq_iff _ _).0 f) long_version-IsServerWord
        | inr f ↦ rw ((text_beq_iff a (codes "-V")).0 (ground arith)) short_version-IsServerWord
      ]
    ])

fast_path-IsOpen :
    (filtered : List Text)
    → (is_status_or_doctor filtered || is_version_word filtered) ≡ true
    → IsOpen filtered
unfolding is_status_or_doctor is_version_word
fast_path-IsOpen [] h = cc
fast_path-IsOpen (a ∷ []) h = version_word-IsOpen a h
fast_path-IsOpen (a ∷ b ∷ []) h = server_word-IsOpen a (b ∷ []) (
    rw ((text_beq_iff (to_lower_copy a) (codes "security")).0 (ground arith)) security-IsServerWord)
fast_path-IsOpen (a ∷ b ∷ c ∷ rest) h = cc

-- The two kinds of command line that the server answers without a request, `security status` or
-- `security doctor` and the version, are never blocked.
pub command_line_is_query_fast_path-open :
    (tokens : List Text)
    → command_line_is_query_fast_path tokens ≡ true
    → command_line_blocked_in_readonly_mode tokens ≡ false
unfolding command_line_is_query_fast_path is_security_status_or_doctor_command
    is_version_print_command command_line_blocked_in_readonly_mode is_self_update_command_line
    IsOpen
command_line_is_query_fast_path-open tokens h =
    let (not_update, not_blocked) = fast_path-IsOpen (strip_config_like_prefix_flags tokens) h in
    rw not_update not_blocked

-- A request that changes nothing and writes no file.
abbrev pub IsReadOnly : Request → Type 0
IsReadOnly r = (contains query_actions r.action ≡ true) × (r.output_path ≡ [])

is_request_allowed_iff : (r : Request) → (is_request_allowed r ≡ true) ↔ IsReadOnly r
unfolding is_request_allowed contains
is_request_allowed_iff r = (λ h. (ground arith, ground arith), λ h. ground arith)

each_request_allowed_iff :
    (rs : List Request) → (all_of is_request_allowed rs ≡ true) ↔ All IsReadOnly rs
unfolding all_of
each_request_allowed_iff [] = (λ h. tt, λ h. refl)
each_request_allowed_iff (r ∷ rs) = (
  λ h. elim (Bool-cases (is_request_allowed r)) [
    | inl e ↦ ((is_request_allowed_iff r).0 e, (each_request_allowed_iff rs).0 (rw e at h))
    | inr e ↦ cc
  ],
  λ h. rw ((is_request_allowed_iff r).1 h.0) ((each_request_allowed_iff rs).1 h.1),
)

-- A list of requests is allowed exactly if it is not empty, each request has one of the six actions
-- that only read, and none names an output file.
pub requests_allowed_in_readonly_mode_iff :
    (requests : List Request)
    → (requests_allowed_in_readonly_mode requests ≡ true)
      ↔ ((requests ≢ []) × All IsReadOnly requests)
unfolding requests_allowed_in_readonly_mode
requests_allowed_in_readonly_mode_iff [] = (λ h. cc, λ h. absurd (h.0 refl))
requests_allowed_in_readonly_mode_iff (r ∷ rs) = (
  λ h. (λ e. cc, (each_request_allowed_iff (r ∷ rs)).0 h),
  λ h. (each_request_allowed_iff (r ∷ rs)).1 h.1,
)

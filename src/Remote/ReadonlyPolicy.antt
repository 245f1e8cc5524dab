-- ===== src/Remote/ReadonlyPolicy.antt =====
-- workflows/remote/serve_remote_readonly_policy.cpp: which commands a read-only server runs.
pub mod ConfigFlags
pub mod Safety
mod Samples
use req_pack_core.Prelude.{
  ℕ, zero, suc, ◌≤◌, Bool, true, false, not, ◌&&◌, ◌||◌, ◌==◌, if◌then◌else◌, Text, text_eq, codes,
  to_lower_copy, starts_with, List, [], ◌∷◌, length, leb, nat_eq, is_empty, all_of,
}
use req_pack_core.Types.{
  ActionType, unknown, install, ensure, remove, update, search, list, info, outdated, snapshot,
  pack, serve, remote, sbom, audit, host, Request, action_eq,
}
use req_pack_core.Platform.ActionTokens.{parse_action_token}

-- `token.size() == 2 && token[0] == '-' && token[1] != '-'`
is_short_flag : Text → Bool
is_short_flag (a ∷ b ∷ []) = a == b'-' && not (b == b'-')
is_short_flag _ = false

is_flag_only_token : Text → Bool
unfolding is_short_flag
is_flag_only_token token = starts_with token (codes "--") || is_short_flag token

pub is_config_word : Text → Bool
is_config_word token = token == codes "--config" || token == codes "-c"

pub is_config_assignment : Text → Bool
is_config_assignment token =
    starts_with token (codes "--config=") || starts_with token (codes "-c=")

-- The loop over the tokens; `true` skips the value that follows `--config` or `-c`.
strip_from : Bool → List Text → List Text
unfolding is_config_word is_config_assignment
strip_from skip [] = []
strip_from true (token ∷ rest) = strip_from false rest
strip_from false (token ∷ rest) =
    let after = strip_from (is_config_word token) rest in
    if is_config_word token
    then after
    else if is_config_assignment token
    then after
    else token ∷ after

pub strip_config_like_prefix_flags : List Text → List Text
unfolding strip_from
strip_config_like_prefix_flags tokens = strip_from false tokens

-- A command of exactly two words.
is_status_or_doctor : List Text → Bool
is_status_or_doctor (a ∷ b ∷ []) =
    to_lower_copy a == codes "security"
    && (to_lower_copy b == codes "status" || to_lower_copy b == codes "doctor")
is_status_or_doctor _ = false

pub is_security_status_or_doctor_command : List Text → Bool
unfolding is_status_or_doctor
is_security_status_or_doctor_command tokens =
    is_status_or_doctor (strip_config_like_prefix_flags tokens)

is_version_word : List Text → Bool
is_version_word (token ∷ []) =
    to_lower_copy token == codes "version" || token == codes "--version" || token == codes "-V"
is_version_word _ = false

pub is_version_print_command : List Text → Bool
unfolding is_version_word
is_version_print_command tokens = is_version_word (strip_config_like_prefix_flags tokens)

is_self_update_flag : Text → Bool
unfolding is_flag_only_token
is_self_update_flag argument =
    if argument == codes "--all" || argument == codes "-a" || argument == codes "--plugins"
    then false
    else is_flag_only_token argument

is_self_update : List Text → Bool
unfolding is_self_update_flag
is_self_update [] = false
is_self_update (front ∷ rest) =
    if to_lower_copy front == codes "self-update"
    then all_of is_flag_only_token rest
    else if not (parse_action_token front == update)
    then false
    else all_of is_self_update_flag rest

pub is_self_update_command_line : List Text → Bool
unfolding is_self_update
is_self_update_command_line tokens = is_self_update (strip_config_like_prefix_flags tokens)

is_plugin_info : List Text → Bool
is_plugin_info (a ∷ b ∷ rest) = to_lower_copy a == codes "plugin" && to_lower_copy b == codes "info"
is_plugin_info _ = false

pub is_plugin_info_command_line : List Text → Bool
unfolding is_plugin_info
is_plugin_info_command_line tokens = is_plugin_info (strip_config_like_prefix_flags tokens)

-- The final `switch`.
abbrev is_blocked_action : ActionType → Bool
is_blocked_action install = true
is_blocked_action remove = true
is_blocked_action update = true
is_blocked_action ensure = true
is_blocked_action pack = true
is_blocked_action snapshot = true
is_blocked_action host = true
is_blocked_action serve = true
is_blocked_action remote = true
is_blocked_action _ = false

-- The test on `filtered`, once the command is known to be no self-update.
is_blocked : List Text → Bool
is_blocked [] = false
is_blocked (front ∷ rest) =
    let head = to_lower_copy front in
    let by_action =
      if head == codes "ensure" then true else is_blocked_action (parse_action_token front) in
    if head == codes "test-plugin"
    then true
    else if head == codes "plugin"
    then elim rest [ [] ↦ by_action | sub ∷ _ ↦ not (to_lower_copy sub == codes "info") ]
    else by_action

pub command_line_blocked_in_readonly_mode : List Text → Bool
unfolding is_blocked
command_line_blocked_in_readonly_mode tokens =
    if is_self_update_command_line tokens
    then true
    else is_blocked (strip_config_like_prefix_flags tokens)

pub command_line_is_query_fast_path : List Text → Bool
command_line_is_query_fast_path tokens =
    is_security_status_or_doctor_command tokens || is_version_print_command tokens

-- One turn of the loop over the requests: `false` returns at once.
is_request_allowed : Request → Bool
is_request_allowed request =
    if not (request.action == list)
      && not (request.action == search)
      && not (request.action == info)
      && not (request.action == outdated)
      && not (request.action == sbom)
      && not (request.action == audit)
    then false
    else is_empty request.output_path

pub requests_allowed_in_readonly_mode : List Request → Bool
unfolding is_request_allowed
requests_allowed_in_readonly_mode requests =
    if is_empty requests then false else all_of is_request_allowed requests

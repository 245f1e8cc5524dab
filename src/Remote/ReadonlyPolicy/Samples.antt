-- ===== src/Remote/ReadonlyPolicy/Samples.antt =====
-- Command words and the read-only policy on small inputs.
use req_pack_core.Prelude.{
  true, false, not, Text, text_eq, text_beq, codes, List, [], ◌∷◌, ◌≡◌, ◌≢◌, ◌↔◌, refl, contains,
  none, some, inl, inr, to_lower_copy, starts_with, all_of, All,
}
use req_pack_core.Types.{unknown, install, search, Request, action_eq, action_beq}
use req_pack_core.Platform.ActionTokens.{parse_action_token}
use req_pack_core.Platform.ActionTokens.Spellings.{spellings, parse_action_token_iff}
use req_pack_core.Remote.ReadonlyPolicy.{
  is_config_word, is_config_assignment, strip_config_like_prefix_flags,
  command_line_blocked_in_readonly_mode, command_line_is_query_fast_path,
  is_security_status_or_doctor_command, is_version_print_command, is_self_update_command_line,
  is_plugin_info_command_line, requests_allowed_in_readonly_mode,
}
use req_pack_core.Remote.ReadonlyPolicy.ConfigFlags.{
  Part, word, flag, assignment, IsPart, command_line, words_of, word-IsPart,
  readonly_policy-command_line,
}
use req_pack_core.Remote.ReadonlyPolicy.Safety.{
  query_actions, IsReadOnly, command_line_blocked-known, command_line_is_query_fast_path-open,
  requests_allowed_in_readonly_mode_iff,
}

-- Constructors of the enumeration are told apart.
search-ne-unknown : search ≢ unknown
search-ne-unknown e = cc

install-ne-unknown : install ≢ unknown
install-ne-unknown e = cc

program : Unit {0}
unfolding parse_action_token to_lower_copy text_beq contains action_beq starts_with all_of
    strip_config_like_prefix_flags command_line_blocked_in_readonly_mode
    command_line_is_query_fast_path is_security_status_or_doctor_command is_version_print_command
    is_self_update_command_line is_plugin_info_command_line requests_allowed_in_readonly_mode
program = tt

parse_find : parse_action_token (codes "Find") ≡ search
unfolding program
parse_find = refl

parse_action_token_iff_example :
    (parse_action_token (codes "Find") ≡ search)
    ↔ (contains (spellings search) (to_lower_copy (codes "Find")) ≡ true)
parse_action_token_iff_example = parse_action_token_iff (codes "Find") search search-ne-unknown

abbrev install_line : List Text
install_line = codes "--config" ∷ codes "list" ∷ codes "i" ∷ codes "npm:left-pad" ∷ []

install_line-strip :
    strip_config_like_prefix_flags install_line ≡ codes "i" ∷ codes "npm:left-pad" ∷ []
unfolding program
install_line-strip = refl

parse_i : parse_action_token (codes "i") ≢ unknown
unfolding program
parse_i e = install-ne-unknown e

command_line_blocked-known_example :
    command_line_blocked_in_readonly_mode install_line
    ≡ not (contains query_actions (parse_action_token (codes "i")))
command_line_blocked-known_example =
    command_line_blocked-known install_line (codes "i") (codes "npm:left-pad" ∷ [])
      install_line-strip parse_i

install_line_blocked : command_line_blocked_in_readonly_mode install_line ≡ true
unfolding program
install_line_blocked = refl

abbrev status_line : List Text
status_line = codes "-c" ∷ codes "reqpack.lua" ∷ codes "Security" ∷ codes "status" ∷ []

status_line_fast : command_line_is_query_fast_path status_line ≡ true
unfolding program
status_line_fast = refl

command_line_is_query_fast_path-open_example :
    command_line_blocked_in_readonly_mode status_line ≡ false
command_line_is_query_fast_path-open_example =
    command_line_is_query_fast_path-open status_line status_line_fast

abbrev install_parts : List Part
install_parts =
    flag (codes "--config") (codes "list")
    ∷ word (codes "i")
    ∷ assignment (codes "-c=reqpack.lua")
    ∷ word (codes "npm:left-pad")
    ∷ []

install_parts-IsPart : All IsPart install_parts
unfolding is_config_word is_config_assignment text_beq starts_with
install_parts-IsPart = (
  inl refl,
  (
    word-IsPart (codes "i") refl refl,
    (inr refl, (word-IsPart (codes "npm:left-pad") refl refl, tt)),
  ),
)

readonly_policy-command_line_example :
    let line = command_line install_parts (some (codes "-c")) in
    let words = words_of install_parts in
    (strip_config_like_prefix_flags line ≡ words)
    × (command_line_blocked_in_readonly_mode line ≡ command_line_blocked_in_readonly_mode words)
    × (is_self_update_command_line line ≡ is_self_update_command_line words)
    × (is_plugin_info_command_line line ≡ is_plugin_info_command_line words)
    × (command_line_is_query_fast_path line ≡ command_line_is_query_fast_path words)
readonly_policy-command_line_example =
    readonly_policy-command_line install_parts (some (codes "-c")) install_parts-IsPart (inr refl)

abbrev listing : Request
listing = record {
  action = search;
  system = codes "npm";
  packages = codes "left-pad" ∷ [];
  flags = [];
  output_format = [];
  output_path = [];
  payload_path = [];
  local_path = [];
  uses_local_target = false;
  pack_metadata = record {
    version = none;
    release = none;
    revision = none;
    vendor = none;
    maintainer_email = none;
    url = none;
    homepage = none;
    source_url = none;
    architecture = none;
    systems = [];
  };
}

requests_allowed_in_readonly_mode_iff_example :
    (requests_allowed_in_readonly_mode (listing ∷ []) ≡ true)
    ↔ (((listing ∷ []) ≢ []) × All IsReadOnly (listing ∷ []))
requests_allowed_in_readonly_mode_iff_example = requests_allowed_in_readonly_mode_iff (listing ∷ [])

-- ===== src/Platform/ActionTokens.antt =====
-- platform/common/action_tokens.cpp: the action that a command word names.
pub mod Spellings
use req_pack_core.Prelude.{Bool, ◌||◌, ◌==◌, if◌then◌else◌, Text, text_eq, codes, to_lower_copy}
use req_pack_core.Types.{
  ActionType, unknown, install, ensure, remove, update, search, list, info, outdated, snapshot,
  pack, serve, remote, sbom, audit, host,
}

is_install_command_token : Text → Bool
is_install_command_token word = word == codes "install" || word == codes "i"

is_remove_command_token : Text → Bool
is_remove_command_token word = word == codes "remove" || word == codes "rm"

is_update_command_token : Text → Bool
is_update_command_token word = word == codes "update" || word == codes "up"

-- The ladder of tests on the lowered word.
pub action_of_word : Text → ActionType
unfolding is_install_command_token is_remove_command_token is_update_command_token
action_of_word word =
    if is_install_command_token word
    then install
    else if is_remove_command_token word
    then remove
    else if is_update_command_token word
    then update
    else if word == codes "search" || word == codes "s" || word == codes "find"
    then search
    else if word == codes "list" || word == codes "ls"
    then list
    else if word == codes "info"
    then info
    else if word == codes "ensure"
    then ensure
    else if word == codes "sbom"
    then sbom
    else if word == codes "audit"
    then audit
    else if word == codes "outdated" || word == codes "out"
    then outdated
    else if word == codes "host"
    then host
    else if word == codes "snapshot"
    then snapshot
    else if word == codes "pack"
    then pack
    else if word == codes "serve"
    then serve
    else if word == codes "remote"
    then remote
    else unknown

unfoldable pub parse_action_token : Text → ActionType
unfolding action_of_word
parse_action_token command = action_of_word (to_lower_copy command)

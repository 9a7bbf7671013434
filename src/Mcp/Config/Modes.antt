-- ===== src/Mcp/Config/Modes.antt =====
-- What config.ts guarantees about write access, networks, the confirmation mode and the key.
use res_ex_machina.Common.{
  ◌≡◌, ◌≢◌, ◌↔◌, ◌⊎◌, Bool, true, false, not, ◌&&◌, ◌||◌, Option, none, some, Text, arith, any_of,
  if◌then◌else◌,
}
use res_ex_machina.Mcp.Config.{
  ConfirmationMode, require, auto, dry_run, EnvConfig, is_mainnet, load_config, is_blank,
  set_confirmation_mode, consume_private_key,
}

-- A configuration that loads has write tools only with a private key, and a mainnet chain, as its
-- own chain or among the allowed ones, only where mainnet is allowed; loading keeps the
-- confirmation mode.
pub load_config_safe :
    (parsed c : EnvConfig)
    → load_config parsed ≡ some c
    → ((c.enable_write_tools ≡ false) ⊎ (c.private_key ≢ none))
      × ((is_mainnet c.chain_id || any_of is_mainnet c.allowed_chain_ids ≡ false)
          ⊎ (c.allow_mainnet ≡ true))
      × (c.confirmation_mode ≡ parsed.confirmation_mode)
unfolding load_config
load_config_safe parsed c h = ground arith

-- When a change of the mode is in order: `auto` wants its permission and a reason.
abbrev pub in_order : EnvConfig → ConfirmationMode → Option Text → Bool
in_order c auto reason = c.allow_auto_mode && not (is_blank reason)
in_order c mode reason = true

-- On a loaded configuration `setConfirmationMode` changes the mode to the one asked for exactly
-- when the change is in order (`auto` needs MCP_ALLOW_AUTO_MODE and a reason that is not blank),
-- says so by refusing nothing, changes nothing else, and reports the mode before the call.
pub set_confirmation_mode_lem :
    (c : EnvConfig) (mode : ConfirmationMode) (reason : Option Text)
    → let (after, change) = set_confirmation_mode (some c) mode reason in
      ((change.refused ≡ none) ↔ (in_order c mode reason ≡ true))
      × (after ≡ some (if in_order c mode reason then record c { confirmation_mode = mode } else c))
      × (change.previous_mode ≡ some c.confirmation_mode)
unfolding set_confirmation_mode
set_confirmation_mode_lem c require reason = ground arith
set_confirmation_mode_lem c auto reason = ground arith
set_confirmation_mode_lem c dry_run reason = ground arith

-- The private key is handed out once: a second call returns nothing, whatever was cached.
pub consume_private_key_once :
    (cached : Option EnvConfig) → (consume_private_key (consume_private_key cached).0).1 ≡ none
unfolding consume_private_key
consume_private_key_once none = ground arith
consume_private_key_once (some c) = ground arith

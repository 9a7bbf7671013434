-- ===== src/Mcp/Config.antt =====
-- packages/mcp-server/src/config.ts. What `envSchema` parses is an argument; amounts in wei are
-- the numbers that the source reads with `BigInt`. `none` for the cached configuration stands for
-- `null`, and for the result of `get_config` when the process exits.
pub mod Modes
use res_ex_machina.Common.{
  ℕ, Bool, true, false, not, ◌&&◌, ◌||◌, List, [], ◌∷◌, Option, none, some, Text, leb, ◌==◌, any_of,
  all_of, is_some, if◌then◌else◌,
}

pub data ConfirmationMode : Type 0 where
  require auto dry_run : ConfirmationMode

pub record EnvConfig : Type 0 where
  pub chain_id : ℕ
  pub allowed_chain_ids : List ℕ
  pub allow_mainnet : Bool
  pub private_key : Option Text
  pub enable_write_tools : Bool
  pub confirmation_mode : ConfirmationMode
  pub allow_auto_mode : Bool
  pub max_rxm_fee_wei : ℕ
  pub max_gas_cost_wei : ℕ
  pub max_total_tx_cost_wei : ℕ
  pub max_spend_per_day_wei : ℕ
  pub max_records_per_day : ℕ
  pub default_tags : List Text
  pub max_batch_size : ℕ
  pub batch_dedup_before_pay : Bool

abbrev pub mainnet_chains : List ℕ
mainnet_chains = 1 ∷ 8453 ∷ 10 ∷ 42161 ∷ []

unfoldable pub is_mainnet : ℕ → Bool
is_mainnet id = any_of (λ c. c == id) mainnet_chains

-- The checks of `getConfig` on a configuration that has just been parsed.
unfoldable pub load_config : EnvConfig → Option EnvConfig
load_config parsed =
    let checked = record parsed {
      enable_write_tools = enable_write_tools && is_some private_key;
    } in
    if not allow_mainnet && (any_of is_mainnet allowed_chain_ids || is_mainnet chain_id)
    then none
    else some checked
  where
    open parsed use {enable_write_tools, private_key, allow_mainnet, allowed_chain_ids, chain_id}

-- `getConfig` over the cache and the outcome of `envSchema.safeParse`.
unfoldable pub get_config : Option EnvConfig → Option EnvConfig → Option EnvConfig
unfolding load_config
get_config (some cached) parsed = some cached
get_config none none = none
get_config none (some parsed) = load_config parsed

-- White space as `trim` reads it.
is_space : ℕ → Bool
is_space c =
    (leb 9 c && leb c 13)
    || any_of (λ s. s == c)
        (32 ∷ 160 ∷ 0x1680 ∷ 0x2028 ∷ 0x2029 ∷ 0x202f ∷ 0x205f ∷ 0x3000 ∷ 0xfeff ∷ [])
    || (leb 0x2000 c && leb c 0x200a)

-- `reason.trim().length === 0`, and `!reason` for a reason that is not given.
unfoldable pub is_blank : Option Text → Bool
unfolding is_space
is_blank none = true
is_blank (some reason) = all_of is_space reason

pub data Refusal : Type 0 where
  not_initialized auto_disabled reason_required : Refusal

pub record ModeChange : Type 0 where
  pub previous_mode : Option ConfirmationMode
  pub refused : Option Refusal

-- The cached configuration after `setConfirmationMode`, and what it returns.
unfoldable pub set_confirmation_mode :
    Option EnvConfig → ConfirmationMode → Option Text → Option EnvConfig × ModeChange
set_confirmation_mode none mode reason =
    (none, record { previous_mode = none; refused = some not_initialized })
set_confirmation_mode (some c) auto reason =
    if not c.allow_auto_mode
    then (some c, record { previous_mode = some c.confirmation_mode; refused = some auto_disabled })
    else if is_blank reason
    then (
      some c,
      record { previous_mode = some c.confirmation_mode; refused = some reason_required },
    )
    else (
      some (record c { confirmation_mode = auto }),
      record { previous_mode = some c.confirmation_mode; refused = none },
    )
set_confirmation_mode (some c) mode reason = (
  some (record c { confirmation_mode = mode }),
  record { previous_mode = some c.confirmation_mode; refused = none },
)

-- The cached configuration after `consumePrivateKey`, and the key that it returns.
unfoldable pub consume_private_key : Option EnvConfig → Option EnvConfig × Option Text
consume_private_key none = (none, none)
consume_private_key (some c) = (some (record c { private_key = none }), c.private_key)

-- ===== src/V1/Webhooks.antt =====
-- src/routes/webhooks.ts and src/services/webhookDispatcher.ts: the webhooks of a wallet are
-- registered, deleted, notified of a record's change of state, and called. The encryption of secrets,
-- the HMAC and the network are arguments; a wallet is the one that the request is authenticated for.
pub mod Delivery
pub mod Limits
use res_ex_machina.Common.{
  ℕ, zero, suc, ◌+◌, Bool, true, false, not, ◌&&◌, List, [], ◌∷◌, ◌++◌, map, Option, none, some,
  Text, codes, leb, ◌==◌, text_eq, to_lower_case, if◌then◌else◌, length, select, find_first,
  is_some, get_elem?, or_else,
}
use res_ex_machina.V1.Urls.{
  Network, Url, UrlError, resolve_and_validate_hostname, validate_webhook_url,
}

pub record Webhook : Type 0 where
  pub webhook_id : Text
  pub agent_wallet : Text
  pub url : Text
  pub sealed_secret : Option Text
  pub events : List Text
  pub active : Bool

pub data WebhookError : Type 0 where
  webhook_not_found webhook_forbidden webhook_limit_reached : WebhookError
  webhook_inactive no_secret decryption_failed delivery_failed : WebhookError
  webhook_invalid_url : UrlError → WebhookError

pub record WebhookPayload : Type 0 where
  pub delivery_id : Text
  pub attempt : ℕ
  pub timestamp : Text
  pub record_id : Text
  pub old_state : Text
  pub new_state : Text
  pub anchor_tx_hash : Option Text
  pub anchor_block : Option ℕ
  pub anchor_chain_id : Option ℕ

-- `encryptSecret` and `decryptSecret` for a secret, an identifier and a wallet, the latter `none` if
-- it throws; the HMAC of a body under a secret; the JSON of a payload; and whether a call of a URL
-- with a body and a signature is answered with success.
pub record WebhookServices : Type 0 where
  pub encrypt_secret : Text → Text → Text → Text
  pub decrypt_secret : Text → Text → Text → Option Text
  pub hmac_sha256 : Text → Text → Text
  pub stringify : WebhookPayload → Text
  pub fetch_ok : Text → Text → Text → Bool

abbrev pub max_webhooks_per_wallet : ℕ
max_webhooks_per_wallet = 5

abbrev pub is_active_of : Text → Webhook → Bool
is_active_of wallet w = text_eq w.agent_wallet wallet && w.active

abbrev pub active_count : Text → List Webhook → ℕ
active_count wallet table = length (select (is_active_of wallet) table)

-- `SELECT ... WHERE webhook_id = ... LIMIT 1`.
abbrev pub find_webhook : Text → List Webhook → Option Webhook
find_webhook id table = find_first (λ (w : Webhook). text_eq w.webhook_id id) table

module _ (env : WebhookServices) where
  open env use {encrypt_secret}

  -- `POST /v1/webhooks`, with the identifier and the secret that are drawn at random,
  -- and DNS as it answers now.
  unfoldable pub register_webhook :
      Network
      → Text
      → Text
      → Text
      → Text
      → List Text
      → List Webhook
      → List Webhook × Option WebhookError
  register_webhook net wallet webhook_id secret url events table =
      elim (validate_webhook_url net url) [
        | some e ↦ (table, some (webhook_invalid_url e))
        | none ↦
            if leb max_webhooks_per_wallet (active_count wallet table)
            then (table, some webhook_limit_reached)
            else (
              table
                  ++ record {
                    webhook_id = webhook_id;
                    agent_wallet = wallet;
                    url = url;
                    sealed_secret = some (encrypt_secret secret webhook_id wallet);
                    events = events;
                    active = true;
                  }
                    ∷ [],
              none,
            )
      ]

-- `UPDATE webhooks SET active = false WHERE webhook_id = ...`.
unfoldable pub deactivate : Text → List Webhook → List Webhook
deactivate id table =
    map (λ (w : Webhook). if text_eq w.webhook_id id then record w { active = false } else w) table

-- `DELETE /v1/webhooks/:id`.
unfoldable pub delete_webhook : Text → Text → List Webhook → List Webhook × Option WebhookError
delete_webhook wallet id table = elim (find_webhook id table) [
  | none ↦ (table, some webhook_not_found)
  | some w ↦
      if not (text_eq (to_lower_case w.agent_wallet) wallet)
      then (table, some webhook_forbidden)
      else (deactivate id table, none)
]

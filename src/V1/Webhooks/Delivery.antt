-- ===== src/V1/Webhooks/Delivery.antt =====
-- src/services/webhookDispatcher.ts: a change of state becomes a job for each active webhook of the
-- wallet, and a job becomes at most one call of the webhook's URL.
use res_ex_machina.Common.{
  ℕ, suc, ◌+◌, ◌≡◌, inl, inr, true, not, List, [], ◌∷◌, ◌++◌, Option, none, some, Text, codes,
  arith, to_lower_case, if◌then◌else◌, select, Option-cases, Bool-cases,
}
use res_ex_machina.V1.Urls.{Network, Url, UrlError, resolve_and_validate_hostname}
use res_ex_machina.V1.Webhooks.{
  Webhook, WebhookError, WebhookPayload, WebhookServices, webhook_not_found, webhook_inactive,
  no_secret, decryption_failed, delivery_failed, webhook_invalid_url, is_active_of, find_webhook,
}

pub record WebhookJob : Type 0 where
  pub webhook_id : Text
  pub payload : WebhookPayload

pub record AnchorData : Type 0 where
  pub tx_hash : Option Text
  pub block : Option ℕ
  pub chain_id : Option ℕ

abbrev nonzero : Option ℕ → Option ℕ
nonzero (some (suc n)) = some (suc n)
nonzero n = none

abbrev nonempty : Option Text → Option Text
nonempty (some (c ∷ s)) = some (c ∷ s)
nonempty t = none

-- The loop over the active webhooks; `ids` gives the identifier of each delivery.
unfoldable pub make_jobs : (Text → Text) → WebhookPayload → List Webhook → List WebhookJob
make_jobs ids payload [] = []
make_jobs ids payload (w ∷ ws) =
    record {
      webhook_id = w.webhook_id;
      payload = record payload { delivery_id = ids w.webhook_id };
    }
    ∷ make_jobs ids payload ws

-- `enqueueWebhookDispatch`: the jobs added to the queue.
unfoldable pub enqueue_webhook_dispatch :
    (Text → Text) → Text → Text → Text → Text → Text → AnchorData → List Webhook → List WebhookJob
enqueue_webhook_dispatch ids now agent_wallet record_id old_state new_state anchor_data table =
    make_jobs ids
      (record {
        delivery_id = [];
        attempt = 1;
        timestamp = now;
        record_id = record_id;
        old_state = old_state;
        new_state = new_state;
        anchor_tx_hash = nonempty anchor_data.tx_hash;
        anchor_block = nonzero anchor_data.block;
        anchor_chain_id = nonzero anchor_data.chain_id;
      })
      (select (is_active_of (to_lower_case agent_wallet)) table)

-- The call that a delivery makes, and the error it ends with.
pub record Sent : Type 0 where
  pub url : Text
  pub signature : Text
  pub delivery_id : Text
  pub body : Text

pub record Delivery : Type 0 where
  pub sent : Option Sent
  pub error : Option WebhookError

abbrev stopped : WebhookError → Delivery
stopped e = record { sent = none; error = some e }

module _ (env : WebhookServices) where
  open env use {decrypt_secret, hmac_sha256, stringify, fetch_ok}

  -- From the secret on: DNS is asked again before the call.
  unfoldable pub send_signed : Network → ℕ → WebhookPayload → Webhook → Text → Delivery
  send_signed net attempts_made payload w secret =
      let current = record payload { attempt = attempts_made + 1 } in
      let body = stringify current in
      let signature = hmac_sha256 secret body in
      elim (net.parse_url w.url) [
        | none ↦ stopped (webhook_invalid_url UrlError.invalid_format)
        | some parsed ↦ elim (resolve_and_validate_hostname net parsed.hostname) [
          | some e ↦ stopped (webhook_invalid_url e)
          | none ↦ record {
            sent = some (record {
              url = w.url;
              signature = codes "sha256=" ++ signature;
              delivery_id = payload.delivery_id;
              body = body;
            });
            error = if fetch_ok w.url body signature then none else some delivery_failed;
          }
        ]
      ]

  -- `executeWebhookDelivery` of a job that was tried `attempts_made` times.
  unfoldable pub execute_webhook_delivery : Network → ℕ → WebhookJob → List Webhook → Delivery
  execute_webhook_delivery net attempts_made job table = elim (find_webhook job.webhook_id table) [
    | none ↦ stopped webhook_not_found
    | some w ↦ if not w.active then stopped webhook_inactive else elim w.sealed_secret [
      | none ↦ stopped no_secret
      | some sealed ↦ elim (decrypt_secret sealed w.webhook_id w.agent_wallet) [
        | none ↦ stopped decryption_failed
        | some secret ↦ send_signed net attempts_made job.payload w secret
      ]
    ]
  ]

  send_signed-sent :
      (net : Network) (n : ℕ) (payload : WebhookPayload) (w : Webhook) (secret : Text) (s : Sent)
      → (send_signed net n payload w secret).sent ≡ some s
      → (parsed : Url) × (net.parse_url w.url ≡ some parsed)
        × (resolve_and_validate_hostname net parsed.hostname ≡ none)
        × (s.url ≡ w.url)
        × (s.delivery_id ≡ payload.delivery_id)
        × (s.signature ≡ codes "sha256=" ++ hmac_sha256 secret s.body)
  unfolding send_signed
  send_signed-sent net n payload w secret s h = elim (Option-cases (net.parse_url w.url)) [
    | inl bad ↦ absurd (ground arith)
    | inr (parsed, e) ↦ elim (Option-cases (resolve_and_validate_hostname net parsed.hostname)) [
      | inr (err, bad) ↦ absurd (ground arith)
      | inl fine ↦ (parsed, e, fine, ground arith, ground arith, ground arith)
    ]
  ]

  -- Whatever is sent goes to the URL of an active webhook of the table under the job's identifier,
  -- whose host passes the checks at the time of the call, keeps the identifier of the delivery over
  -- all attempts, and is signed for its own body with the webhook's secret.
  pub execute_webhook_delivery-sent :
      (net : Network) (n : ℕ) (job : WebhookJob) (table : List Webhook) (s : Sent)
      → (execute_webhook_delivery net n job table).sent ≡ some s
      → (w : Webhook) × (sealed : Text) × (secret : Text) × (parsed : Url) × (find_webhook
            job.webhook_id table
          ≡ some w)
        × (w.active ≡ true)
        × (w.sealed_secret ≡ some sealed)
        × (decrypt_secret sealed w.webhook_id w.agent_wallet ≡ some secret)
        × (net.parse_url w.url ≡ some parsed)
        × (resolve_and_validate_hostname net parsed.hostname ≡ none)
        × (s.url ≡ w.url)
        × (s.delivery_id ≡ job.payload.delivery_id)
        × (s.signature ≡ codes "sha256=" ++ hmac_sha256 secret s.body)
  unfolding execute_webhook_delivery
  execute_webhook_delivery-sent net n job table s h =
      elim (Option-cases (find_webhook job.webhook_id table)) [
        | inl absent ↦ absurd (ground arith)
        | inr (w, there) ↦ elim (Bool-cases w.active) [
          | inr inactive ↦ absurd (ground arith)
          | inl active ↦ elim (Option-cases w.sealed_secret) [
            | inl bare ↦ absurd (ground arith)
            | inr (sealed, a) ↦
                elim (Option-cases (decrypt_secret sealed w.webhook_id w.agent_wallet)) [
                  | inl bad ↦ absurd (ground arith)
                  | inr (secret, b) ↦
                      let went : (send_signed net n job.payload w secret).sent ≡ some s =
                        ground arith in
                      let (parsed, c, d, e, f, g) =
                        send_signed-sent net n job.payload w secret s went in
                      (w, sealed, secret, parsed, there, active, a, b, c, d, e, f, g)
                ]
          ]
        ]
      ]

-- ===== src/Examples/Clients.antt =====
-- Inputs for the theorems on the SDK, on signed requests, waiting, webhooks and the lifecycle of
-- declarations.
use res_ex_machina.Common.{
  ℕ, zero, suc, ◌<◌, ◌+◌, ◌*◌, ◌≤◌, ◌≡◌, refl, true, List, [], ◌∷◌, ◌++◌, Option, none, some, Text,
  codes, arith, to_lower_case, text_eq, starts_with,
}
use res_ex_machina.Sdk.Http.{Fetched, answered, try_once, is_final, parse_api_error, request}
use res_ex_machina.Sdk.Http.Retries
use res_ex_machina.V1.WalletAuth.{
  AuthHeaders, AuthLibraries, wallet, auth_window_ms, signs, messages_to_try, wallet_auth,
  check_wallet, is_wallet,
}
use res_ex_machina.V1.WalletAuth
use res_ex_machina.V1.Waiting.{World, WaitedRow, still_pending, wait_for_anchor, IsSeen}
use res_ex_machina.V1.Waiting
use res_ex_machina.V1.Urls.{
  Url, is_blocked_ip, clean_host, drop_closing, in_blocked_range, is_private, is_class_b,
  is_mapped_private, after_prefix, resolve_and_validate_hostname,
}
use res_ex_machina.V1.Webhooks.{Webhook, WebhookServices, find_webhook, active_count}
use res_ex_machina.V1.Webhooks.Delivery
use res_ex_machina.V1.Webhooks.Delivery.{WebhookJob, Sent, execute_webhook_delivery, send_signed}
use res_ex_machina.V1.Webhooks.Limits
use res_ex_machina.V1.Webhooks.Limits.{WebhookCall, registers, deletes, handle_calls}
use res_ex_machina.Examples.Records.{net}

-- The first attempt is answered with a server error, every later one with a value.
abbrev flaky : ℕ → Fetched
flaky zero = answered (record {
  status = 503;
  json = none;
  error_body = record { code = none; message = none; reset = none };
})
flaky (suc n) = answered (record {
  status = 200;
  json = some (codes "{}");
  error_body = record { code = none; message = none; reset = none };
})

first_fails : (i : ℕ) → i < 1 → Retries.is_retried (try_once (flaky i)) ≡ true
unfolding try_once is_final parse_api_error
first_fails zero h = refl
first_fails (suc i) h = absurd (omega arith)

request_stops_example :
    (let run = request 3 flaky in (run.outcome ≡ try_once (flaky 1)) × (run.fetches ≡ 1 + 1))
unfolding try_once is_final parse_api_error
request_stops_example = Retries.request_stops 3 1 flaky (omega arith) first_fails refl

abbrev libraries : AuthLibraries
libraries = record {
  verify_message = λ address message signature. some true;
  get_address = λ address. some address;
  get_time = λ timestamp. some 1000000;
}

abbrev address : Text
address = codes "0xaaaaaaaaaaaaaaaaaaaaaaaaaaaaaaaaaaaaaaaa"

abbrev signed : AuthHeaders
signed = record {
  wallet_address = some address;
  signature = some (codes "0x01");
  timestamp = some (codes "1970-01-01T00:16:40Z");
}

wallet_auth_sound_example :
    (a : Text) × (signature : Text) × (timestamp : Text) × (normalized : Text) × (t : ℕ)
    × (signed.wallet_address ≡ some a)
    × (signed.signature ≡ some signature)
    × (signed.timestamp ≡ some timestamp)
    × (libraries.get_address a ≡ some normalized)
    × (address ≡ to_lower_case normalized)
    × (libraries.get_time timestamp ≡ some t)
    × (1100000 ≤ t + auth_window_ms)
    × (t ≤ 1100000 + auth_window_ms)
    × (signs libraries normalized signature (messages_to_try a normalized timestamp) ≡ true)
unfolding wallet_auth check_wallet is_wallet to_lower_case messages_to_try
wallet_auth_sound_example = WalletAuth.wallet_auth_sound libraries 1100000 signed address refl

-- A record that is anchored in the third round.
abbrev seen : ℕ → Option WaitedRow
seen (suc (suc zero)) =
    some (record still_pending { state = codes "anchored"; anchor_tx_hash = some (codes "0xt") })
seen n = some still_pending

abbrev world : World
world = record { top = λ k. 1000 + k * 2100; after = λ k. 1000 + k * 2100 + 100; query = seen }

wait_for_anchor-ends_example :
    (result : WaitedRow) × (wait_for_anchor world (suc 13) 1000 25000 ≡ some result)
    × IsSeen world result
wait_for_anchor-ends_example =
    Waiting.wait_for_anchor-ends world 1000 25000 2000 13
      (record { forward = λ k. omega arith; pauses = λ k. omega arith }) (omega arith) (omega arith)

abbrev webhook : Webhook
webhook = record {
  webhook_id = codes "w";
  agent_wallet = codes "0xaa";
  url = codes "https://example.org/hook";
  sealed_secret = some (codes "sealed");
  events = codes "state_changed" ∷ [];
  active = true;
}

abbrev services : WebhookServices
services = record {
  encrypt_secret = λ secret id owner. secret;
  decrypt_secret = λ sealed id owner. some sealed;
  hmac_sha256 = λ secret body. secret ++ body;
  stringify = λ p. p.delivery_id;
  fetch_ok = λ url body signature. true;
}

abbrev job : WebhookJob
job = record {
  webhook_id = codes "w";
  payload = record {
    delivery_id = codes "d";
    attempt = 1;
    timestamp = codes "now";
    record_id = codes "r";
    old_state = codes "anchoring";
    new_state = codes "anchored";
    anchor_tx_hash = none;
    anchor_block = none;
    anchor_chain_id = none;
  };
}

abbrev sent : Sent
sent = record {
  url = codes "https://example.org/hook";
  signature = codes "sha256=sealedd";
  delivery_id = codes "d";
  body = codes "d";
}

execute_webhook_delivery-sent_example :
    (w : Webhook) × (sealed : Text) × (secret : Text) × (parsed : Url) × (find_webhook
        (codes "w")
        (webhook ∷ [])
      ≡ some w)
    × (w.active ≡ true)
    × (w.sealed_secret ≡ some sealed)
    × (services.decrypt_secret sealed w.webhook_id w.agent_wallet ≡ some secret)
    × (net.parse_url w.url ≡ some parsed)
    × (resolve_and_validate_hostname net parsed.hostname ≡ none)
    × (sent.url ≡ w.url)
    × (sent.delivery_id ≡ job.payload.delivery_id)
    × (sent.signature ≡ codes "sha256=" ++ services.hmac_sha256 secret sent.body)
unfolding execute_webhook_delivery send_signed resolve_and_validate_hostname is_blocked_ip
    in_blocked_range is_private is_class_b is_mapped_private after_prefix clean_host drop_closing
    starts_with text_eq to_lower_case
execute_webhook_delivery-sent_example =
    Delivery.execute_webhook_delivery-sent services net 0 job (webhook ∷ []) sent refl

abbrev webhook_calls : List WebhookCall
webhook_calls =
    registers net (codes "0xaa") (codes "w") (codes "s") (codes "https://example.org/hook") []
    ∷ deletes (codes "0xaa") (codes "w")
    ∷ []

handle_calls-bounded_example :
    active_count (codes "0xaa") (handle_calls services webhook_calls []) ≤ 5
handle_calls-bounded_example =
    Limits.handle_calls-bounded services webhook_calls [] (codes "0xaa") (omega arith)

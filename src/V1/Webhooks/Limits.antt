-- ===== src/V1/Webhooks/Limits.antt =====
-- How many webhooks a wallet has, and what deleting one does.
use res_ex_machina.Common.{
  ℕ, ◌+◌, ◌≤◌, ◌≡◌, sym, ap, ◌∙◌, inl, inr, true, false, List, [], ◌∷◌, ◌++◌, none, some, Text,
  arith, leb, text_eq, text_eq_iff, if◌then◌else◌, Option-cases, Bool-cases,
}
use res_ex_machina.V1.Urls.{Network, validate_webhook_url}
use res_ex_machina.V1.Webhooks.{
  Webhook, WebhookServices, is_active_of, active_count, find_webhook, max_webhooks_per_wallet,
  register_webhook, deactivate, delete_webhook,
}
use res_ex_machina.V1.Webhooks.Delivery.{
  WebhookJob, execute_webhook_delivery, execute_webhook_delivery-sent,
}

-- What the routes are asked for, with the DNS of the moment.
pub data WebhookCall : Type 0 where
  registers : Network → Text → Text → Text → Text → List Text → WebhookCall
  deletes : Text → Text → WebhookCall

unfoldable pub handle_calls : WebhookServices → List WebhookCall → List Webhook → List Webhook
handle_calls env [] table = table
handle_calls env (registers net wallet id secret url events ∷ calls) table =
    handle_calls env calls (register_webhook env net wallet id secret url events table).0
handle_calls env (deletes wallet id ∷ calls) table =
    handle_calls env calls (delete_webhook wallet id table).0

active_count-append :
    (wallet : Text) (table : List Webhook) (w : Webhook)
    → active_count wallet (table ++ w ∷ [])
      ≡ active_count wallet table + (if is_active_of wallet w then 1 else 0)
active_count-append wallet [] w = ground arith
active_count-append wallet (x ∷ table) w = ground (arith, active_count-append wallet table w)

active_count-deactivate :
    (wallet id : Text) (table : List Webhook)
    → active_count wallet (deactivate id table) ≤ active_count wallet table
unfolding deactivate
active_count-deactivate wallet id [] = omega arith
active_count-deactivate wallet id (w ∷ table) =
    ground (arith, active_count-deactivate wallet id table)

register_webhook-bounded :
    (env : WebhookServices) (net : Network) (wallet id secret url : Text) (events : List Text)
    (table : List Webhook) (other : Text)
    → active_count other table ≤ max_webhooks_per_wallet
    → active_count other (register_webhook env net wallet id secret url events table).0
      ≤ max_webhooks_per_wallet
unfolding register_webhook
register_webhook-bounded env net wallet id secret url events table other h =
    elim (Option-cases (validate_webhook_url net url)) [
      | inr (e, bad) ↦ ground arith
      | inl fine ↦ elim (Bool-cases (leb max_webhooks_per_wallet (active_count wallet table))) [
        | inl full ↦ rw (register_webhook, fine, full) h
        | inr room ↦
            let w : Webhook = record {
              webhook_id = id;
              agent_wallet = wallet;
              url = url;
              sealed_secret = some (env.encrypt_secret secret id wallet);
              events = events;
              active = true;
            } in
            let grown = active_count-append other table w in
            rw (register_webhook, fine, room)
              (elim (Bool-cases (text_eq wallet other)) [
                | inr apart ↦ ground (arith, grown)
                | inl same ↦
                    let e : wallet ≡ other = (text_eq_iff wallet other).0 same in
                    let room' : leb max_webhooks_per_wallet (active_count other table) ≡ false =
                      rw (← e) room in
                    ground (arith, grown)
              ])
      ]
    ]

delete_webhook-bounded :
    (wallet id : Text) (table : List Webhook) (other : Text)
    → active_count other (delete_webhook wallet id table).0 ≤ active_count other table
unfolding delete_webhook
delete_webhook-bounded wallet id table other =
    ground (arith, active_count-deactivate other id table)

-- No wallet gets more than five active webhooks, over any requests to register and delete that are
-- handled one after the other.
pub handle_calls-bounded :
    (env : WebhookServices) (calls : List WebhookCall) (table : List Webhook) (wallet : Text)
    → active_count wallet table ≤ max_webhooks_per_wallet
    → active_count wallet (handle_calls env calls table) ≤ max_webhooks_per_wallet
unfolding handle_calls
handle_calls-bounded env [] table wallet h = h
handle_calls-bounded env (registers net owner id secret url events ∷ calls) table wallet h =
    handle_calls-bounded env calls _ wallet
      (register_webhook-bounded env net owner id secret url events table wallet h)
handle_calls-bounded env (deletes owner id ∷ calls) table wallet h =
    handle_calls-bounded env calls (delete_webhook owner id table).0 wallet
      (omega (arith, delete_webhook-bounded owner id table wallet))

deactivated :
    (id : Text) (table : List Webhook) (w : Webhook)
    → find_webhook id (deactivate id table) ≡ some w
    → w.active ≡ false
unfolding deactivate
deactivated id [] w h = absurd (ground arith)
deactivated id (x ∷ table) w h = elim (Bool-cases (text_eq x.webhook_id id)) [
  | inl same ↦ ground arith
  | inr other ↦ deactivated id table w (ground arith)
]

-- Once a webhook is deleted, a job for it sends nothing, also one that was queued before.
pub delete_webhook-silences :
    (env : WebhookServices) (wallet id : Text) (table : List Webhook) (net : Network) (n : ℕ)
    (job : WebhookJob)
    → (delete_webhook wallet id table).1 ≡ none
    → job.webhook_id ≡ id
    → (execute_webhook_delivery env net n job (delete_webhook wallet id table).0).sent ≡ none
unfolding delete_webhook
delete_webhook-silences env wallet id table net n job h e =
    let table' = (delete_webhook wallet id table).0 in
    let gone : table' ≡ deactivate id table = ground arith in
    elim (Option-cases (execute_webhook_delivery env net n job table').sent) [
      | inl nothing ↦ nothing
      | inr (s, sent) ↦
          let (w, sealed, secret, parsed, there, active, _, _, _, _, _, _, _) =
            execute_webhook_delivery-sent env net n job table' s sent in
          absurd (
            ground (
              arith,
              deactivated id table w (
                  ap (find_webhook id) (sym gone)
                  ∙ ap (λ k. find_webhook k table') (sym e)
                  ∙ there),
            ))
    ]

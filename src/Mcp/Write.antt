-- ===== src/Mcp/Write.antt =====
-- packages/mcp-server/src/tools/write.ts: a record is prepared, and made when it is confirmed. The
-- two parts of a confirmation are what runs before and after its first `await`.
pub mod Spending
pub mod Requests
use res_ex_machina.Common.{
  ℕ, ◌+◌, ◌*◌, ◌≡◌, Bool, true, false, not, ◌&&◌, ◌||◌, List, [], ◌∷◌, Option, none, some, Text,
  codes, leb, ltb, text_eq, if◌then◌else◌, length, select, or_else, map_get, map_set, map_delete,
}
use res_ex_machina.Mcp.Config.{EnvConfig}
use res_ex_machina.Mcp.Ledger.{Reason, allowed, blocked}
use res_ex_machina.Mcp.Ledger.Sqlite.{
  SqliteLedger, record_transaction, record_failed_attempt, check_guardrails,
}

pub record Args : Type 0 where
  pub content : Option Text
  pub content_hash : Option Text
  pub model_id : Text

pub record ConfirmationRequest : Type 0 where
  pub id : Text
  pub args : Args
  pub fee_wei : ℕ
  pub gas_cost_wei : ℕ
  pub expires_at : ℕ

pub record State : Type 0 where
  pub pending : List (Text × ConfirmationRequest)
  pub ledger : SqliteLedger

pub data Failure : Type 0 where
  missing_content too_many_pending invalid_confirmation confirmation_expired : Failure
  hash_mismatch remote_error ledger_error : Failure
  guardrail_blocked : Reason → Failure

pub data Reply : Type 0 where
  already_recorded : Reply
  prepared : Text → Text → ℕ → ℕ → Reply
  recorded : Text → Text → Reply
  failed : Failure → Reply

abbrev pub max_pending_confirmations : ℕ
max_pending_confirmations = 1000

-- BigInt(100000) * BigInt(2000000000)
abbrev pub predicted_gas : ℕ
predicted_gas = 100000 * 2000000000

-- Whether a text is given and not empty.
abbrev pub given : Option Text → Bool
given (some (c ∷ s)) = true
given t = false

-- The body of the timer that drops expired confirmations.
unfoldable pub collect_expired : ℕ → State → State
collect_expired now s = record s {
  pending = select (λ (p : Text × ConfirmationRequest). not (ltb p.1.expires_at now)) s.pending;
}

-- `recordFailedAttempt`; the text leaves out the numbers of the guardrail's reason.
note_failure : ℕ → Text → Text → State → State
note_failure now id reason s = record s {
  ledger = or_else (record_failed_attempt now id reason s.ledger) s.ledger;
}

pub data Begun : Type 0 where
  refused : Failure → Begun
  cleared : ConfirmationRequest → Begun

-- What the server is asked for from one moment to the next, if nothing interrupts a handler.
pub data Request : Type 0 where
  prepares : ℕ → Text → Text → Args → Request
  confirms : ℕ → ℕ → Text → Request
  collects : ℕ → Request

-- The configuration, the client's calls to the API (`none` where they throw), and the hash of the
-- SDK.
pub record Env : Type 0 where
  pub config : EnvConfig
  pub verify : Text → Option Bool
  pub record_hash : Text → Text → Option Text
  pub compute_content_hash : Text → Text

module _ (env : Env) where
  open env use {config, verify, record_hash, compute_content_hash}

  abbrev pub target_hash : Args → Text
  target_hash args =
      if given args.content_hash
      then or_else args.content_hash []
      else if given args.content
      then compute_content_hash (or_else args.content [])
      else or_else args.content_hash []

  -- Whether the content and the hash are both given and do not belong together.
  abbrev pub mismatched : Args → Bool
  mismatched args =
      given args.content
      && given args.content_hash
      && not
          (text_eq (compute_content_hash (or_else args.content [])) (or_else args.content_hash []))

  -- `rxm_prepare_record_generation`, with the two identifiers that `randomUUID` would give.
  unfoldable pub prepare : ℕ → Text → Text → Args → State → State × Reply
  unfolding note_failure
  prepare now attempt_id confirmation_id args s =
      if not (given args.content) && not (given args.content_hash)
      then (s, failed missing_content)
      else elim (verify (target_hash args)) [
        | none ↦ (s, failed remote_error)
        | some true ↦ (s, already_recorded)
        | some false ↦
            elim (check_guardrails config now config.max_rxm_fee_wei predicted_gas s.ledger) [
              | blocked reason ↦ (
                note_failure now attempt_id (codes "Guardrail blocked prepare") s,
                failed (guardrail_blocked reason),
              )
              | allowed ↦
                  if leb max_pending_confirmations (length s.pending)
                  then (s, failed too_many_pending)
                  else (
                    record s {
                      pending =
                          map_set confirmation_id
                            (record {
                              id = confirmation_id;
                              args = args;
                              fee_wei = config.max_rxm_fee_wei;
                              gas_cost_wei = predicted_gas;
                              expires_at = now + 5 * 60 * 1000;
                            })
                            s.pending;
                    },
                    prepared confirmation_id (target_hash args) config.max_rxm_fee_wei
                        predicted_gas,
                  )
            ]
      ]

  -- `rxm_confirm_record_generation` up to its first `await`.
  unfoldable pub begin_confirm : ℕ → Text → State → State × Begun
  unfolding note_failure
  begin_confirm now id s = elim (map_get id s.pending) [
    | none ↦ (s, refused invalid_confirmation)
    | some req ↦
        let s' = record s { pending = map_delete id s.pending } in
        if ltb req.expires_at now
        then (s', refused confirmation_expired)
        else elim (check_guardrails config now req.fee_wei req.gas_cost_wei s.ledger) [
          | blocked reason ↦ (
            note_failure now id (codes "Guardrail blocked confirm") s',
            refused (guardrail_blocked reason),
          )
          | allowed ↦ (s', cleared req)
        ]
  ]

  -- The rest of it, from the hash of the content to the entry in the ledger.
  unfoldable pub finish_confirm : ℕ → ConfirmationRequest → State → State × Reply
  finish_confirm now req s =
      if mismatched req.args
      then (s, failed hash_mismatch)
      else elim (record_hash (target_hash req.args) req.args.model_id) [
        | none ↦ (s, failed remote_error)
        | some record_id ↦
            elim (record_transaction now record_id (codes "0x_rxm_sdk_internal") req.fee_wei
              req.gas_cost_wei s.ledger) [
                | none ↦ (s, failed ledger_error)
                | some l ↦ (record s { ledger = l }, recorded record_id (target_hash req.args))
              ]
      ]

  -- A confirmation with nothing in between; `later` is the time of the entry in the ledger.
  unfoldable pub confirm : ℕ → ℕ → Text → State → State × Reply
  confirm now later id s =
      let (s', begun) = begin_confirm now id s in
      elim begun [
        | refused failure ↦ (s', failed failure)
        | cleared req ↦ finish_confirm later req s'
      ]

  unfoldable pub step : Request → State → State
  step (prepares now attempt_id id args) s = (prepare now attempt_id id args s).0
  step (confirms now later id) s = (confirm now later id s).0
  step (collects now) s = collect_expired now s

  unfoldable pub run : List Request → State → State
  run [] s = s
  run (r ∷ rs) s = run rs (step r s)

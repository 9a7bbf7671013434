-- ===== src/Mcp/Control.antt =====
-- packages/mcp-server/src/tools/control.ts: the confirmation mode is changed at run time, and each
-- change is entered in the ledger's audit trail.
pub mod Trail
use res_ex_machina.Common.{
  ℕ, List, [], ◌∷◌, ◌++◌, Option, none, some, Text, codes, or_else, if◌then◌else◌,
}
use res_ex_machina.Mcp.Config.{
  ConfirmationMode, require, auto, dry_run, EnvConfig, Refusal, ModeChange, set_confirmation_mode,
}
use res_ex_machina.Mcp.Ledger.{
  AuditEvent, confirmation_mode_change, confirmation_mode_reset, agent, system,
}
use res_ex_machina.Mcp.Ledger.Sqlite.{SqliteLedger, record_audit_event}
use res_ex_machina.Mcp.Write.{given}

pub record ControlState : Type 0 where
  pub config : Option EnvConfig
  pub ledger : SqliteLedger

pub data ControlReply : Type 0 where
  rejected : Refusal → ControlReply
  updated : Option ConfirmationMode → ConfirmationMode → ControlReply
  not_audited : ControlReply

unfoldable pub mode_text : ConfirmationMode → Text
mode_text require = codes "require"
mode_text auto = codes "auto"
mode_text dry_run = codes "dry-run"

abbrev pub optional_mode_text : Option ConfirmationMode → Option Text
optional_mode_text none = none
optional_mode_text (some mode) = some (mode_text mode)

-- The event at the start of the process; a ledger that throws does not block it.
unfoldable pub register_control_tools : ℕ → Text → Option Text → ControlState → ControlState
register_control_tools now event_id public_address s = record s {
  ledger =
      or_else
        (record_audit_event now
          (record {
            event_id = event_id;
            event_type = confirmation_mode_reset;
            actor_wallet = public_address;
            actor_type = system;
            previous_value = none;
            new_value = codes "require";
            reason = codes "process_restart_safe_default";
            request_id = none;
            created_at = 0;
          })
          s.ledger)
        s.ledger;
}

-- A call of `rxm_set_confirmation_mode`, with the identifiers that `randomUUID` would give.
pub record ModeCall : Type 0 where
  pub now : ℕ
  pub event_id : Text
  pub request_id : Text
  pub mode : ConfirmationMode
  pub reason : Option Text

abbrev pub audit_event : Option Text → ModeCall → Option ConfirmationMode → AuditEvent
audit_event public_address call previous = record {
  event_id = call.event_id;
  event_type = confirmation_mode_change;
  actor_wallet = public_address;
  actor_type = agent;
  previous_value = optional_mode_text previous;
  new_value = mode_text call.mode;
  reason =
      if given call.reason
      then or_else call.reason []
      else codes "Mode changed to " ++ mode_text call.mode;
  request_id = some call.request_id;
  created_at = 0;
}

-- The handler; the mode is changed before the event is recorded.
unfoldable pub set_mode : Option Text → ModeCall → ControlState → ControlState × ControlReply
set_mode public_address call s =
    let (config', change) = set_confirmation_mode s.config call.mode call.reason in
    elim change.refused [
      | some refusal ↦ (record s { config = config' }, rejected refusal)
      | none ↦
          elim (record_audit_event call.now (audit_event public_address call change.previous_mode)
            s.ledger) [
              | none ↦ (record s { config = config' }, not_audited)
              | some l ↦
                  (record { config = config'; ledger = l }, updated change.previous_mode call.mode)
            ]
    ]

unfoldable pub set_modes : Option Text → List ModeCall → ControlState → ControlState
set_modes public_address [] s = s
set_modes public_address (call ∷ calls) s =
    set_modes public_address calls (set_mode public_address call s).0

-- ===== src/Mcp/Control/Trail.antt =====
-- The audit trail of the confirmation mode: what it says was changed to what, and where it ends.
use res_ex_machina.Common.{
  ◌≡◌, refl, ap, sym, ◌∙◌, ◌⊎◌, inl, inr, Bool, not, true, List, [], ◌∷◌, ◌++◌, append_assoc,
  append-nil, Option, some, Text, arith, any_of, text_eq, Bool-cases,
}
use res_ex_machina.Mcp.Config.{ConfirmationMode, EnvConfig}
use res_ex_machina.Mcp.Config.Modes.{in_order, set_confirmation_mode_lem}
use res_ex_machina.Mcp.Ledger.{AuditEvent}
use res_ex_machina.Mcp.Ledger.Sqlite.{SqliteLedger, record_audit_event}
use res_ex_machina.Mcp.Control.{ControlState, ModeCall, audit_event, mode_text, set_mode, set_modes}

-- Each event starts from the mode that the event before it ended with.
abbrev pub Trail : Text → List AuditEvent → Text → Type 0
Trail a [] b = a ≡ b
Trail a (e ∷ es) b = (e.previous_value ≡ some a) × Trail e.new_value es b

Trail-append :
    (a b c : Text) (es : List AuditEvent) (e : AuditEvent)
    → Trail a es b
    → e.previous_value ≡ some b
    → e.new_value ≡ c
    → Trail a (es ++ e ∷ []) c
Trail-append a b c [] e t p n = (p ∙ ap some (sym t), n)
Trail-append a b c (e' ∷ es) e (q, t) p n = (q, Trail-append e'.new_value b c es e t p n)

abbrev pub unused_id : Text → SqliteLedger → Bool
unused_id id l = not (any_of (λ (row : AuditEvent). text_eq row.event_id id) l.audit_events)

-- The identifiers of the events are new when they are used.
abbrev pub AllUnused : Option Text → List ModeCall → ControlState → Type 0
AllUnused address [] s = Unit
AllUnused address (call ∷ calls) s =
    (unused_id call.event_id s.ledger ≡ true) × AllUnused address calls (set_mode address call s).0

-- A call either is in order, and changes the mode and nothing else of the configuration, and adds
-- one event; or it changes nothing.
set_mode-cases :
    (address : Option Text) (call : ModeCall) (c : EnvConfig) (s : ControlState)
    → s.config ≡ some c
    → unused_id call.event_id s.ledger ≡ true
    → let s' = (set_mode address call s).0 in
      (s' ≡ s)
      ⊎ ((e : AuditEvent) × (s'.config ≡ some (record c { confirmation_mode = call.mode }))
          × (s'.ledger.audit_events ≡ s.ledger.audit_events ++ e ∷ [])
          × (e.previous_value ≡ some (mode_text c.confirmation_mode))
          × (e.new_value ≡ mode_text call.mode))
unfolding set_mode record_audit_event
set_mode-cases address call c s h unused =
    let (when, after, before) = set_confirmation_mode_lem c call.mode call.reason in
    elim (Bool-cases (in_order c call.mode call.reason)) [
      | inl good ↦ inr (
        record (audit_event address call (some c.confirmation_mode)) { created_at = call.now },
        ground (arith, when, after, before),
        ground (arith, when, after, before),
        refl,
        refl,
      )
      | inr bad ↦ inl (ground (arith, when, after, before))
    ]

-- Over any calls of `rxm_set_confirmation_mode` on a loaded configuration, if the identifiers of
-- the events are new: the mode is the only part of the configuration that changes, and the ledger
-- gains exactly the events of a trail that leads from the mode before to the mode after, each
-- event starting where the one before it ended.
pub set_modes-Trail :
    (address : Option Text) (calls : List ModeCall) (c : EnvConfig) (s : ControlState)
    → s.config ≡ some c
    → AllUnused address calls s
    → let s' = set_modes address calls s in
      (mode : ConfirmationMode) × (es : List AuditEvent) × (s'.config
        ≡ some (record c { confirmation_mode = mode }))
      × (s'.ledger.audit_events ≡ s.ledger.audit_events ++ es)
      × Trail (mode_text c.confirmation_mode) es (mode_text mode)
unfolding set_modes
set_modes-Trail address [] c s h u =
    (c.confirmation_mode, [], h, sym (append-nil s.ledger.audit_events), refl)
set_modes-Trail address (call ∷ calls) c s h (u, us) =
    let s' = (set_mode address call s).0 in
    elim (set_mode-cases address call c s h u) [
      | inl same ↦
          let (mode, es, config, events, trail) =
            set_modes-Trail address calls c s' (ap (λ (x : ControlState). x.config) same ∙ h) us in
          (
            mode,
            es,
            config,
            events ∙ ap (λ (x : ControlState). x.ledger.audit_events ++ es) same,
            trail,
          )
      | inr (e, changed, added, previous, new) ↦
          let (mode, es, config, events, trail) =
            set_modes-Trail address calls (record c { confirmation_mode = call.mode }) s' changed
              us in
          (
            mode,
            e ∷ es,
            config,
            events ∙ (ap (λ x. x ++ es) added ∙ append_assoc s.ledger.audit_events (e ∷ []) es),
            (previous, rw new trail),
          )
    ]

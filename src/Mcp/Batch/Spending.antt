-- ===== src/Mcp/Batch/Spending.antt =====
-- The daily limits while a batch is confirmed: what `checkBatchGuardrails` lets through leaves room
-- for every item, and each item takes at most its own share.
use res_ex_machina.Common.{
  Bool, ℕ, suc, ◌+◌, ◌≤◌, ◌≡◌, refl, ap, ◌∙◌, ◌⊎◌, inl, inr, List, [], ◌∷◌, ◌++◌, some, Text, codes,
  arith, Option-cases, Sum-cases, length, or_else, map_get,
}
use res_ex_machina.Mcp.Ledger.{BatchItemRecord, allowed}
use res_ex_machina.Mcp.Ledger.Sqlite.{
  SqliteLedger, record_failed_attempt, record_transaction, check_batch_guardrails, create_batch_job,
  update_batch_job_status, add_batch_item,
}
use res_ex_machina.Mcp.Ledger.Limits.{IsWithin, IsWithin-later, check_batch_guardrails_iff}
use res_ex_machina.Mcp.Write.Spending.{IsWithin-same_log}
use res_ex_machina.Mcp.Batch.{
  NewItem, BatchConfirmationRequest, BatchState, BatchFailure, BatchEnv, note_failure,
}
use res_ex_machina.Mcp.Batch.Confirm.{
  Progress, duplicate_row, failed_row, made_row, BatchBegun, stopped, cleared, begin_batch,
  open_job, add_duplicates, item_failed, item_made, process_item, process_items, finish_batch,
  confirm_batch,
}
use res_ex_machina.Mcp.Batch.Room.{
  HasRoom, HasRoom-same_log, HasRoom-later, HasRoom-less, HasRoom-IsWithin, record_transaction-room,
}

-- The ledger that a part of the handler leaves, whether it throws or not.
abbrev ledger_of : Progress ⊎ SqliteLedger → SqliteLedger
ledger_of (inl p) = p.ledger
ledger_of (inr l) = l

BatchBegun-cases :
    (b : BatchBegun)
    → ((f : BatchFailure) × (b ≡ stopped f)) ⊎ ((r : BatchConfirmationRequest) × (b ≡ cleared r))
BatchBegun-cases (stopped f) = inl (f, refl)
BatchBegun-cases (cleared r) = inr (r, refl)

abbrev left_by : SqliteLedger ⊎ SqliteLedger → SqliteLedger
left_by (inl l) = l
left_by (inr l) = l

add_batch_item-same_log :
    (checked : Bool) (item : BatchItemRecord) (l l' : SqliteLedger)
    → add_batch_item checked item l ≡ some l'
    → l'.spending_log ≡ l.spending_log
unfolding add_batch_item
add_batch_item-same_log checked item l l' h = ground arith

module _ (env : BatchEnv) where
  open env use {config}

  add_duplicates-same_log :
      (id : Text) (hashes : List Text) (l : SqliteLedger)
      → (left_by (add_duplicates env id hashes l)).spending_log ≡ l.spending_log
  unfolding add_duplicates
  add_duplicates-same_log id [] l = refl
  add_duplicates-same_log id (hash ∷ hashes) l =
      elim (Option-cases (add_batch_item env.foreign_keys (duplicate_row id hash) l)) [
        | inl thrown ↦ rw (thrown, left_by, add_duplicates)
        | inr (l', added) ↦
            rw (added, left_by, add_duplicates)
              (add_duplicates-same_log id hashes l' ∙ add_batch_item-same_log _ _ l l' added)
      ]

  item_failed-same_log :
      (id : Text) (item : NewItem) (message : Text) (p : Progress)
      → (ledger_of (item_failed env id item message p)).spending_log ≡ p.ledger.spending_log
  unfolding item_failed
  item_failed-same_log id item message p =
      elim (Option-cases (add_batch_item env.foreign_keys (failed_row id item message) p.ledger)) [
        | inl thrown ↦ rw (thrown, ledger_of, item_failed)
        | inr (l, added) ↦
            rw (added, ledger_of, item_failed) (add_batch_item-same_log _ _ p.ledger l added)
      ]

  item_made-same_log :
      (req : BatchConfirmationRequest) (item : NewItem) (record_id : Text) (p : Progress)
      → (ledger_of (item_made env req item record_id p)).spending_log ≡ p.ledger.spending_log
  unfolding item_made
  item_made-same_log req item record_id p =
      elim (Option-cases
        (add_batch_item env.foreign_keys (made_row req.batch_id item record_id) p.ledger)) [
          | inl thrown ↦
              rw (thrown, ledger_of, item_made)
                (item_failed-same_log req.batch_id item env.constraint_message p)
          | inr (l, added) ↦
              rw (added, ledger_of, item_made) (add_batch_item-same_log _ _ p.ledger l added)
        ]

  process_item-room :
      (k now n : ℕ) (req : BatchConfirmationRequest) (item : NewItem) (p : Progress)
      → let cost = req.per_item_fee_wei + req.per_item_gas_wei in
        HasRoom config now cost (suc n) p.ledger
        → HasRoom config now cost n (ledger_of (process_item env k now req item p))
  unfolding process_item
  process_item-room k now n req item p room =
      let cost = req.per_item_fee_wei + req.per_item_gas_wei in
      let less = HasRoom-less config now cost n p.ledger room in
      let keep = λ (message : Text).
        HasRoom-same_log config now cost n p.ledger
          (ledger_of (item_failed env req.batch_id item message p))
          (item_failed-same_log req.batch_id item message p) less in
      elim (Sum-cases (
        env.record_hash k item.content_hash item.args.model_id
          (or_else item.args.tags [] ++ config.default_tags) item.args.content_type)) [
            | inr (message, e) ↦ rw (e, ledger_of, process_item) (keep message)
            | inl (record_id, e) ↦
                elim (Option-cases (
                  record_transaction now record_id (codes "0x_rxm_sdk_batch") req.per_item_fee_wei
                    req.per_item_gas_wei p.ledger)) [
                      | inl clash ↦
                          rw (e, ledger_of, process_item, clash) (keep env.constraint_message)
                      | inr (l, entered) ↦
                          rw (e, ledger_of, process_item, entered)
                            (HasRoom-same_log config now cost n l _
                              (item_made-same_log req item record_id (record p { ledger = l }))
                              (record_transaction-room config now record_id _ n _ _ p.ledger l
                                entered room))
                    ]
          ]

  process_items-room :
      (clock : ℕ → ℕ) (later k t : ℕ) (req : BatchConfirmationRequest) (items : List NewItem)
      (p : Progress)
      → let cost = req.per_item_fee_wei + req.per_item_gas_wei in
        t ≤ clock k
        → ((i : ℕ) → clock i ≤ clock (suc i))
        → ((i : ℕ) → clock i ≤ later)
        → t ≤ later
        → HasRoom config t cost (length items) p.ledger
        → HasRoom config later cost 0 (ledger_of (process_items env clock k req items p))
  unfolding process_items
  process_items-room clock later k t req [] p h mono last h' room =
      HasRoom-later config t later _ 0 p.ledger h' room
  process_items-room clock later k t req (item ∷ items) p h mono last h' room =
      let cost = req.per_item_fee_wei + req.per_item_gas_wei in
      let now = clock k in
      let q = process_item env k now req item p in
      let left : HasRoom config now cost (length items) (ledger_of q) =
        process_item-room k now (length items) req item p
          (HasRoom-later config t now cost (suc (length items)) p.ledger h room) in
      elim (Sum-cases q) [
        | inl (p', e) ↦
            rw (e, process_items)
              (process_items-room clock later (suc k) now req items p' (mono k) mono last (last k)
                (rw (← ap ledger_of e) left))
        | inr (l, e) ↦
            let none_left : HasRoom config now cost 0 (ledger_of q) = record {
              spending = omega (arith, left.spending);
              records = omega (arith, left.records);
            } in
            rw (e, process_items, ledger_of)
              (HasRoom-later config now later cost 0 l (last k) (rw (← ap ledger_of e) none_left))
      ]

  open_job-same_log :
      (now : ℕ) (req : BatchConfirmationRequest) (l l' : SqliteLedger)
      → open_job now req l ≡ some l'
      → l'.spending_log ≡ l.spending_log
  unfolding open_job create_batch_job update_batch_job_status
  open_job-same_log now req l l' h = ground arith

  finish_batch-IsWithin :
      (clock : ℕ → ℕ) (now later : ℕ) (req : BatchConfirmationRequest) (s : BatchState)
      → let cost = req.per_item_fee_wei + req.per_item_gas_wei in
        now ≤ clock 0
        → ((i : ℕ) → clock i ≤ clock (suc i))
        → ((i : ℕ) → clock i ≤ later)
        → HasRoom config now cost (length req.new_items) s.ledger
        → IsWithin config later (finish_batch env clock now req s).0.ledger
  unfolding finish_batch update_batch_job_status
  finish_batch-IsWithin clock now later req s h mono last room =
      let cost = req.per_item_fee_wei + req.per_item_gas_wei in
      let count = length req.new_items in
      let h' : now ≤ later = omega (arith, last 0) in
      let within = λ (l : SqliteLedger) (r : HasRoom config now cost count l).
        HasRoom-IsWithin config later cost l (record {
          spending = omega (arith, HasRoom-later config now later cost count l h' r);
          records = omega (arith, HasRoom-later config now later cost count l h' r);
        }) in
      elim (Option-cases (open_job now req s.ledger)) [
        | inl clash ↦ rw (clash, finish_batch) (within s.ledger room)
        | inr (l, opened) ↦
            let room_l =
              HasRoom-same_log config now cost count s.ledger l
                (open_job-same_log now req s.ledger l opened) room in
            let q = add_duplicates env req.batch_id req.duplicate_hashes l in
            let room_q =
              HasRoom-same_log config now cost count l (left_by q)
                (add_duplicates-same_log req.batch_id req.duplicate_hashes l) room_l in
            elim (Sum-cases q) [
              | inr (l', e) ↦ rw (opened, finish_batch, e) (within l' (rw (← ap left_by e) room_q))
              | inl (l', e) ↦
                  let start : Progress = record { ledger = l'; results = []; actual_cost = 0 } in
                  let r = process_items env clock 0 req req.new_items start in
                  let room_r = HasRoom-IsWithin config later cost (ledger_of r) (
                    process_items-room clock later 0 now req req.new_items start h mono last h'
                      (rw (← ap left_by e) room_q)) in
                  elim (Sum-cases r) [
                    | inr (l'', e') ↦
                        rw (opened, finish_batch, e, e') (rw (← ap ledger_of e') room_r)
                    | inl (p, e') ↦
                        rw (opened, finish_batch, e, e')
                          (IsWithin-same_log config later p.ledger _ refl
                            (rw (← ap ledger_of e') room_r))
                  ]
            ]
      ]

  begin_batch-same_log :
      (now : ℕ) (id : Text) (s : BatchState)
      → (begin_batch env now id s).0.ledger.spending_log ≡ s.ledger.spending_log
  unfolding begin_batch note_failure record_failed_attempt
  begin_batch-same_log now id s = ground arith

  -- What a cleared confirmation was: pending, not expired, and let through by the guardrails.
  pub begin_batch-cleared :
      (now : ℕ) (id : Text) (s : BatchState) (req : BatchConfirmationRequest)
      → (begin_batch env now id s).1 ≡ cleared req
      → (map_get id s.pending ≡ some req)
        × (now ≤ req.expires_at)
        × (check_batch_guardrails config now
              (length req.new_items)
              req.per_item_fee_wei
              req.per_item_gas_wei
              s.ledger
            ≡ allowed)
        × ((begin_batch env now id s).0.ledger ≡ s.ledger)
  unfolding begin_batch
  begin_batch-cleared now id s req h = ground arith

  -- A batch that is confirmed with nothing in between keeps the day's spending and records within
  -- the daily limits at any time after its last item, whatever its outcome and whatever fails on the
  -- way, if the clock runs forward.
  pub confirm_batch-IsWithin :
      (clock : ℕ → ℕ) (now later : ℕ) (id : Text) (s : BatchState)
      → now ≤ clock 0
      → ((i : ℕ) → clock i ≤ clock (suc i))
      → ((i : ℕ) → clock i ≤ later)
      → IsWithin config now s.ledger
      → IsWithin config later (confirm_batch env clock now id s).0.ledger
  unfolding confirm_batch
  confirm_batch-IsWithin clock now later id s h mono last w =
      let s' = (begin_batch env now id s).0 in
      let h' : now ≤ later = omega (arith, last 0) in
      elim (BatchBegun-cases (begin_batch env now id s).1) [
        | inl (f, e) ↦
            rw (e, confirm_batch)
              (IsWithin-later config now later s'.ledger h'
                (IsWithin-same_log config now s.ledger s'.ledger (begin_batch-same_log now id s) w))
        | inr (req, e) ↦
            let (found, fresh, ok, same) = begin_batch-cleared now id s req e in
            let room =
              (check_batch_guardrails_iff config now (length req.new_items) req.per_item_fee_wei
                  req.per_item_gas_wei s.ledger).0
                ok in
            rw (e, confirm_batch)
              (finish_batch-IsWithin clock now later req s' h mono last (
                HasRoom-same_log config now _ _ s.ledger s'.ledger (begin_batch-same_log now id s)
                  (record { spending = omega (arith, room); records = omega (arith, room) })))
      ]

-- ===== src/Mcp/Batch/Accounting.antt =====
-- What a confirmed batch reports: every new item is accounted for, once, and what was spent is the
-- cost of the items that were made. Once the job is in the ledger no statement of the handler throws.
use res_ex_machina.Common.{
  ℕ, suc, ◌+◌, ◌*◌, ◌≡◌, refl, ◌∙◌, inl, inr, true, false, not, List, [], ◌∷◌, ◌++◌, some, Text,
  codes, arith, Option-cases, Sum-cases, length, select, or_else,
}
use res_ex_machina.Mcp.Ledger.{BatchJobResult}
use res_ex_machina.Mcp.Ledger.Sqlite.{SqliteLedger, record_transaction, get_batch_job}
use res_ex_machina.Mcp.Batch.{
  NewItem, BatchConfirmationRequest, BatchState, BatchEnv, confirmed, ItemOutcome, made, not_made,
}
use res_ex_machina.Mcp.Batch.Confirm.{
  Progress, is_made, made_count, failed_count, final_status, summarize, duplicate_row, failed_row,
  made_row, cleared, begin_batch, add_duplicates, item_failed, item_made, process_item,
  process_items, finish_batch, confirm_batch,
}
use res_ex_machina.Mcp.Batch.Jobs.{
  has_job, add_batch_item-HasJob, record_transaction-same_jobs, open_job-HasJob,
  get_batch_job-update_batch_job_status,
}

-- One item is settled: the job stays, one more item counts, and a made item adds its cost.
record Settles (cost : ℕ) (p p' : Progress) : Type 0 where
  jobs : p'.ledger.batch_jobs ≡ p.ledger.batch_jobs
  counted : made_count p' + failed_count p' ≡ made_count p + failed_count p + 1
  paid : p'.actual_cost + cost * made_count p ≡ p.actual_cost + cost * made_count p'

count_made :
    (rs : List ItemOutcome) (hash id : Text)
    → (length (select is_made (rs ++ made hash id ∷ [])) ≡ length (select is_made rs) + 1)
      × (length (select (λ r. not (is_made r)) (rs ++ made hash id ∷ []))
          ≡ length (select (λ r. not (is_made r)) rs))
count_made [] hash id = (refl, refl)
count_made (r ∷ rs) hash id = ground (arith, count_made rs hash id)

count_not_made :
    (rs : List ItemOutcome) (hash message : Text)
    → (length (select is_made (rs ++ not_made hash message ∷ [])) ≡ length (select is_made rs))
      × (length (select (λ r. not (is_made r)) (rs ++ not_made hash message ∷ []))
          ≡ length (select (λ r. not (is_made r)) rs) + 1)
count_not_made [] hash message = (refl, refl)
count_not_made (r ∷ rs) hash message = ground (arith, count_not_made rs hash message)

module _ (env : BatchEnv) where
  open env use {config}

  add_duplicates-HasJob :
      (id : Text) (hashes : List Text) (l : SqliteLedger)
      → has_job id l ≡ true
      → (l' : SqliteLedger) × (add_duplicates env id hashes l ≡ inl l') × (has_job id l' ≡ true)
  unfolding add_duplicates
  add_duplicates-HasJob id [] l h = (l, refl, h)
  add_duplicates-HasJob id (hash ∷ hashes) l h =
      let (l', added, same) = add_batch_item-HasJob env.foreign_keys (duplicate_row id hash) l h in
      let (l'', rest, there) = add_duplicates-HasJob id hashes l' (rw same h) in
      (l'', rw (add_duplicates, added) rest, there)

  item_failed-Settles :
      (cost : ℕ) (id : Text) (item : NewItem) (message : Text) (p : Progress)
      → has_job id p.ledger ≡ true
      → (p' : Progress) × (item_failed env id item message p ≡ inl p') × Settles cost p p'
  unfolding item_failed
  item_failed-Settles cost id item message p h =
      let (l, added, same) =
        add_batch_item-HasJob env.foreign_keys (failed_row id item message) p.ledger h in
      let (kept, more) = count_not_made p.results item.content_hash message in
      (
        record p { ledger = l; results = p.results ++ not_made item.content_hash message ∷ [] },
        rw (item_failed, added),
        record { jobs = same; counted = omega arith; paid = rw kept },
      )

  item_made-Settles :
      (req : BatchConfirmationRequest) (item : NewItem) (record_id : Text) (p : Progress)
      → has_job req.batch_id p.ledger ≡ true
      → let cost = req.per_item_fee_wei + req.per_item_gas_wei in
        (p' : Progress) × (item_made env req item record_id p ≡ inl p') × Settles cost p p'
  unfolding item_made
  item_made-Settles req item record_id p h =
      let cost = req.per_item_fee_wei + req.per_item_gas_wei in
      let (l, added, same) =
        add_batch_item-HasJob env.foreign_keys (made_row req.batch_id item record_id) p.ledger h in
      let (more, kept) = count_made p.results item.content_hash record_id in
      (
        record {
          ledger = l;
          results = p.results ++ made item.content_hash record_id ∷ [];
          actual_cost = p.actual_cost + cost;
        },
        rw (item_made, added),
        record { jobs = same; counted = omega arith; paid = rw more (omega arith) },
      )

  process_item-Settles :
      (k now : ℕ) (req : BatchConfirmationRequest) (item : NewItem) (p : Progress)
      → has_job req.batch_id p.ledger ≡ true
      → let cost = req.per_item_fee_wei + req.per_item_gas_wei in
        (p' : Progress) × (process_item env k now req item p ≡ inl p') × Settles cost p p'
  unfolding process_item
  process_item-Settles k now req item p h =
      let cost = req.per_item_fee_wei + req.per_item_gas_wei in
      let tags = or_else item.args.tags [] ++ config.default_tags in
      elim (Sum-cases
        (env.record_hash k item.content_hash item.args.model_id tags item.args.content_type)) [
          | inr (message, e) ↦
              rw (e, process_item) (item_failed-Settles cost req.batch_id item message p h)
          | inl (record_id, e) ↦
              elim (Option-cases (
                record_transaction now record_id (codes "0x_rxm_sdk_batch") req.per_item_fee_wei
                  req.per_item_gas_wei p.ledger)) [
                    | inl clash ↦
                        rw (e, process_item, clash)
                          (item_failed-Settles cost req.batch_id item env.constraint_message p h)
                    | inr (l, entered) ↦
                        let same = record_transaction-same_jobs _ _ _ _ _ _ l entered in
                        let (p', done, settled) =
                          item_made-Settles req item record_id (record p { ledger = l })
                            (rw same h) in
                        (
                          p',
                          rw (process_item, e, entered) done,
                          record {
                            jobs = settled.jobs ∙ same;
                            counted = settled.counted;
                            paid = settled.paid;
                          },
                        )
                  ]
        ]

  -- From a ledger with the job, the loop ends with every item counted and the cost of the made ones.
  process_items-settled :
      (clock : ℕ → ℕ) (k : ℕ) (req : BatchConfirmationRequest) (items : List NewItem) (p : Progress)
      → let cost = req.per_item_fee_wei + req.per_item_gas_wei in
        has_job req.batch_id p.ledger ≡ true
        → p.actual_cost ≡ cost * made_count p
        → (p' : Progress) × (process_items env clock k req items p ≡ inl p')
          × (made_count p' + failed_count p' ≡ made_count p + failed_count p + length items)
          × (p'.actual_cost ≡ cost * made_count p')
          × (has_job req.batch_id p'.ledger ≡ true)
  unfolding process_items
  process_items-settled clock k req [] p h paid = (p, refl, omega arith, paid, h)
  process_items-settled clock k req (item ∷ items) p h paid =
      let (p', done, settled) = process_item-Settles k (clock k) req item p h in
      let (p'', rest, counted, paid', there) =
        process_items-settled clock (suc k) req items p' (rw settled.jobs h)
          (omega (arith, settled.paid)) in
      (p'', rw (process_items, done) rest, omega (arith, settled.counted), paid', there)

  -- A confirmed batch whose identifier no job has yet is answered with a summary, never with an
  -- error, whatever the API answers to its items: the items made and the items failed add up to the
  -- new items, the cost reported is the cost of an item for each item made, and the ledger has the
  -- job with the final status and this cost.
  pub confirm_batch_accounts :
      (clock : ℕ → ℕ) (now : ℕ) (id : Text) (s : BatchState) (req : BatchConfirmationRequest)
      → (begin_batch env now id s).1 ≡ cleared req
      → has_job req.batch_id (begin_batch env now id s).0.ledger ≡ false
      → let after = confirm_batch env clock now id s in
        (p : Progress) × (r : BatchJobResult) × (after.1 ≡ confirmed req.batch_id (summarize req p))
        × (made_count p + failed_count p ≡ length req.new_items)
        × (p.actual_cost ≡ (req.per_item_fee_wei + req.per_item_gas_wei) * made_count p)
        × (get_batch_job req.batch_id after.0.ledger ≡ some r)
        × (r.job.status ≡ final_status p)
        × (r.job.actual_cost_wei ≡ p.actual_cost)
  unfolding confirm_batch finish_batch
  confirm_batch_accounts clock now id s req e unused =
      let l = (begin_batch env now id s).0.ledger in
      let (l', opened, there) = open_job-HasJob now req l unused in
      let (l'', added, there') = add_duplicates-HasJob req.batch_id req.duplicate_hashes l' there in
      let (p, done, counted, paid, there'') =
        process_items-settled clock 0 req req.new_items
          (record { ledger = l''; results = []; actual_cost = 0 }) there' (omega arith) in
      let (r, found, status, cost) =
        get_batch_job-update_batch_job_status req.batch_id (final_status p) p.actual_cost p.ledger
          there'' in
      (
        p,
        r,
        rw (confirm_batch, e, finish_batch, opened, added, done),
        omega arith,
        paid,
        rw (confirm_batch, e, finish_batch, opened, added, done) found,
        status,
        cost,
      )

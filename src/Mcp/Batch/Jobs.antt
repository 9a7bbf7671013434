-- ===== src/Mcp/Batch/Jobs.antt =====
-- The jobs of a ledger while a batch is confirmed: an item can be added once its job is there.
use res_ex_machina.Common.{
  ℕ, ◌+◌, ◌*◌, ◌≡◌, refl, ◌∙◌, inl, inr, Bool, true, false, List, [], ◌∷◌, ◌++◌, none, some, Option,
  Text, arith, if◌then◌else◌, Option-cases, Bool-cases, find_first, map, length, select, any_of,
  text_eq, text_eq_refl,
}
use res_ex_machina.Mcp.Ledger.{
  BatchJob, BatchJobResult, BatchItemRecord, BatchJobStatus, pending, processing,
}
use res_ex_machina.Mcp.Ledger.Memory.{with_status}
use res_ex_machina.Mcp.Ledger.Sqlite.{
  SqliteLedger, record_transaction, create_batch_job, get_batch_job, update_batch_job_status,
  add_batch_item,
}
use res_ex_machina.Mcp.Batch.{BatchConfirmationRequest}
use res_ex_machina.Mcp.Batch.Confirm.{open_job}

-- The ledger has a job with this identifier.
abbrev pub has_job : Text → SqliteLedger → Bool
has_job id l = any_of (λ (row : BatchJob). text_eq row.batch_id id) l.batch_jobs

pub add_batch_item-HasJob :
    (checked : Bool) (item : BatchItemRecord) (l : SqliteLedger)
    → has_job item.batch_id l ≡ true
    → (l' : SqliteLedger) × (add_batch_item checked item l ≡ some l')
      × (l'.batch_jobs ≡ l.batch_jobs)
unfolding add_batch_item
add_batch_item-HasJob checked item l h = elim (Option-cases (add_batch_item checked item l)) [
  | inl thrown ↦ absurd (ground arith)
  | inr (l', added) ↦ (l', added, ground arith)
]

pub record_transaction-same_jobs :
    (now : ℕ) (id tx : Text) (fee gas : ℕ) (l l' : SqliteLedger)
    → record_transaction now id tx fee gas l ≡ some l'
    → l'.batch_jobs ≡ l.batch_jobs
unfolding record_transaction
record_transaction-same_jobs now id tx fee gas l l' h = ground arith

any_of-append :
    (id : Text) (xs : List BatchJob) (x : BatchJob)
    → text_eq x.batch_id id ≡ true
    → any_of (λ (row : BatchJob). text_eq row.batch_id id) (xs ++ x ∷ []) ≡ true
any_of-append id [] x h = ground arith
any_of-append id (y ∷ xs) x h = ground (arith, any_of-append id xs x h)

-- Changing the status of jobs keeps their identifiers.
update_batch_job_status-same_jobs :
    (id j : Text) (status : BatchJobStatus) (cost : Option ℕ) (l : SqliteLedger)
    → has_job id (update_batch_job_status j status cost l) ≡ has_job id l
unfolding update_batch_job_status
update_batch_job_status-same_jobs id j status cost l = on_rows l.batch_jobs
  where
    on_rows :
        (rows : List BatchJob)
        → any_of
            (λ (row : BatchJob). text_eq row.batch_id id)
            (map
              (λ (row : BatchJob).
                if text_eq row.batch_id j then with_status status cost row else row)
              rows)
          ≡ any_of (λ (row : BatchJob). text_eq row.batch_id id) rows
    on_rows [] = refl
    on_rows (row ∷ rows) = ground (arith, on_rows rows)

create_batch_job-HasJob :
    (now : ℕ) (id : Text) (total new duplicates cost : ℕ) (l : SqliteLedger)
    → has_job id l ≡ false
    → (l' : SqliteLedger) × (create_batch_job now id total new duplicates cost l ≡ some l')
      × (has_job id l' ≡ true)
unfolding create_batch_job
create_batch_job-HasJob now id total new duplicates cost l h =
    let job : BatchJob = record {
      batch_id = id;
      created_at = now;
      total_items = total;
      new_items = new;
      duplicate_items = duplicates;
      status = pending;
      estimated_cost_wei = cost;
      actual_cost_wei = 0;
    } in
    elim (Option-cases (create_batch_job now id total new duplicates cost l)) [
      | inl thrown ↦ absurd (ground arith)
      | inr (l', created) ↦
          (l', created, ground (arith, any_of-append id l.batch_jobs job (text_eq_refl id)))
    ]

pub open_job-HasJob :
    (now : ℕ) (req : BatchConfirmationRequest) (l : SqliteLedger)
    → has_job req.batch_id l ≡ false
    → (l' : SqliteLedger) × (open_job now req l ≡ some l') × (has_job req.batch_id l' ≡ true)
unfolding open_job
open_job-HasJob now req l h =
    let count = length req.new_items in
    let duplicates = length req.duplicate_hashes in
    let (l', created, there) =
      create_batch_job-HasJob now req.batch_id (count + duplicates) count duplicates
        ((req.per_item_fee_wei + req.per_item_gas_wei) * count) l h in
    (
      update_batch_job_status req.batch_id processing none l',
      rw (open_job, created),
      update_batch_job_status-same_jobs req.batch_id req.batch_id processing none l' ∙ there,
    )

-- The status and the cost that a job is given are what is read back.
pub get_batch_job-update_batch_job_status :
    (id : Text) (status : BatchJobStatus) (cost : ℕ) (l : SqliteLedger)
    → has_job id l ≡ true
    → (r : BatchJobResult) × (get_batch_job id (update_batch_job_status id status (some cost) l)
        ≡ some r)
      × (r.job.status ≡ status)
      × (r.job.actual_cost_wei ≡ cost)
unfolding get_batch_job update_batch_job_status
get_batch_job-update_batch_job_status id status cost l h =
    let (job, found, s, c) = on_rows l.batch_jobs h in
    let r : BatchJobResult = record {
      job = job;
      items = select (λ (row : BatchItemRecord). text_eq row.batch_id id) l.batch_items;
    } in
    (r, rw (get_batch_job, found), s, c)
  where
    on_rows :
        (rows : List BatchJob)
        → any_of (λ (row : BatchJob). text_eq row.batch_id id) rows ≡ true
        → (job : BatchJob) × (find_first
              (λ (row : BatchJob). text_eq row.batch_id id)
              (map
                (λ (row : BatchJob).
                  if text_eq row.batch_id id then with_status status (some cost) row else row)
                rows)
            ≡ some job)
          × (job.status ≡ status)
          × (job.actual_cost_wei ≡ cost)
    on_rows [] e = absurd (ground arith)
    on_rows (row ∷ rows) e = elim (Bool-cases (text_eq row.batch_id id)) [
      | inl same ↦ (with_status status (some cost) row, rw (same, same), refl, refl)
      | inr other ↦ rw (other, other) (on_rows rows (ground arith))
    ]

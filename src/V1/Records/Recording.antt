-- ===== src/V1/Records/Recording.antt =====
-- What the record of a fresh settled attempt, or its failure, does to the tables.
use res_ex_machina.Common.{
  ℕ, ◌≡◌, refl, ◌∙◌, inl, inr, [], ◌∷◌, ◌++◌, none, some, Text, arith, List-cases, if◌then◌else◌,
  All, All-concat, map_get,
}
use res_ex_machina.V1.Payments.{PaymentAttempt, settled, Attempts, update_attempt, link_record}
use res_ex_machina.V1.Payments.Frame.{update_attempt-other, update_attempt-same}
use res_ex_machina.V1.Records.{
  violations, CreateRecordInput, Store, Services, new_row, create_record,
}
use res_ex_machina.V1.Records.Posting.{NewIds, mark_not_recorded, record_paid}
use res_ex_machina.V1.Records.Batches.{record_item}
use res_ex_machina.V1.Records.Soundness.{
  IsPaid, IsSound, Distinct, Distinct-concat, violations-none, Keeps, All-IsPaid_kept,
}

module _ (env : Services) where
  open env use {fee_config, chain, facilitator}

  -- The store with the record of a settled attempt, and the link to it.
  abbrev pub recorded : ℕ → NewIds → CreateRecordInput → PaymentAttempt → Store → Store
  recorded now ids input a s = record {
    records = s.records ++ new_row env now ids.record_id input ids.attempt_id a ∷ [];
    attempts =
        update_attempt ids.attempt_id
          (λ (b : PaymentAttempt). record b { record_id = some ids.record_id }) s.attempts;
    queue = if env.takes_job ids.record_id then s.queue ++ ids.record_id ∷ [] else s.queue;
  }

  -- With a fresh settled attempt, the record names it and it names the record.
  recorded-IsSound :
      (now : ℕ) (ids : NewIds) (input : CreateRecordInput) (a : PaymentAttempt) (before : Attempts)
      (s : Store)
      → map_get ids.attempt_id before ≡ none
      → Keeps ids.attempt_id before s.attempts
      → map_get ids.attempt_id s.attempts ≡ some a
      → a.status ≡ settled
      → a.content_hash ≡ input.pog_bundle.content_hash
      → All (IsPaid before) s.records
      → Distinct s.records
      → violations (new_row env now ids.record_id input ids.attempt_id a) s.records ≡ []
      → IsSound (recorded now ids input a s)
  recorded-IsSound now ids input a before s free keeps there paid content rows d e =
      let row = new_row env now ids.record_id input ids.attempt_id a in
      let id = ids.attempt_id in
      let linked = λ (b : PaymentAttempt). record b { record_id = some ids.record_id } in
      record {
        paid =
            All-concat (IsPaid (update_attempt id linked s.attempts)) s.records {x = row}
              (All-IsPaid_kept id before _ s.records free
                (λ j h. update_attempt-other id j linked s.attempts h ∙ keeps j h) rows)
              (record {
                attempt_id = id;
                attempt = linked a;
                named = refl;
                there = update_attempt-same id linked a s.attempts there;
                paid = paid;
                content = content;
                linked = refl;
              });
        distinct = Distinct-concat s.records row d (violations-none row s.records e);
      }

  -- A change of the fresh attempt keeps the records that are there.
  changed-IsSound :
      (id : Text) (change : PaymentAttempt → PaymentAttempt) (before : Attempts) (s : Store)
      → map_get id before ≡ none
      → Keeps id before s.attempts
      → All (IsPaid before) s.records
      → Distinct s.records
      → IsSound (record s { attempts = update_attempt id change s.attempts })
  changed-IsSound id change before s free keeps rows d = record {
    paid =
        All-IsPaid_kept id before _ s.records free
          (λ j h. update_attempt-other id j change s.attempts h ∙ keeps j h) rows;
    distinct = d;
  }

  pub record_paid-IsSound :
      (now : ℕ) (ids : NewIds) (input : CreateRecordInput) (a : PaymentAttempt) (before : Attempts)
      (s : Store)
      → map_get ids.attempt_id before ≡ none
      → Keeps ids.attempt_id before s.attempts
      → map_get ids.attempt_id s.attempts ≡ some a
      → a.status ≡ settled
      → a.content_hash ≡ input.pog_bundle.content_hash
      → All (IsPaid before) s.records
      → Distinct s.records
      → IsSound (record_paid env now ids input a s).0
        × IsSound (record_item env now ids input a s).0
  unfolding record_paid record_item create_record link_record
  record_paid-IsSound now ids input a before s free keeps there paid content rows d =
      let row = new_row env now ids.record_id input ids.attempt_id a in
      elim (List-cases (violations row s.records)) [
        | inr (c, cs, e) ↦
            let same : (record_paid env now ids input a s).0 ≡ record s {
              attempts = update_attempt ids.attempt_id mark_not_recorded s.attempts;
            } =
              ground arith in
            let item : (record_item env now ids input a s).0 ≡ s = ground arith in
            (
              rw same (changed-IsSound ids.attempt_id mark_not_recorded before s free keeps rows d),
              rw item (record {
                paid = All-IsPaid_kept ids.attempt_id before _ s.records free keeps rows;
                distinct = d;
              }),
            )
        | inl e ↦
            let sound =
              recorded-IsSound now ids input a before s free keeps there paid content rows d e in
            let same : (record_paid env now ids input a s).0 ≡ recorded now ids input a s =
              ground arith in
            let item : (record_item env now ids input a s).0 ≡ recorded now ids input a s =
              ground arith in
            (rw same sound, rw item sound)
      ]

-- ===== src/V1/Records/Retries.antt =====
-- What a request leaves for a second one: a retry gets the record that is there, a payment whose
-- record failed does not stay settled, and an item of a batch does not have this.
use res_ex_machina.Common.{
  ℕ, ◌≡◌, refl, ap, ◌∙◌, ◌⊎◌, inl, inr, true, false, [], ◌∷◌, ◌++◌, List, none, some, Text, arith,
  Option-cases, List-cases, text_eq_refl, text_eq, map, map_get, any_of, select-none,
}
use res_ex_machina.V1.Payments.{
  PaymentAttempt, PaymentEvidence, PaymentError, settled, failed, refused_with, verify_and_settle,
  link_record, pre_check,
}
use res_ex_machina.V1.Payments.Frame.{update_attempt-same, verify_and_settle-settled}
use res_ex_machina.V1.Payments.Settlement.{attempt_recorded}
use res_ex_machina.V1.Records.{
  violations, clashes, record_id_key, content_hash_key, wallet_nonce_key, fee_tx_hash_key,
  RecordRow, RecordError, CreateRecordInput, Store, Services, new_row, check_duplicates,
  verify_pog_signature, constraint_error, paid_record, create_record,
}
use res_ex_machina.V1.Records.Posting.{
  NewIds, Headers, evidence_of, legacy_hash, mark_not_recorded, record_paid, pay_and_record,
  post_record,
}
use res_ex_machina.V1.Records.Batches.{record_item}
use res_ex_machina.V1.Records.Operations.{Settled-cases, PreCheckResult-cases}

-- What there is under the identifier of the attempt after a request: no attempt, one that failed,
-- or one that is settled and names a record of the table.
abbrev pub NoOrphan : Text → Store → Type 0
NoOrphan id s =
    (map_get id s.attempts ≡ none)
    ⊎ ((a : PaymentAttempt) × (map_get id s.attempts ≡ some a)
        × ((a.status ≡ failed)
            ⊎ ((r : Text) × (a.record_id ≡ some r)
                × (any_of (λ (row : RecordRow). text_eq row.record_id r) s.records ≡ true))))

has_record-append :
    (rows : List RecordRow) (row : RecordRow)
    → any_of (λ (r : RecordRow). text_eq r.record_id row.record_id) (rows ++ row ∷ []) ≡ true
has_record-append [] row = ground (arith, text_eq_refl row.record_id)
has_record-append (r ∷ rows) row = ground (arith, has_record-append rows row)

content_violation :
    (x : RecordRow) (rows : List RecordRow)
    → violations x rows ≡ []
    → any_of (λ (r : RecordRow). text_eq r.content_hash x.content_hash) rows ≡ false
unfolding violations clashes
content_violation x rows h =
    (select-none (λ c. any_of (λ r. clashes c r x) rows)
      (record_id_key ∷ content_hash_key ∷ wallet_nonce_key ∷ fee_tx_hash_key ∷ []) h).1.0

orphaned :
    (id : Text) (a : PaymentAttempt) (s : Store)
    → map_get id s.attempts ≡ some a
    → a.status ≡ settled
    → a.record_id ≡ none
    → ¬ NoOrphan id s
orphaned id a s there paid unlinked (inl absent) = ground arith
orphaned id a s there paid unlinked (inr (b, there', inl lost)) = ground arith
orphaned id a s there paid unlinked (inr (b, there', inr (r, linked, found))) = ground arith

module _ (env : Services) where
  open env use {fee_config, chain, facilitator}

  record_paid-NoOrphan :
      (now : ℕ) (ids : NewIds) (input : CreateRecordInput) (a : PaymentAttempt) (s : Store)
      → map_get ids.attempt_id s.attempts ≡ some a
      → NoOrphan ids.attempt_id (record_paid env now ids input a s).0
  unfolding record_paid create_record link_record
  record_paid-NoOrphan now ids input a s there =
      let row = new_row env now ids.record_id input ids.attempt_id a in
      let id = ids.attempt_id in
      let linked = λ (b : PaymentAttempt). record b { record_id = some ids.record_id } in
      elim (List-cases (violations row s.records)) [
        | inr (c, cs, e) ↦ inr (
          mark_not_recorded a,
          ground (arith, update_attempt-same id mark_not_recorded a s.attempts there),
          inl refl,
        )
        | inl e ↦ inr (
          linked a,
          ground (arith, update_attempt-same id linked a s.attempts there),
          inr (ids.record_id, refl, ground (arith, has_record-append s.records row)),
        )
      ]

  settled-NoOrphan :
      (now : ℕ) (ids : NewIds) (input : CreateRecordInput) (evidence : PaymentEvidence) (s : Store)
      (e : PaymentError)
      → let out =
          verify_and_settle fee_config now chain facilitator ids.attempt_id evidence
            input.pog_bundle.content_hash s.attempts in
        map_get ids.attempt_id s.attempts ≡ none
        → out.1 ≡ refused_with e
        → NoOrphan ids.attempt_id (record s { attempts = out.0 })
  settled-NoOrphan now ids input evidence s e free refused =
      elim (attempt_recorded fee_config now chain facilitator ids.attempt_id evidence
        input.pog_bundle.content_hash s.attempts) [
          | inl (same, _) ↦ inl (ap (map_get ids.attempt_id) same ∙ free)
          | inr (inr (err, p, there, out)) ↦ inr (_, there, inl refl)
          | inr (inl (n, p, there, out)) ↦ absurd (ground (arith, out, refused))
        ]

  -- A request with a fresh attempt leaves no payment without a record, whatever it comes to: under
  -- the identifier of its attempt there is none, one that failed, or one that names a record of the
  -- table.
  pub post_record-NoOrphan :
      (now : ℕ) (ids : NewIds) (headers : Headers) (input : CreateRecordInput) (s : Store)
      → map_get ids.attempt_id s.attempts ≡ none
      → NoOrphan ids.attempt_id (post_record env now ids headers input s).0
  unfolding post_record pay_and_record
  post_record-NoOrphan now ids headers input s free =
      let bundle = input.pog_bundle in
      elim (Option-cases (verify_pog_signature env bundle)) [
        | inr (e, refused) ↦ rw (post_record, refused) (inl free)
        | inl valid ↦
            elim (PreCheckResult-cases (
              pre_check bundle.content_hash headers.payment_identifier (map paid_record s.records)
                s.attempts)) [
                  | inl (inl (id, e)) ↦ rw (post_record, valid, e) (inl free)
                  | inl (inr (r, e)) ↦ rw (post_record, valid, e) (inl free)
                  | inr e ↦ elim (Option-cases (evidence_of headers input)) [
                    | inl nothing ↦ rw (post_record, valid, e, nothing) (inl free)
                    | inr (evidence, offered) ↦
                        elim (Option-cases (
                          check_duplicates bundle.agent_wallet bundle.nonce (legacy_hash evidence)
                            s.records)) [
                              | inr (e', refused) ↦
                                  rw (post_record, valid, e, offered, pay_and_record, refused)
                                    (inl free)
                              | inl fine ↦
                                  let out =
                                    verify_and_settle fee_config now chain facilitator
                                      ids.attempt_id evidence bundle.content_hash s.attempts in
                                  elim (Settled-cases out.1) [
                                    | inl (e', refused) ↦
                                        rw
                                          (
                                            post_record, valid, e, offered, pay_and_record, fine,
                                            refused,
                                          )
                                          (settled-NoOrphan now ids input evidence s e' free
                                            refused)
                                    | inr (a, e') ↦
                                        rw
                                          (post_record, valid, e, offered, pay_and_record, fine, e')
                                          (record_paid-NoOrphan now ids input a
                                            (record s { attempts = out.0 })
                                            (verify_and_settle-settled fee_config now chain
                                              facilitator ids.attempt_id evidence
                                              bundle.content_hash s.attempts a e').1)
                                  ]
                            ]
                  ]
                ]
      ]

  -- The record of a settled payment that meets a row with the same content: a single request makes
  -- no record and leaves the payment failed, naming no record, while an item of a batch leaves it
  -- settled without a record, though the item is answered with an error.
  pub record_item_orphans :
      (now : ℕ) (ids : NewIds) (item : CreateRecordInput) (a : PaymentAttempt) (s : Store)
      → any_of (λ (r : RecordRow). text_eq r.content_hash item.pog_bundle.content_hash) s.records
        ≡ true
      → map_get ids.attempt_id s.attempts ≡ some a
      → a.status ≡ settled
      → a.record_id ≡ none
      → ((b : PaymentAttempt) × (map_get ids.attempt_id
              (record_paid env now ids item a s).0.attempts
            ≡ some b)
          × (b.status ≡ failed)
          × (b.record_id ≡ none))
        × ((record_paid env now ids item a s).0.records ≡ s.records)
        × ¬ NoOrphan ids.attempt_id (record_item env now ids item a s).0
        × ((e : RecordError) × ((record_item env now ids item a s).1 ≡ inl (some e)))
  unfolding record_item record_paid create_record
  record_item_orphans now ids item a s clash there paid unlinked =
      let row = new_row env now ids.record_id item ids.attempt_id a in
      elim (List-cases (violations row s.records)) [
        | inl e ↦ absurd (ground (arith, content_violation row s.records e, clash))
        | inr (c, cs, e) ↦
            let same : (record_item env now ids item a s).0 ≡ s = ground arith in
            (
              (
                mark_not_recorded a,
                ground (
                  arith,
                  e,
                  update_attempt-same ids.attempt_id mark_not_recorded a s.attempts there,
                ),
                refl,
                unlinked,
              ),
              ground (arith, e),
              rw same (orphaned ids.attempt_id a s there paid unlinked),
              (
                constraint_error env (env.detail (env.reported c cs) row),
                rw (record_item, create_record, e),
              ),
            )
      ]

-- ===== src/V1/Records/Operations.antt =====
-- Every request for a record, single or in a batch, keeps the tables sound.
use res_ex_machina.Common.{
  ℕ, ◌≡◌, refl, ◌⊎◌, inl, inr, Bool-cases, List, false, [], ◌∷◌, none, Text, Option-cases, or_else,
  text_eq, map, map_get,
}
use res_ex_machina.Mcp.Write.{given}
use res_ex_machina.V1.Payments.{
  PaymentAttempt, PaymentEvidence, legacy, PaymentError, Settled, settled_as, refused_with,
  verify_and_settle, PaidRecord, PreCheckResult, duplicate_conflict, cached_response, proceed,
  pre_check,
}
use res_ex_machina.V1.Payments.Frame.{
  verify_and_settle-other, verify_and_settle-taken, verify_and_settle-settled,
}
use res_ex_machina.V1.Records.{
  CreateRecordInput, Store, Services, check_duplicates, verify_pog_signature, paid_record,
}
use res_ex_machina.V1.Records.Posting.{
  NewIds, Headers, evidence_of, legacy_hash, record_paid, pay_and_record, post_record,
}
use res_ex_machina.V1.Records.Batches.{record_item, pay_item, check_and_pay, process_record}
use res_ex_machina.V1.Records.Soundness.{IsSound, All-IsPaid_kept}
use res_ex_machina.V1.Records.Recording.{record_paid-IsSound}

pub Settled-cases :
    (r : Settled)
    → ((e : PaymentError) × (r ≡ refused_with e)) ⊎ ((a : PaymentAttempt) × (r ≡ settled_as a))
Settled-cases (refused_with e) = inl (e, refl)
Settled-cases (settled_as a) = inr (a, refl)

pub PreCheckResult-cases :
    (r : PreCheckResult)
    → (((id : Text) × (r ≡ duplicate_conflict id)) ⊎ ((p : PaidRecord) × (r ≡ cached_response p)))
      ⊎ (r ≡ proceed)
PreCheckResult-cases (duplicate_conflict id) = inl (inl (id, refl))
PreCheckResult-cases (cached_response p) = inl (inr (p, refl))
PreCheckResult-cases proceed = inr refl

module _ (env : Services) where
  open env use {fee_config, chain, facilitator}

  -- A payment either is refused, and keeps the records paid for, or goes on from a fresh attempt.
  payment-IsSound :
      (now : ℕ) (ids : NewIds) (input : CreateRecordInput) (evidence : PaymentEvidence) (s : Store)
      → IsSound s
      → let out =
          verify_and_settle fee_config now chain facilitator ids.attempt_id evidence
            input.pog_bundle.content_hash s.attempts in
        let s' : Store = record s { attempts = out.0 } in
        ((e : PaymentError) × (out.1 ≡ refused_with e) × IsSound s')
        ⊎ ((a : PaymentAttempt) × (out.1 ≡ settled_as a)
            × IsSound (record_paid env now ids input a s').0
            × IsSound (record_item env now ids input a s').0)
  payment-IsSound now ids input evidence s sound =
      let hash = input.pog_bundle.content_hash in
      let id = ids.attempt_id in
      let out = verify_and_settle fee_config now chain facilitator id evidence hash s.attempts in
      let keeps = λ (j : Text) (h : text_eq id j ≡ false).
        verify_and_settle-other fee_config now chain facilitator id j evidence hash s.attempts h in
      elim (Settled-cases out.1) [
        | inr (a, e) ↦
            let (free, there, paid, content) =
              verify_and_settle-settled fee_config now chain facilitator id evidence hash s.attempts
                a e in
            let both =
              record_paid-IsSound env now ids input a s.attempts (record s { attempts = out.0 })
                free keeps there paid content sound.paid sound.distinct in
            inr (a, e, both.0, both.1)
        | inl (e, refused) ↦ inl (
          e,
          refused,
          record {
            paid = elim (Option-cases (map_get id s.attempts)) [
              | inl free ↦ All-IsPaid_kept id s.attempts out.0 s.records free keeps sound.paid
              | inr (b, taken) ↦
                  rw
                    (verify_and_settle-taken fee_config now chain facilitator id evidence hash
                      s.attempts b taken)
                    sound.paid
            ];
            distinct = sound.distinct;
          },
        )
      ]

  pay_and_record-IsSound :
      (now : ℕ) (ids : NewIds) (input : CreateRecordInput) (evidence : PaymentEvidence) (s : Store)
      → IsSound s
      → IsSound (pay_and_record env now ids input evidence s).0
  unfolding pay_and_record
  pay_and_record-IsSound now ids input evidence s sound =
      let bundle = input.pog_bundle in
      elim (Option-cases
        (check_duplicates bundle.agent_wallet bundle.nonce (legacy_hash evidence) s.records)) [
          | inr (e, refused) ↦ rw (pay_and_record, refused) sound
          | inl fine ↦ elim (payment-IsSound now ids input evidence s sound) [
            | inr (a, e, single, item) ↦ rw (pay_and_record, fine, e) single
            | inl (e, refused, kept) ↦ rw (pay_and_record, fine, refused) kept
          ]
        ]

  pay_item-IsSound :
      (now : ℕ) (ids : NewIds) (item : CreateRecordInput) (s : Store)
      → IsSound s
      → IsSound (pay_item env now ids item s).0
  unfolding pay_item
  pay_item-IsSound now ids item s sound =
      elim (payment-IsSound now ids item (legacy (or_else item.fee_tx_hash [])) s sound) [
        | inr (a, e, single, done) ↦ rw (pay_item, e) done
        | inl (e, refused, kept) ↦ rw (pay_item, refused) kept
      ]

  pub post_record-IsSound :
      (now : ℕ) (ids : NewIds) (headers : Headers) (input : CreateRecordInput) (s : Store)
      → IsSound s
      → IsSound (post_record env now ids headers input s).0
  unfolding post_record
  post_record-IsSound now ids headers input s sound =
      elim (Option-cases (verify_pog_signature env input.pog_bundle)) [
        | inr (e, refused) ↦ rw (post_record, refused) sound
        | inl valid ↦
            elim (PreCheckResult-cases (
              pre_check input.pog_bundle.content_hash headers.payment_identifier
                (map paid_record s.records) s.attempts)) [
                  | inl (inl (id, e)) ↦ rw (post_record, valid, e) sound
                  | inl (inr (r, e)) ↦ rw (post_record, valid, e) sound
                  | inr e ↦ elim (Option-cases (evidence_of headers input)) [
                    | inl nothing ↦ rw (post_record, valid, e, nothing) sound
                    | inr (evidence, offered) ↦
                        rw (post_record, valid, e, offered)
                          (pay_and_record-IsSound now ids input evidence s sound)
                  ]
                ]
      ]

  check_and_pay-IsSound :
      (now : ℕ) (ids : NewIds) (item : CreateRecordInput) (s : Store)
      → IsSound s
      → IsSound (check_and_pay env now ids item s).0
  unfolding check_and_pay
  check_and_pay-IsSound now ids item s sound =
      elim (Option-cases (
        check_duplicates item.pog_bundle.agent_wallet item.pog_bundle.nonce item.fee_tx_hash
          s.records)) [
            | inr (e, refused) ↦ rw (check_and_pay, refused) sound
            | inl fine ↦ elim (Bool-cases (given item.fee_tx_hash)) [
              | inl offered ↦
                  rw (check_and_pay, fine, offered) (pay_item-IsSound now ids item s sound)
              | inr absent ↦ rw (check_and_pay, fine, absent) sound
            ]
          ]

  -- So does the work on an item of a batch.
  pub process_record-IsSound :
      (now : ℕ) (ids : NewIds) (item : CreateRecordInput) (s : Store)
      → IsSound s
      → IsSound (process_record env now ids item s).0
  unfolding process_record
  process_record-IsSound now ids item s sound =
      elim (Option-cases (verify_pog_signature env item.pog_bundle)) [
        | inr (e, refused) ↦ rw (process_record, refused) sound
        | inl valid ↦
            elim (PreCheckResult-cases (
              pre_check item.pog_bundle.content_hash none (map paid_record s.records) s.attempts)) [
                | inl (inl (id, e)) ↦ rw (process_record, valid, e) sound
                | inl (inr (r, e)) ↦
                    rw (process_record, valid, e) (check_and_pay-IsSound now ids item s sound)
                | inr e ↦ rw (process_record, valid, e) (check_and_pay-IsSound now ids item s sound)
              ]
      ]

-- A request for a single record, or the work on an item of a batch.
pub data Operation : Type 0 where
  posts : ℕ → NewIds → Headers → CreateRecordInput → Operation
  processes : ℕ → NewIds → CreateRecordInput → Operation

unfoldable pub perform : Services → List Operation → Store → Store
perform env [] s = s
perform env (posts now ids headers input ∷ ops) s =
    perform env ops (post_record env now ids headers input s).0
perform env (processes now ids item ∷ ops) s = perform env ops (process_record env now ids item s).0

-- Requests for single records and items of batches, in any number and order, each with nothing in
-- between and whatever it comes to, leave a sound store sound: each record is paid for by a settled
-- attempt for its content that names it, and no two records share an identifier, a content hash, a
-- wallet with a nonce, or the hash of a fee transaction as it is written.
pub perform-IsSound :
    (env : Services) (ops : List Operation) (s : Store) → IsSound s → IsSound (perform env ops s)
unfolding perform
perform-IsSound env [] s sound = sound
perform-IsSound env (posts now ids headers input ∷ ops) s sound =
    perform-IsSound env ops _ (post_record-IsSound env now ids headers input s sound)
perform-IsSound env (processes now ids item ∷ ops) s sound =
    perform-IsSound env ops _ (process_record-IsSound env now ids item s sound)

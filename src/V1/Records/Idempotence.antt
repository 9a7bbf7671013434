-- ===== src/V1/Records/Idempotence.antt =====
-- A request that made a record can be sent again: the answer is the record that is there.
use res_ex_machina.Common.{
  ℕ, ◌≡◌, refl, sym, ap, ◌∙◌, inl, inr, true, [], ◌∷◌, ◌++◌, List, Option, none, some, Text, arith,
  Option-cases, List-cases, text_eq_refl, text_eq, map, map_get, find_first, find_first-append,
  or_else,
}
use res_ex_machina.Mcp.Write.{given}
use res_ex_machina.V1.Payments.{
  PaymentAttempt, PaymentEvidence, x402, Attempts, settle, new_attempt, verify_and_settle,
  link_record, PaidRecord, cached_response, proceed, pre_check, is_paid_with, identifier_of,
}
use res_ex_machina.V1.Payments.Frame.{update_attempt-same, verify_and_settle-settled}
use res_ex_machina.V1.Payments.Settlement.{attempt_recorded, new_attempt-identifier}
use res_ex_machina.V1.Records.{
  violations, RecordRow, CreateRecordInput, CreateRecordResult, Store, Services, new_row,
  check_duplicates, verify_pog_signature, paid_record, create_record,
}
use res_ex_machina.V1.Records.Posting.{
  NewIds, Headers, cached, created, evidence_of, legacy_hash, record_paid, pay_and_record,
  post_record,
}
use res_ex_machina.V1.Records.Operations.{Settled-cases, PreCheckResult-cases}

-- The row that a record with this content hash and identifier has in the table, paid for with `i`.
abbrev PaidWith : Text → Text → CreateRecordResult → Store → Type 0
PaidWith content_hash i r s =
    (id : Text) × (a : PaymentAttempt) × (find_first
        (λ (p : PaidRecord). text_eq p.content_hash content_hash) (map paid_record s.records)
      ≡ some (record {
        record_id = r.record_id;
        content_hash = content_hash;
        payment_attempt_id = some id;
      }))
    × (map_get id s.attempts ≡ some a)
    × (a.payment_identifier ≡ i)

map-append :
    (rows : List RecordRow) (row : RecordRow)
    → map paid_record (rows ++ row ∷ []) ≡ map paid_record rows ++ paid_record row ∷ []
map-append [] row = refl
map-append (r ∷ rows) row = ap (λ x. paid_record r ∷ x) (map-append rows row)

-- Content that may be recorded has no row yet.
pre_check-proceed :
    (content_hash : Text) (i : Option Text) (rows : List PaidRecord) (db : Attempts)
    → pre_check content_hash i rows db ≡ proceed
    → find_first (λ (p : PaidRecord). text_eq p.content_hash content_hash) rows ≡ none
unfolding pre_check
pre_check-proceed content_hash i rows db h = ground arith

pre_check-cached :
    (content_hash : Text) (c : ℕ) (i : Text) (rows : List PaidRecord) (db : Attempts)
    (p : PaidRecord) (id : Text) (a : PaymentAttempt)
    → find_first (λ (p : PaidRecord). text_eq p.content_hash content_hash) rows ≡ some p
    → p.payment_attempt_id ≡ some id
    → map_get id db ≡ some a
    → a.payment_identifier ≡ c ∷ i
    → pre_check content_hash (some (c ∷ i)) rows db ≡ cached_response p
unfolding pre_check is_paid_with
pre_check-cached content_hash c i rows db p id a found named there same =
    ground (arith, text_eq_refl (c ∷ i))

settled_identifier :
    (hash : Text) (evidence : PaymentEvidence) (n : ℕ)
    → (settle n (new_attempt hash evidence)).payment_identifier ≡ identifier_of evidence
settled_identifier hash evidence n = new_attempt-identifier hash evidence

module _ (env : Services) where
  open env use {fee_config, chain, facilitator}

  record_paid-PaidWith :
      (now : ℕ) (ids : NewIds) (input : CreateRecordInput) (a : PaymentAttempt) (s : Store)
      (r : CreateRecordResult)
      → let hash = input.pog_bundle.content_hash in
        map_get ids.attempt_id s.attempts ≡ some a
        → find_first (λ (p : PaidRecord). text_eq p.content_hash hash) (map paid_record s.records)
          ≡ none
        → (record_paid env now ids input a s).1 ≡ created r
        → PaidWith hash a.payment_identifier r (record_paid env now ids input a s).0
  unfolding record_paid create_record link_record
  record_paid-PaidWith now ids input a s r there fresh made =
      let row = new_row env now ids.record_id input ids.attempt_id a in
      let id = ids.attempt_id in
      let linked = λ (b : PaymentAttempt). record b { record_id = some ids.record_id } in
      let hash = input.pog_bundle.content_hash in
      elim (List-cases (violations row s.records)) [
        | inr (c, cs, e) ↦ absurd (ground arith)
        | inl e ↦
            let named : r.record_id ≡ ids.record_id = ground arith in
            let appended =
              find_first-append (λ (p : PaidRecord). text_eq p.content_hash hash)
                (map paid_record s.records) (paid_record row) fresh (text_eq_refl hash) in
            (
              id,
              linked a,
              ground (arith, map-append s.records row, appended),
              ground (arith, update_attempt-same id linked a s.attempts there),
              refl,
            )
      ]

  pay_and_record-PaidWith :
      (now : ℕ) (ids : NewIds) (input : CreateRecordInput) (evidence : PaymentEvidence) (s : Store)
      (r : CreateRecordResult)
      → let hash = input.pog_bundle.content_hash in
        find_first (λ (p : PaidRecord). text_eq p.content_hash hash) (map paid_record s.records)
          ≡ none
        → (pay_and_record env now ids input evidence s).1 ≡ created r
        → PaidWith hash (identifier_of evidence) r (pay_and_record env now ids input evidence s).0
  unfolding pay_and_record
  pay_and_record-PaidWith now ids input evidence s r fresh made =
      let bundle = input.pog_bundle in
      let out =
        verify_and_settle fee_config now chain facilitator ids.attempt_id evidence
          bundle.content_hash s.attempts in
      elim (Option-cases
        (check_duplicates bundle.agent_wallet bundle.nonce (legacy_hash evidence) s.records)) [
          | inr (e, refused) ↦ absurd (ground arith)
          | inl fine ↦ elim (Settled-cases out.1) [
            | inl (e, refused) ↦ absurd (ground arith)
            | inr (a, e) ↦
                let (free, there, paid, content) =
                  verify_and_settle-settled fee_config now chain facilitator ids.attempt_id evidence
                    bundle.content_hash s.attempts a e in
                let same : a.payment_identifier ≡ identifier_of evidence =
                  elim (attempt_recorded fee_config now chain facilitator ids.attempt_id evidence
                    bundle.content_hash s.attempts) [
                      | inl refused ↦ absurd (ground arith)
                      | inr (inr (e', p, there', out')) ↦ absurd (ground arith)
                      | inr (inl (n, p, there', out')) ↦
                          ground (arith, settled_identifier bundle.content_hash evidence n)
                    ] in
                rw (pay_and_record, fine, e)
                  (rw (← same) (
                    record_paid-PaidWith now ids input a (record s { attempts = out.0 }) r there
                      fresh (ground arith)))
          ]
        ]

  answered_again :
      (later : ℕ) (ids : NewIds) (headers : Headers) (input : CreateRecordInput) (s : Store)
      (r : CreateRecordResult) (c : ℕ) (i : Text)
      → headers.payment_identifier ≡ some (c ∷ i)
      → verify_pog_signature env input.pog_bundle ≡ none
      → PaidWith input.pog_bundle.content_hash (c ∷ i) r s
      → (p : PaidRecord) × (p.record_id ≡ r.record_id)
        × (p.content_hash ≡ input.pog_bundle.content_hash)
        × (post_record env later ids headers input s ≡ (s, cached p))
  unfolding post_record
  answered_again later ids headers input s r c i named valid (id, a, found, there, paid_with) =
      let hash = input.pog_bundle.content_hash in
      let p : PaidRecord = record {
        record_id = r.record_id;
        content_hash = hash;
        payment_attempt_id = some id;
      } in
      let again : pre_check hash headers.payment_identifier (map paid_record s.records) s.attempts
          ≡ cached_response p =
        rw named (
          pre_check-cached hash c i (map paid_record s.records) s.attempts p id a found refl there
            paid_with) in
      (p, refl, refl, rw (post_record, valid, again))

  -- A request with an x402 payment under an identifier that is not empty, which made a record, can
  -- be sent again: it is answered with this record, and nothing changes, so nothing is paid twice.
  pub post_record_again :
      (now later : ℕ) (ids ids' : NewIds) (headers : Headers) (input : CreateRecordInput)
      (s : Store) (r : CreateRecordResult) (c : ℕ) (i : Text)
      → headers.payment_identifier ≡ some (c ∷ i)
      → given headers.payment_signature ≡ true
      → (post_record env now ids headers input s).1 ≡ created r
      → let s' = (post_record env now ids headers input s).0 in
        (p : PaidRecord) × (p.record_id ≡ r.record_id)
        × (p.content_hash ≡ input.pog_bundle.content_hash)
        × (post_record env later ids' headers input s' ≡ (s', cached p))
  unfolding post_record evidence_of
  post_record_again now later ids ids' headers input s r c i named signed made =
      let bundle = input.pog_bundle in
      elim (Option-cases (verify_pog_signature env bundle)) [
        | inr (e, refused) ↦ absurd (ground arith)
        | inl valid ↦
            elim (PreCheckResult-cases (
              pre_check bundle.content_hash headers.payment_identifier (map paid_record s.records)
                s.attempts)) [
                  | inl (inl (id, e)) ↦ absurd (ground arith)
                  | inl (inr (q, e)) ↦ absurd (ground arith)
                  | inr e ↦
                      let evidence = x402 (c ∷ i) (or_else headers.payment_signature []) in
                      let after = pay_and_record env now ids input evidence s in
                      let same : post_record env now ids headers input s ≡ after = ground arith in
                      let kept : PaidWith bundle.content_hash (c ∷ i) r
                          (post_record env now ids headers input s).0 =
                        rw same (
                          pay_and_record-PaidWith now ids input evidence s r
                            (pre_check-proceed bundle.content_hash headers.payment_identifier
                              (map paid_record s.records) s.attempts e)
                            (ap (λ o. o.1) (sym same) ∙ made)) in
                      answered_again later ids' headers input
                        (post_record env now ids headers input s).0 r c i named valid kept
                ]
      ]

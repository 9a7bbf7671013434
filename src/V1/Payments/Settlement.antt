-- ===== src/V1/Payments/Settlement.antt =====
-- A payment is taken once, and what a settled payment has paid.
use res_ex_machina.Common.{
  is_some, ℕ, ◌+◌, ◌≤◌, ◌≡◌, refl, sym, ap, ◌∙◌, ◌⊎◌, inl, inr, true, false, [], ◌∷◌, none, some,
  Text, arith, Option-cases, Bool-cases, text_eq, text_eq_refl, same_hex, map_get, map_set,
  map_get-map_set,
}
use res_ex_machina.V1.Payments.{
  Transaction, FeeReceipt, FeeConfig, FeeAnswers, FeeVerificationResult, PaymentError,
  fee_tx_reused, insert_failed, verified, verify_fee, PaymentAttempt, Attempts, PaymentEvidence,
  X402Answers, legacy, x402, identifier_of, new_attempt, settled_as, refused_with, update_attempt,
  uses, settle, fail_with, pays, verify_and_settle,
}

-- A fee is verified only by a successful transaction of at least the minimum, to the receiver of
-- fees, in a block that is not older than the maximal age; the amount is what was sent.
pub verify_fee_sound :
    (cfg : FeeConfig) (now : ℕ) (answers : FeeAnswers) (r : FeeVerificationResult)
    → verify_fee cfg now answers ≡ verified r
    → (tx : Transaction) × (receipt : FeeReceipt) × (answers.fetched ≡ some (tx, receipt))
      × (receipt.success ≡ true)
      × (cfg.min_fee_wei ≤ tx.value)
      × (r.amount ≡ tx.value)
      × (tx.to_address ≡ some r.recipient)
      × (same_hex r.recipient cfg.fee_receiver_address ≡ true)
      × (now ≤ r.confirmed_at + cfg.fee_tx_max_age_ms)
unfolding verify_fee
verify_fee_sound cfg now answers r h = elim (Option-cases answers.fetched) [
  | inl e ↦ absurd (ground arith)
  | inr ((tx, receipt), e) ↦ elim (Option-cases tx.to_address) [
    | inl e' ↦ absurd (ground arith)
    | inr (recipient, e') ↦ elim (Option-cases answers.block_timestamp) [
      | inl e'' ↦ absurd (ground arith)
      | inr (t, e'') ↦ (
        tx,
        receipt,
        e,
        ground arith,
        ground arith,
        ground arith,
        ground arith,
        ground arith,
        ground arith,
      )
    ]
  ]
]

uses-map_set :
    (id identifier : Text) (a : PaymentAttempt) (db : Attempts)
    → a.payment_identifier ≡ identifier
    → uses identifier (map_set id a db) ≡ true
unfolding map_set
uses-map_set id identifier a [] e = ground (arith, text_eq_refl identifier)
uses-map_set id identifier a ((j, b) ∷ db) e =
    ground (arith, text_eq_refl identifier, uses-map_set id identifier a db)

uses-update_attempt :
    (id identifier : Text) (change : PaymentAttempt → PaymentAttempt) (a : PaymentAttempt)
    (db : Attempts)
    → a.payment_identifier ≡ identifier
    → (change a).payment_identifier ≡ identifier
    → uses identifier (update_attempt id change (map_set id a db)) ≡ true
unfolding update_attempt
uses-update_attempt id identifier change a db e k = ground (
  arith,
  map_get-map_set id id a db,
  text_eq_refl id,
  uses-map_set id identifier (change a) (map_set id a db),
)

stored :
    (id : Text) (change : PaymentAttempt → PaymentAttempt) (a : PaymentAttempt) (db : Attempts)
    → map_get id (update_attempt id change (map_set id a db)) ≡ some (change a)
unfolding update_attempt
stored id change a db = ground (
  arith,
  map_get-map_set id id a db,
  text_eq_refl id,
  map_get-map_set id id (change a) (map_set id a db),
)

other_free :
    (id id' : Text) (change : PaymentAttempt → PaymentAttempt) (a : PaymentAttempt) (db : Attempts)
    → text_eq id id' ≡ false
    → map_get id' db ≡ none
    → map_get id' (update_attempt id change (map_set id a db)) ≡ none
unfolding update_attempt
other_free id id' change a db apart free = ground (
  arith,
  map_get-map_set id id a db,
  text_eq_refl id,
  map_get-map_set id id' (change a) (map_set id a db),
  map_get-map_set id id' a db,
)

map_set_unused :
    (id t : Text) (a : PaymentAttempt) (db : Attempts)
    → text_eq a.payment_identifier t ≡ false
    → uses t db ≡ false
    → uses t (map_set id a db) ≡ false
unfolding map_set
map_set_unused id t a [] e h = ground arith
map_set_unused id t a ((j, b) ∷ db) e h = ground (arith, map_set_unused id t a db e)

update_unused :
    (id t : Text) (change : PaymentAttempt → PaymentAttempt) (a : PaymentAttempt) (db : Attempts)
    → text_eq a.payment_identifier t ≡ false
    → text_eq (change a).payment_identifier t ≡ false
    → uses t db ≡ false
    → uses t (update_attempt id change (map_set id a db)) ≡ false
unfolding update_attempt
update_unused id t change a db e k h = ground (
  arith,
  map_get-map_set id id a db,
  text_eq_refl id,
  map_set_unused id t (change a) (map_set id a db) k (map_set_unused id t a db e h),
)

pub new_attempt-identifier :
    (content_hash : Text) (evidence : PaymentEvidence)
    → (new_attempt content_hash evidence).payment_identifier ≡ identifier_of evidence
new_attempt-identifier content_hash (legacy t) = refl
new_attempt-identifier content_hash (x402 i s) = refl

Sum-cases : (s : PaymentError ⊎ ℕ) → ((e : PaymentError) × (s ≡ inl e)) ⊎ ((n : ℕ) × (s ≡ inr n))
Sum-cases (inl e) = inl (e, refl)
Sum-cases (inr n) = inr (n, refl)

module _ (cfg : FeeConfig) where
  reused :
      (now : ℕ) (chain : Text → FeeAnswers) (facilitator : Text → X402Answers) (id : Text)
      (evidence : PaymentEvidence) (hash : Text) (db : Attempts)
      → uses (identifier_of evidence) db ≡ true
      → verify_and_settle cfg now chain facilitator id evidence hash db
        ≡ (db, refused_with fee_tx_reused)
  unfolding verify_and_settle
  reused now chain facilitator id evidence hash db h = ground arith

  taken :
      (now : ℕ) (chain : Text → FeeAnswers) (facilitator : Text → X402Answers) (id : Text)
      (evidence : PaymentEvidence) (hash : Text) (db : Attempts)
      → map_get id db ≡ none
      → uses
          (identifier_of evidence)
          (verify_and_settle cfg now chain facilitator id evidence hash db).0
        ≡ true
  unfolding verify_and_settle
  taken now chain facilitator id evidence hash db free =
      let a = new_attempt hash evidence in
      let e = new_attempt-identifier hash evidence in
      elim (Bool-cases (uses (identifier_of evidence) db)) [
        | inl used ↦ ground arith
        | inr fresh ↦ elim (Sum-cases (pays cfg now chain facilitator evidence)) [
          | inl (err, p) ↦
              ground
                (arith, uses-update_attempt id (identifier_of evidence) (fail_with err) a db e e)
          | inr (n, p) ↦
              ground (arith, uses-update_attempt id (identifier_of evidence) (settle n) a db e e)
        ]
      ]

  -- A payment is refused before anything is stored, since its identifier is used or the id is taken,
  -- or its attempt is in the table under its id: settled with the amount that the evidence pays, and
  -- this attempt is the result, or failed with the error, and the error is thrown.
  pub attempt_recorded :
      (now : ℕ) (chain : Text → FeeAnswers) (facilitator : Text → X402Answers) (id : Text)
      (evidence : PaymentEvidence) (hash : Text) (db : Attempts)
      → let (db', out) = verify_and_settle cfg now chain facilitator id evidence hash db in
        let paid = pays cfg now chain facilitator evidence in
        let a = new_attempt hash evidence in
        ((db' ≡ db) × ((out ≡ refused_with fee_tx_reused) ⊎ (out ≡ refused_with insert_failed)))
        ⊎ (((amount : ℕ) × (paid ≡ inr amount)
              × (map_get id db' ≡ some (settle amount a))
              × (out ≡ settled_as (settle amount a)))
            ⊎ ((e : PaymentError) × (paid ≡ inl e)
                × (map_get id db' ≡ some (fail_with e a))
                × (out ≡ refused_with e)))
  unfolding verify_and_settle
  attempt_recorded now chain facilitator id evidence hash db =
      let a = new_attempt hash evidence in
      elim (Bool-cases (uses (identifier_of evidence) db)) [
        | inl used ↦ inl (ground arith)
        | inr fresh ↦ elim (Bool-cases (is_some (map_get id db))) [
          | inl taken' ↦ inl (ground arith)
          | inr free ↦ elim (Sum-cases (pays cfg now chain facilitator evidence)) [
            | inl (e, p) ↦
                inr (inr (e, p, ground (arith, stored id (fail_with e) a db), ground arith))
            | inr (n, p) ↦ inr (inl (n, p, ground (arith, stored id (settle n) a db), ground arith))
          ]
        ]
      ]

  -- After a payment was tried under an unused id, whether it settled or failed, a payment with the
  -- same identifier is refused as reused, for any content, and the table does not change.
  pub payment_taken_once :
      (now later : ℕ) (chain chain' : Text → FeeAnswers)
      (facilitator facilitator' : Text → X402Answers) (id id' : Text)
      (evidence evidence' : PaymentEvidence) (hash hash' : Text) (db : Attempts)
      → map_get id db ≡ none
      → identifier_of evidence ≡ identifier_of evidence'
      → let db' = (verify_and_settle cfg now chain facilitator id evidence hash db).0 in
        verify_and_settle cfg later chain' facilitator' id' evidence' hash' db'
        ≡ (db', refused_with fee_tx_reused)
  payment_taken_once now later chain chain' facilitator facilitator' id id' evidence evidence' hash
        hash' db free same =
      let used = taken now chain facilitator id evidence hash db free in
      reused later chain' facilitator' id' evidence' hash'
        (verify_and_settle cfg now chain facilitator id evidence hash db).0 (rw (sym same) used)

  settles :
      (now : ℕ) (chain : Text → FeeAnswers) (facilitator : Text → X402Answers) (id t hash : Text)
      (db : Attempts) (r : FeeVerificationResult)
      → map_get id db ≡ none
      → uses t db ≡ false
      → verify_fee cfg now (chain t) ≡ verified r
      → verify_and_settle cfg now chain facilitator id (legacy t) hash db ≡ (
        update_attempt id (settle r.amount) (map_set id (new_attempt hash (legacy t)) db),
        settled_as (settle r.amount (new_attempt hash (legacy t))),
      )
  unfolding verify_and_settle
  settles now chain facilitator id t hash db r free unused v = ground arith

  -- One transaction whose fee is verified settles two payments, under two new ids, when its hash is
  -- written in two ways that differ in case only and that the table did not hold: the chain answers
  -- both alike and the table takes them for different identifiers.
  pub fee_settles_twice :
      (now : ℕ) (chain : Text → FeeAnswers) (facilitator : Text → X402Answers)
      (id id' t t' hash hash' : Text) (db : Attempts) (r : FeeVerificationResult)
      → verify_fee cfg now (chain t) ≡ verified r
      → chain t' ≡ chain t
      → same_hex t t' ≡ true
      → text_eq t t' ≡ false
      → text_eq id id' ≡ false
      → map_get id db ≡ none
      → map_get id' db ≡ none
      → uses t db ≡ false
      → uses t' db ≡ false
      → let (db', first) = verify_and_settle cfg now chain facilitator id (legacy t) hash db in
        let (db'', second) =
          verify_and_settle cfg now chain facilitator id' (legacy t') hash' db' in
        (first ≡ settled_as (settle r.amount (new_attempt hash (legacy t))))
        × (second ≡ settled_as (settle r.amount (new_attempt hash' (legacy t'))))
  fee_settles_twice now chain facilitator id id' t t' hash hash' db r v same alike apart ids free
        free' unused unused' =
      let a = new_attempt hash (legacy t) in
      let db' = update_attempt id (settle r.amount) (map_set id a db) in
      let e = settles now chain facilitator id t hash db r free unused v in
      let e' =
        settles now chain facilitator id' t' hash' db' r
          (other_free id id' (settle r.amount) a db ids free')
          (update_unused id t' (settle r.amount) a db apart apart unused')
          (ap (verify_fee cfg now) same ∙ v) in
      (ap (λ p. p.1) e, rw e (ap (λ p. p.1) e'))

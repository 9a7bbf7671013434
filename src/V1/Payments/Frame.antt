-- ===== src/V1/Payments/Frame.antt =====
-- What a payment leaves alone: the attempts under other identifiers.
use res_ex_machina.Common.{
  ℕ, ◌≡◌, refl, ◌∙◌, inl, inr, false, none, some, Text, arith, Bool-cases, Option-cases, Sum-cases,
  is_some, text_eq, text_eq_refl, map_get, map_set, map_get-map_set,
}
use res_ex_machina.V1.Payments.{
  PaymentAttempt, PaymentEvidence, settled, Attempts, FeeConfig, FeeAnswers, X402Answers,
  settled_as, uses, identifier_of, pays, new_attempt, settle, fail_with, update_attempt,
  verify_and_settle,
}
use res_ex_machina.V1.Payments.Settlement.{attempt_recorded}

pub update_attempt-other :
    (id j : Text) (change : PaymentAttempt → PaymentAttempt) (db : Attempts)
    → text_eq id j ≡ false
    → map_get j (update_attempt id change db) ≡ map_get j db
unfolding update_attempt
update_attempt-other id j change db h = elim (Option-cases (map_get id db)) [
  | inl absent ↦ rw (update_attempt, absent)
  | inr (a, found) ↦ rw (update_attempt, found) (map_get-map_set id j (change a) db ∙ rw h)
]

pub update_attempt-same :
    (id : Text) (change : PaymentAttempt → PaymentAttempt) (a : PaymentAttempt) (db : Attempts)
    → map_get id db ≡ some a
    → map_get id (update_attempt id change db) ≡ some (change a)
unfolding update_attempt
update_attempt-same id change a db h =
    rw (update_attempt, h) (map_get-map_set id id (change a) db ∙ rw (text_eq_refl id))

new_attempt-content_hash :
    (hash : Text) (evidence : PaymentEvidence) → (new_attempt hash evidence).content_hash ≡ hash
new_attempt-content_hash hash (PaymentEvidence.legacy t) = refl
new_attempt-content_hash hash (PaymentEvidence.x402 i s) = refl

module _ (cfg : FeeConfig) where
  pub verify_and_settle-other :
      (now : ℕ) (chain : Text → FeeAnswers) (facilitator : Text → X402Answers) (id j : Text)
      (evidence : PaymentEvidence) (hash : Text) (db : Attempts)
      → text_eq id j ≡ false
      → map_get j (verify_and_settle cfg now chain facilitator id evidence hash db).0 ≡ map_get j db
  unfolding verify_and_settle
  verify_and_settle-other now chain facilitator id j evidence hash db h =
      let a = new_attempt hash evidence in
      let db' = map_set id a db in
      let same : map_get j db' ≡ map_get j db = map_get-map_set id j a db ∙ rw h in
      elim (Bool-cases (uses (identifier_of evidence) db)) [
        | inl used ↦ rw used
        | inr fresh ↦ elim (Bool-cases (is_some (map_get id db))) [
          | inl taken ↦ rw (fresh, taken)
          | inr free ↦ elim (Sum-cases (pays cfg now chain facilitator evidence)) [
            | inl (e, p) ↦
                rw (fresh, free, p) (update_attempt-other id j (fail_with e) db' h ∙ same)
            | inr (n, p) ↦ rw (fresh, free, p) (update_attempt-other id j (settle n) db' h ∙ same)
          ]
        ]
      ]

  -- A settled attempt is in the table under its identifier, which was free before, for the content.
  pub verify_and_settle-settled :
      (now : ℕ) (chain : Text → FeeAnswers) (facilitator : Text → X402Answers) (id : Text)
      (evidence : PaymentEvidence) (hash : Text) (db : Attempts) (a : PaymentAttempt)
      → (verify_and_settle cfg now chain facilitator id evidence hash db).1 ≡ settled_as a
      → (map_get id db ≡ none)
        × (map_get id (verify_and_settle cfg now chain facilitator id evidence hash db).0 ≡ some a)
        × (a.status ≡ settled)
        × (a.content_hash ≡ hash)
  unfolding verify_and_settle
  verify_and_settle-settled now chain facilitator id evidence hash db a h =
      elim (attempt_recorded cfg now chain facilitator id evidence hash db) [
        | inl refused ↦ absurd (ground arith)
        | inr (inr (e, p, there, out)) ↦ absurd (ground arith)
        | inr (inl (n, p, there, out)) ↦ (
          ground arith,
          ground arith,
          ground arith,
          ground (arith, new_attempt-content_hash hash evidence),
        )
      ]

  -- An identifier that is taken stops the payment before it is stored.
  pub verify_and_settle-taken :
      (now : ℕ) (chain : Text → FeeAnswers) (facilitator : Text → X402Answers) (id : Text)
      (evidence : PaymentEvidence) (hash : Text) (db : Attempts) (a : PaymentAttempt)
      → map_get id db ≡ some a
      → (verify_and_settle cfg now chain facilitator id evidence hash db).0 ≡ db
  unfolding verify_and_settle
  verify_and_settle-taken now chain facilitator id evidence hash db a h = ground arith

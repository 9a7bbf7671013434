-- ===== src/V1/Records/Soundness.antt =====
-- The table of records stays sound: each record is paid for by a settled attempt that names it, and
-- no two records share a unique column.
use res_ex_machina.Common.{
  ◌≡◌, refl, ◌∙◌, inl, inr, Bool, false, ◌||◌, List, [], ◌∷◌, ◌++◌, none, some, Text, arith,
  Bool-cases, text_eq, text_eq_iff, All, any_of, map_get, select-none,
}
use res_ex_machina.V1.Payments.{PaymentAttempt, settled, Attempts}
use res_ex_machina.V1.Records.{
  RecordRow, clashes, violations, record_id_key, content_hash_key, wallet_nonce_key,
  fee_tx_hash_key, Store,
}

-- The attempt that a record names is settled, for its content, and names the record.
pub record IsPaid (attempts : Attempts) (r : RecordRow) : Type 0 where
  pub attempt_id : Text
  pub attempt : PaymentAttempt
  pub named : r.payment_attempt_id ≡ some attempt_id
  pub there : map_get attempt_id attempts ≡ some attempt
  pub paid : attempt.status ≡ settled
  pub content : attempt.content_hash ≡ r.content_hash
  pub linked : attempt.record_id ≡ some r.record_id

-- Whether two rows clash on some constraint.
abbrev pub clash : RecordRow → RecordRow → Bool
clash a b =
    clashes record_id_key a b
    || clashes content_hash_key a b
    || clashes wallet_nonce_key a b
    || clashes fee_tx_hash_key a b

abbrev pub Distinct : List RecordRow → Type 0
Distinct [] = Unit
Distinct (r ∷ rows) = (any_of (clash r) rows ≡ false) × Distinct rows

pub record IsSound (s : Store) : Type 0 where
  pub paid : All (IsPaid s.attempts) s.records
  pub distinct : Distinct s.records

any_of-concat :
    (p : RecordRow → Bool) (rows : List RecordRow) (x : RecordRow)
    → any_of p rows ≡ false
    → p x ≡ false
    → any_of p (rows ++ x ∷ []) ≡ false
any_of-concat p [] x h e = ground arith
any_of-concat p (r ∷ rows) x h e = ground (arith, any_of-concat p rows x)

pub Distinct-concat :
    (rows : List RecordRow) (x : RecordRow)
    → Distinct rows
    → any_of (λ r. clash r x) rows ≡ false
    → Distinct (rows ++ x ∷ [])
Distinct-concat [] x d h = (refl, tt)
Distinct-concat (r ∷ rows) x (e, d) h =
    (any_of-concat (clash r) rows x e (ground arith), Distinct-concat rows x d (ground arith))

-- An insertion that violates nothing clashes with no row.
pub violations-none :
    (x : RecordRow) (rows : List RecordRow)
    → violations x rows ≡ []
    → any_of (λ r. clash r x) rows ≡ false
unfolding violations
violations-none x rows h =
    let none_of =
      select-none (λ c. any_of (λ r. clashes c r x) rows)
        (record_id_key ∷ content_hash_key ∷ wallet_nonce_key ∷ fee_tx_hash_key ∷ []) h in
    or_of rows none_of.0 none_of.1.0 none_of.1.1.0 none_of.1.1.1.0
  where
    or_of :
        (rs : List RecordRow)
        → any_of (λ r. clashes record_id_key r x) rs ≡ false
        → any_of (λ r. clashes content_hash_key r x) rs ≡ false
        → any_of (λ r. clashes wallet_nonce_key r x) rs ≡ false
        → any_of (λ r. clashes fee_tx_hash_key r x) rs ≡ false
        → any_of (λ r. clash r x) rs ≡ false
    or_of [] a b c d = refl
    or_of (r ∷ rs) a b c d = ground (arith, or_of rs)

-- The attempts under other identifiers than `id` are kept.
abbrev pub Keeps : Text → Attempts → Attempts → Type 0
Keeps id db db' = (j : Text) → text_eq id j ≡ false → map_get j db' ≡ map_get j db

-- The attempt of a record is under another identifier than one that is free, so it is kept.
pub All-IsPaid_kept :
    (id : Text) (db db' : Attempts) (rows : List RecordRow)
    → map_get id db ≡ none
    → Keeps id db db'
    → All (IsPaid db) rows
    → All (IsPaid db') rows
All-IsPaid_kept id db db' [] free keeps h = tt
All-IsPaid_kept id db db' (r ∷ rows) free keeps (p, h) =
    let apart : text_eq id p.attempt_id ≡ false = elim (Bool-cases (text_eq id p.attempt_id)) [
      | inl same ↦ absurd (ground (arith, (text_eq_iff id p.attempt_id).0 same, p.there, free))
      | inr other ↦ other
    ] in
    (
      record {
        attempt_id = p.attempt_id;
        attempt = p.attempt;
        named = p.named;
        there = keeps p.attempt_id apart ∙ p.there;
        paid = p.paid;
        content = p.content;
        linked = p.linked;
      },
      All-IsPaid_kept id db db' rows free keeps h,
    )

-- ===== src/V2/Anchor/Resend.antt =====
-- When an attempt sends a transaction, and what stands behind a row that it calls anchored.
use res_ex_machina.Common.{
  ℕ, ◌≡◌, refl, sym, ap, ◌∙◌, ◌⊎◌, inl, inr, true, Option, none, some, Text, arith, Option-cases,
  find_first, find_first-holds,
}
use res_ex_machina.V2.Store.{DbDeclaration, Db, AnchorLog, claim_for_anchoring}
use res_ex_machina.V2.Anchor.{
  Log, Receipt, Answers, AnchorDeps, anchored, Attempt, found, is_anchor_log, find_anchor_log,
  attempt_failed, send_and_wait, check_and_send, check_previous, anchor_declaration,
}

-- A successful receipt with a log of this contract for this digest, at the place that is recorded.
abbrev pub IsEvidence : AnchorDeps → DbDeclaration → Option Receipt → AnchorLog → Type 0
IsEvidence deps row receipt a =
    (r : Receipt) × (l : Log) × (receipt ≡ some r)
    × (r.success ≡ true)
    × (find_first (is_anchor_log deps row.contract row.digest) r.logs ≡ some l)
    × (is_anchor_log deps row.contract row.digest l ≡ true)
    × (l.log_index ≡ some a.log_index)
    × (r.block_number ≡ a.block)

module _ (deps : AnchorDeps) (row : DbDeclaration) where
  find_anchor_log-IsEvidence :
      (receipt : Option Receipt) (time : Option ℕ) (a : AnchorLog)
      → find_anchor_log deps receipt time row.contract row.digest ≡ found a
      → IsEvidence deps row receipt a
  unfolding find_anchor_log
  find_anchor_log-IsEvidence none time a e = cc
  find_anchor_log-IsEvidence (some r) time a e =
      elim (Option-cases (find_first (is_anchor_log deps row.contract row.digest) r.logs)) [
        | inl missing ↦ absurd (ground arith)
        | inr (l, seen) ↦ (
          r,
          l,
          refl,
          ground arith,
          seen,
          find_first-holds (is_anchor_log deps row.contract row.digest) r.logs l seen,
          ground arith,
          ground arith,
        )
      ]

  send_and_wait-evidence :
      (answers : Answers) (now : ℕ) (id : Text) (db : Db) (tx : Text) (a : AnchorLog)
      → (send_and_wait deps answers now id row db).outcome ≡ anchored tx a
      → ((send_and_wait deps answers now id row db).sent ≡ some tx)
        × (find_anchor_log deps answers.receipt answers.block_time row.contract row.digest
            ≡ found a)
  unfolding send_and_wait attempt_failed
  send_and_wait-evidence answers now id db tx a e = ground arith

  check_and_send-evidence :
      (answers : Answers) (now : ℕ) (id : Text) (db : Db) (tx : Text) (a : AnchorLog)
      → (check_and_send deps answers now id row db).outcome ≡ anchored tx a
      → ((check_and_send deps answers now id row db).sent ≡ some tx)
        × (find_anchor_log deps answers.receipt answers.block_time row.contract row.digest
            ≡ found a)
  unfolding check_and_send attempt_failed
  check_and_send-evidence answers now id db tx a e =
      ground (arith, send_and_wait-evidence answers now id db tx a)

  previous-evidence :
      (previous : Option Text) (answers : Answers) (now : ℕ) (id : Text) (db : Db) (tx : Text)
      (a : AnchorLog)
      → (check_previous deps previous answers now id row db).outcome ≡ anchored tx a
      → ((previous ≡ some tx)
          × ((check_previous deps previous answers now id row db).sent ≡ none)
          × (find_anchor_log deps answers.previous_receipt answers.previous_block_time row.contract
                row.digest
              ≡ found a))
        ⊎ (((check_previous deps previous answers now id row db).sent ≡ some tx)
            × (find_anchor_log deps answers.receipt answers.block_time row.contract row.digest
                ≡ found a))
  unfolding check_previous
  previous-evidence none answers now id db tx a e =
      inr (check_and_send-evidence answers now id db tx a e)
  previous-evidence (some old) answers now id db tx a e =
      ground (arith, check_and_send-evidence answers now id db tx a)

-- An attempt on a claimed row that calls it anchored has a successful receipt with a log of the
-- row's contract for the row's digest, at the place recorded: the receipt of the transaction that the
-- row named before, and then nothing was sent, or that of the one transaction that was sent.
pub anchored-IsEvidence :
    (deps : AnchorDeps) (answers : Answers) (now : ℕ) (id : Text) (db : Db) (row : DbDeclaration)
    (tx : Text) (a : AnchorLog)
    → (claim_for_anchoring now id deps.lease_seconds db).1 ≡ some row
    → (anchor_declaration deps answers now id db).outcome ≡ anchored tx a
    → ((row.anchor_tx_hash ≡ some tx)
        × ((anchor_declaration deps answers now id db).sent ≡ none)
        × IsEvidence deps row answers.previous_receipt a)
      ⊎ (((anchor_declaration deps answers now id db).sent ≡ some tx)
          × IsEvidence deps row answers.receipt a)
unfolding anchor_declaration
anchored-IsEvidence deps answers now id db row tx a claimed e =
    let db' = (claim_for_anchoring now id deps.lease_seconds db).0 in
    let same : anchor_declaration deps answers now id db
        ≡ check_previous deps row.anchor_tx_hash answers now id row db' =
      rw (claimed, anchor_declaration) in
    elim (previous-evidence deps row row.anchor_tx_hash answers now id db' tx a
      (sym (ap (λ (t : Attempt). t.outcome) same) ∙ e)) [
        | inl (old, unsent, seen) ↦ inl (
          old,
          ap (λ (t : Attempt). t.sent) same ∙ unsent,
          find_anchor_log-IsEvidence deps row answers.previous_receipt answers.previous_block_time a
              seen,
        )
        | inr (sent, seen) ↦ inr (
          ap (λ (t : Attempt). t.sent) same ∙ sent,
          find_anchor_log-IsEvidence deps row answers.receipt answers.block_time a seen,
        )
      ]

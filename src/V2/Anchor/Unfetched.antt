-- ===== src/V2/Anchor/Unfetched.antt =====
-- Attempts one after the other on one declaration, src/v2/anchor.ts, when receipts are not fetched.
use res_ex_machina.Common.{
  ap, ◌≤◌, inl, inr, List, [], ◌∷◌, map, All, length, Option, Option-cases, ℕ, ◌+◌, ◌*◌, ◌<◌, ◌≡◌,
  refl, none, some, Text, arith, to_lower_case, take, map_get, map_set, map_get-map_set,
  text_eq_refl,
}
use res_ex_machina.Pog.Aux.{encode_single_aux}
use res_ex_machina.V2.Store.{
  pending, anchoring, DbDeclaration, Db, update_where, is_claimable, claim_for_anchoring,
  record_sent_tx, mark_attempt_failed,
}
use res_ex_machina.V2.Anchor.{
  Answers, AnchorDeps, call_failed, attempt_failed, find_anchor_log, send_and_wait, check_and_send,
  check_previous, anchor_declaration,
}

map_get_set : (id : Text) (r : DbDeclaration) (db : Db) → map_get id (map_set id r db) ≡ some r
map_get_set id r db = ground (arith, map_get-map_set id id r db, text_eq_refl id)

module _ (deps : AnchorDeps) where
  -- The row after an attempt that sent `tx` and got no receipt.
  abbrev unsettled : DbDeclaration → Text → DbDeclaration
  unsettled row tx = record row {
    state = pending;
    attempts = row.attempts + 1;
    lease_until = none;
    anchor_tx_hash = some (to_lower_case tx);
    last_error = some (take 500 (deps.message call_failed));
  }

  -- An attempt that sends `tx` and fetches no receipt, neither of an earlier transaction nor of this.
  pub record IsLost (aux : Text) (answers : Answers) (tx : Text) : Type 0 where
    pub made : answers.write_contract aux ≡ some tx
    pub lost : answers.receipt ≡ none
    pub previous_lost : answers.previous_receipt ≡ none

  lost_attempt_sends :
      (answers : Answers) (now : ℕ) (id : Text) (db : Db) (row : DbDeclaration) (aux tx : Text)
      → map_get id db ≡ some row
      → row.state ≡ pending
      → deps.min_relayer_balance_wei ≡ none
      → encode_single_aux deps.viem row.signature ≡ some aux
      → IsLost aux answers tx
      → (anchor_declaration deps answers now id db).sent ≡ some tx
  unfolding anchor_declaration check_previous check_and_send send_and_wait find_anchor_log
      attempt_failed claim_for_anchoring update_where is_claimable
  lost_attempt_sends answers now id db row aux tx found is_pending unset encoded h =
      elim (Option-cases row.anchor_tx_hash) [
        | inl unnamed ↦ ground (arith, h.made, h.lost)
        | inr (old, named) ↦ ground (arith, h.made, h.lost, h.previous_lost)
      ]

  lost_attempt-unsettled :
      (answers : Answers) (now : ℕ) (id : Text) (db : Db) (row : DbDeclaration) (aux tx : Text)
      → map_get id db ≡ some row
      → row.state ≡ pending
      → row.attempts + 1 < deps.max_attempts
      → deps.min_relayer_balance_wei ≡ none
      → encode_single_aux deps.viem row.signature ≡ some aux
      → IsLost aux answers tx
      → map_get id (anchor_declaration deps answers now id db).db ≡ some (unsettled row tx)
  unfolding anchor_declaration check_previous check_and_send send_and_wait find_anchor_log
      attempt_failed claim_for_anchoring record_sent_tx mark_attempt_failed update_where
      is_claimable
  lost_attempt-unsettled answers now id db row aux tx found is_pending few unset encoded h =
      let claimed : DbDeclaration = record row {
        state = anchoring;
        lease_until = some (now + deps.lease_seconds * 1000);
        attempts = row.attempts + 1;
      } in
      let named : DbDeclaration = record claimed { anchor_tx_hash = some (to_lower_case tx) } in
      let db' = map_set id claimed db in
      let db'' = map_set id named db' in
      let e = map_get_set id claimed db in
      let e' = map_get_set id named db' in
      let e'' = map_get_set id (unsettled row tx) db'' in
      elim (Option-cases row.anchor_tx_hash) [
        | inl unnamed ↦ ground (arith, e, e', e'', h.made, h.lost)
        | inr (old, named') ↦ ground (arith, e, e', e'', h.made, h.lost, h.previous_lost)
      ]

  -- Attempts one after the other on one declaration, each with its time, what it is answered, and the
  -- transaction that it may send; what they send.
  unfoldable pub attempts_send : Text → List (ℕ × Answers × Text) → Db → List (Option Text)
  attempts_send id [] db = []
  attempts_send id ((now, answers, tx) ∷ rs) db =
      let a = anchor_declaration deps answers now id db in a.sent ∷ attempts_send id rs a.db

  -- While receipts cannot be fetched, every attempt sends again: of attempts one after the other on a
  -- pending row, no more than it has left, each of which is given a transaction and fetches no
  -- receipt, neither of an earlier transaction nor of its own, each sends the transaction that it is
  -- given, if no balance is asked for and the signature encodes.
  pub lost_attempts_all_send :
      (id : Text) (aux : Text) (rs : List (ℕ × Answers × Text)) (db : Db) (row : DbDeclaration)
      → map_get id db ≡ some row
      → row.state ≡ pending
      → row.attempts + length rs ≤ deps.max_attempts
      → deps.min_relayer_balance_wei ≡ none
      → encode_single_aux deps.viem row.signature ≡ some aux
      → All (λ (r : ℕ × Answers × Text). IsLost aux r.1 r.2) rs
      → attempts_send id rs db ≡ map (λ (r : ℕ × Answers × Text). some r.2) rs
  unfolding attempts_send
  lost_attempts_all_send id aux [] db row found is_pending few unset encoded h = refl
  lost_attempts_all_send id aux ((now, answers, tx) ∷ []) db row found is_pending few unset encoded
        (h, hs) =
      ap (λ t. t ∷ [])
        (lost_attempt_sends answers now id db row aux tx found is_pending unset encoded h)
  lost_attempts_all_send id aux ((now, answers, tx) ∷ r ∷ rs) db row found is_pending few unset
        encoded (h, hs) =
      let a = anchor_declaration deps answers now id db in
      let sent = lost_attempt_sends answers now id db row aux tx found is_pending unset encoded h in
      let left =
        lost_attempt-unsettled answers now id db row aux tx found is_pending (omega (arith, few))
          unset encoded h in
      let rest =
        lost_attempts_all_send id aux (r ∷ rs) a.db (unsettled row tx) left refl
          (omega (arith, few)) unset encoded hs in
      rw sent (ap (λ l. some tx ∷ l) rest)

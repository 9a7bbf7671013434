-- ===== src/V2/Anchor/Outcomes.antt =====
-- What an attempt leaves in the table, by its outcome.
use res_ex_machina.Common.{
  ℕ, ◌-◌, ◌≤◌, ◌<◌, ◌≡◌, refl, ◌⊎◌, inl, inr, true, Option, none, some, Text, arith, leb, ltb,
  to_lower_case, Option-cases, Bool-cases, take, map_get, if◌then◌else◌,
}
use res_ex_machina.Pog.Aux.{encode_single_aux}
use res_ex_machina.V2.Store.{
  DeclState, pending, anchoring, DbDeclaration, Db, is_anchoring, is_claimable, update_where,
  claim_for_anchoring, record_sent_tx, AnchorLog, mark_anchored, mark_attempt_failed, release_claim,
}
use res_ex_machina.V2.Store
use res_ex_machina.V2.Store.States.{update_where-changes, update_where-returns}
use res_ex_machina.V2.Anchor.{
  Answers, Thrown, call_failed, tx_reverted, bad_signature, AnchorDeps, AnchorOutcome, anchored,
  skipped, paused, retry, failure, Attempt, Found, thrown, reverted, found, find_anchor_log,
  attempt_failed, attempt_anchored, attempt_paused, send_and_wait, check_and_send, check_previous,
  anchor_declaration,
}

pub Found-cases :
    (f : Found)
    → ((e : Thrown) × (f ≡ thrown e)) ⊎ ((f ≡ reverted) ⊎ ((log : AnchorLog) × (f ≡ found log)))
Found-cases (thrown e) = inl (e, refl)
Found-cases reverted = inr (inl refl)
Found-cases (found log) = inr (inr (log, refl))

-- The row that an attempt works on: it is stored, being anchored, with the attempts that were counted.
record IsHeld (id : Text) (row : DbDeclaration) (db : Db) : Type 0 where
  stored : DbDeclaration
  here : map_get id db ≡ some stored
  held : is_anchoring stored ≡ true
  counted : stored.attempts ≡ row.attempts
  same_digest : stored.digest ≡ row.digest

-- How the stored row `q` looks after an attempt on `row` with this outcome.
abbrev pub Settled : AnchorDeps → AnchorOutcome → DbDeclaration → DbDeclaration → Type 0
Settled deps (anchored tx_hash log) row q =
    (q.state ≡ Store.anchored)
    × (q.anchor_tx_hash ≡ some (to_lower_case tx_hash))
    × (q.anchor_log_index ≡ some log.log_index)
    × (q.anchor_block ≡ some log.block)
    × (q.digest ≡ row.digest)
Settled deps skipped row q = ⊥
Settled deps paused row q =
    (q.state ≡ pending) × (q.attempts ≡ row.attempts - 1) × (q.digest ≡ row.digest)
Settled deps (retry e) row q =
    (q.state ≡ pending) × (q.attempts ≡ row.attempts) × (row.attempts < deps.max_attempts)
Settled deps (failure e) row q =
    (q.state ≡ Store.failed) × (q.attempts ≡ row.attempts) × (deps.max_attempts ≤ row.attempts)

abbrev pub Settles : AnchorDeps → Text → DbDeclaration → Attempt → Type 0
Settles deps id row a =
    (q : DbDeclaration) × (map_get id a.db ≡ some q) × Settled deps a.outcome row q

module _ (deps : AnchorDeps) (id : Text) (row : DbDeclaration) where
  -- The row after a failed attempt.
  abbrev failed_row : Thrown → DbDeclaration → DbDeclaration
  failed_row e r = record r {
    state = if leb deps.max_attempts r.attempts then Store.failed else pending;
    lease_until = none;
    last_error = some (take 500 (deps.message e));
  }

  mark_attempt_failed_lem :
      (e : Thrown) (db : Db) (r : DbDeclaration)
      → map_get id db ≡ some r
      → is_anchoring r ≡ true
      → let (db', state) = mark_attempt_failed id (deps.message e) deps.max_attempts db in
        (map_get id db' ≡ some (failed_row e r)) × (state ≡ some (failed_row e r).state)
  unfolding mark_attempt_failed
  mark_attempt_failed_lem e db r here held =
      let (after, returned) = update_where-changes id is_anchoring (failed_row e) db r here held in
      (after, rw (returned, mark_attempt_failed))

  failed-Settles :
      (e : Thrown) (sent : Option Text) (db : Db)
      → IsHeld id row db
      → Settles deps id row (attempt_failed deps id e sent db)
  unfolding attempt_failed
  failed-Settles e sent db h =
      let (after, state) = mark_attempt_failed_lem e db h.stored h.here h.held in
      (
        failed_row e h.stored,
        after,
        elim (Bool-cases (leb deps.max_attempts h.stored.attempts)) [
          | inl over ↦ rw (state, attempt_failed) (rw over (refl, h.counted, ground arith))
          | inr under ↦ rw (state, attempt_failed) (rw under (refl, h.counted, ground arith))
        ],
      )

  anchored-Settles :
      (now : ℕ) (tx_hash : Text) (log : AnchorLog) (sent : Option Text) (db : Db)
      → IsHeld id row db
      → Settles deps id row (attempt_anchored deps now id tx_hash log sent db)
  unfolding mark_anchored
  anchored-Settles now tx_hash log sent db h =
      let (after, returned) = update_where-changes id is_anchoring _ db h.stored h.here h.held in
      (_, after, (refl, refl, refl, refl, h.same_digest))

  paused-Settles :
      (reason : Text) (db : Db)
      → IsHeld id row db
      → Settles deps id row (attempt_paused deps id reason db)
  unfolding release_claim
  paused-Settles reason db h =
      let (after, returned) = update_where-changes id is_anchoring _ db h.stored h.here h.held in
      (_, after, (refl, ground arith, h.same_digest))

  sent-IsHeld :
      (tx_hash : Text) (db : Db) → IsHeld id row db → IsHeld id row (record_sent_tx id tx_hash db)
  unfolding record_sent_tx
  sent-IsHeld tx_hash db h =
      let (after, returned) = update_where-changes id is_anchoring _ db h.stored h.here h.held in
      record {
        stored = _;
        here = after;
        held = h.held;
        counted = h.counted;
        same_digest = h.same_digest;
      }

  send-Settles :
      (answers : Answers) (now : ℕ) (db : Db)
      → IsHeld id row db
      → Settles deps id row (send_and_wait deps answers now id row db)
  unfolding send_and_wait
  send-Settles answers now db h = elim (Option-cases (encode_single_aux deps.viem row.signature)) [
    | inl bad ↦ rw (bad, send_and_wait) (failed-Settles bad_signature none db h)
    | inr (aux, encoded) ↦ elim (Option-cases (answers.write_contract aux)) [
      | inl refused ↦
          rw (encoded, send_and_wait) (rw refused (failed-Settles call_failed none db h))
      | inr (tx_hash, made) ↦
          let h' = sent-IsHeld tx_hash db h in
          let db' = record_sent_tx id tx_hash db in
          let seen =
            find_anchor_log deps answers.receipt answers.block_time row.contract row.digest in
          rw (encoded, send_and_wait)
            (rw made (elim (Found-cases seen) [
              | inl (e, s) ↦ rw s (failed-Settles e (some tx_hash) db' h')
              | inr (inl s) ↦ rw s (failed-Settles tx_reverted (some tx_hash) db' h')
              | inr (inr (log, s)) ↦ rw s (anchored-Settles now tx_hash log (some tx_hash) db' h')
            ]))
    ]
  ]

  check-Settles :
      (answers : Answers) (now : ℕ) (db : Db)
      → IsHeld id row db
      → Settles deps id row (check_and_send deps answers now id row db)
  unfolding check_and_send
  check-Settles answers now db h =
      let send = send-Settles answers now db h in
      elim (Option-cases deps.min_relayer_balance_wei) [
        | inl unset ↦ rw (unset, check_and_send) send
        | inr (least, set) ↦
            rw (set, check_and_send)
              (elim (Bool-cases (ltb 0 least)) [
                | inl asked ↦ rw asked (elim (Option-cases answers.balance) [
                  | inl unknown ↦ rw unknown (failed-Settles call_failed none db h)
                  | inr (balance, told) ↦ rw told (elim (Bool-cases (ltb balance least)) [
                    | inl low ↦ rw low (paused-Settles (deps.low_balance balance least) db h)
                    | inr enough ↦ rw enough send
                  ])
                ])
                | inr zero ↦ rw zero send
              ])
      ]

  previous-Settles :
      (previous : Option Text) (answers : Answers) (now : ℕ) (db : Db)
      → IsHeld id row db
      → Settles deps id row (check_previous deps previous answers now id row db)
  unfolding check_previous
  previous-Settles none answers now db h = check-Settles answers now db h
  previous-Settles (some tx_hash) answers now db h =
      let check = check-Settles answers now db h in
      elim (Found-cases (
        find_anchor_log deps answers.previous_receipt answers.previous_block_time row.contract
          row.digest)) [
            | inl (e, s) ↦ rw (s, check_previous) check
            | inr (inl s) ↦ rw (s, check_previous) check
            | inr (inr (log, s)) ↦
                rw (s, check_previous) (anchored-Settles now tx_hash log none db h)
          ]

claim-IsHeld :
    (now lease : ℕ) (id : Text) (db : Db) (row : DbDeclaration)
    → (claim_for_anchoring now id lease db).1 ≡ some row
    → IsHeld id row (claim_for_anchoring now id lease db).0
unfolding claim_for_anchoring
claim-IsHeld now lease id db row e =
    let (q, here, holds, changed, stored) = update_where-returns id (is_claimable now) _ db row e in
    record { stored = row; here = stored; held = ground arith; counted = refl; same_digest = refl }

-- Whoever claims a row settles it: after an attempt on a claimed row the row is stored as its outcome
-- says, never still `anchoring`. An anchored one carries the transaction and the place of the log;
-- a paused one has its attempt given back; a retry has attempts left, and a failure has none.
pub anchor_declaration-Settles :
    (deps : AnchorDeps) (answers : Answers) (now : ℕ) (id : Text) (db : Db) (row : DbDeclaration)
    → (claim_for_anchoring now id deps.lease_seconds db).1 ≡ some row
    → Settles deps id row (anchor_declaration deps answers now id db)
unfolding anchor_declaration
anchor_declaration-Settles deps answers now id db row e =
    rw (e, anchor_declaration)
      (previous-Settles deps id row row.anchor_tx_hash answers now
        (claim_for_anchoring now id deps.lease_seconds db).0
        (claim-IsHeld now deps.lease_seconds id db row e))

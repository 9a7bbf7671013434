-- ===== src/V1/Waiting.antt =====
-- src/services/waitForAnchor.ts and src/utils/stateInfo.ts: a request may wait for its record to be
-- anchored. The clock is read at the top of each round and after its query; `none` as a result is a
-- loop that ran out of fuel.
use res_ex_machina.Common.{
  ℕ, zero, suc, ◌+◌, ◌-◌, ◌*◌, ◌≤◌, ◌<◌, ◌≡◌, refl, ◌∙◌, ◌++◌, ◌⊎◌, inl, inr, Bool, true, false,
  not, Option, none, some, Text, codes, arith, leb, ltb, min, text_eq, if◌then◌else◌, Option-cases,
  Bool-cases,
}

-- The columns that are queried.
pub record WaitedRow : Type 0 where
  pub state : Text
  pub anchor_tx_hash : Option Text
  pub anchor_block : Option ℕ
  pub anchor_chain_id : Option ℕ
  pub anchored_at : Option ℕ

abbrev pub still_pending : WaitedRow
still_pending = record {
  state = codes "pending_anchor";
  anchor_tx_hash = none;
  anchor_block = none;
  anchor_chain_id = none;
  anchored_at = none;
}

-- `record.anchorBlock ? Number(record.anchorBlock) : null`.
abbrev pub nonzero : Option ℕ → Option ℕ
nonzero (some (suc n)) = some (suc n)
nonzero n = none

-- The clock at the top of a round and after its query, and what the query finds, by the number of
-- the round.
pub record World : Type 0 where
  pub top : ℕ → ℕ
  pub after : ℕ → ℕ
  pub query : ℕ → Option WaitedRow

-- The loop, from round `k` on.
unfoldable pub wait_loop : World → ℕ → ℕ → ℕ → Option WaitedRow
wait_loop w deadline zero k = none
wait_loop w deadline (suc fuel) k =
    let rest = wait_loop w deadline fuel (suc k) in
    if ltb (w.top k) deadline
    then elim (w.query k) [
      | none ↦ some still_pending
      | some row ↦
          if not (text_eq row.state (codes "pending_anchor"))
          then some (record row { anchor_block = nonzero row.anchor_block })
          else if leb deadline (w.after k)
          then some still_pending
          else rest
    ]
    else some still_pending

unfoldable pub wait_for_anchor : World → ℕ → ℕ → ℕ → Option WaitedRow
wait_for_anchor w fuel start max_wait_ms = wait_loop w (start + max_wait_ms) fuel 0

-- The clock runs forward, and the pause between two rounds lasts for the interval or up to the
-- deadline.
pub record IsClock (w : World) (deadline interval : ℕ) : Type 0 where
  pub forward : (k : ℕ) → w.top k ≤ w.after k
  pub pauses : (k : ℕ) → w.after k + min interval (deadline - w.after k) ≤ w.top (suc k)

-- What a queried row is answered with.
abbrev pub answered : WaitedRow → WaitedRow
answered row = record row { anchor_block = nonzero row.anchor_block }

-- A round ends the loop, with the answer that no change was seen or with a queried row that has left
-- `pending_anchor`, or goes on before the deadline.
round-cases :
    (w : World) (deadline fuel k : ℕ)
    → (wait_loop w deadline (suc fuel) k ≡ some still_pending)
      ⊎ (((row : WaitedRow) × (wait_loop w deadline (suc fuel) k ≡ some (answered row))
            × (w.query k ≡ some row)
            × (text_eq row.state (codes "pending_anchor") ≡ false))
          ⊎ ((wait_loop w deadline (suc fuel) k ≡ wait_loop w deadline fuel (suc k))
              × (w.top k < deadline)
              × (w.after k < deadline)))
unfolding wait_loop
round-cases w deadline fuel k = elim (Bool-cases (ltb (w.top k) deadline)) [
  | inr late ↦ inl (ground arith)
  | inl early ↦ elim (Option-cases (w.query k)) [
    | inl gone ↦ inl (rw (early, gone))
    | inr (row, found) ↦ elim (Bool-cases (text_eq row.state (codes "pending_anchor"))) [
      | inr left ↦ inr (inl (row, rw (early, found, left), found, left))
      | inl same ↦ elim (Bool-cases (leb deadline (w.after k))) [
        | inl over ↦ inl (rw (early, found, same, over))
        | inr more ↦ inr (inr (rw (early, found, same, more), ground arith, ground arith))
      ]
    ]
  ]
]

-- A round from the deadline on ends the loop.
wait_loop-late :
    (w : World) (deadline fuel k : ℕ)
    → deadline ≤ w.top k
    → wait_loop w deadline (suc fuel) k ≡ some still_pending
unfolding wait_loop
wait_loop-late w deadline fuel k h = ground arith

-- The result is the answer of a row that was queried and had left `pending_anchor`, or that no
-- change was seen.
abbrev pub IsSeen : World → WaitedRow → Type 0
IsSeen w result =
    (result ≡ still_pending)
    ⊎ ((k : ℕ) × (row : WaitedRow) × (w.query k ≡ some row)
        × (text_eq row.state (codes "pending_anchor") ≡ false)
        × (result ≡ answered row))

wait_loop-ends :
    (w : World) (deadline interval n k : ℕ)
    → IsClock w deadline interval
    → deadline ≤ w.top k + n * interval
    → (result : WaitedRow) × (wait_loop w deadline (suc n) k ≡ some result) × IsSeen w result
wait_loop-ends w deadline interval zero k c h =
    (still_pending, wait_loop-late w deadline zero k (omega arith), inl refl)
wait_loop-ends w deadline interval (suc n) k c h = elim (round-cases w deadline (suc n) k) [
  | inl stopped ↦ (still_pending, stopped, inl refl)
  | inr (inl (row, stopped, found, left)) ↦ (answered row, stopped, inr (k, row, found, left, refl))
  | inr (inr (more, early, early')) ↦
      let later : deadline ≤ w.top (suc k) + n * interval =
        omega (arith, c.pauses k, c.forward k) in
      let (result, ended, seen) = wait_loop-ends w deadline interval n (suc k) c later in
      (result, more ∙ ended, seen)
]

-- Waiting ends: if the clock runs forward and each pause lasts for the interval or up to the
-- deadline, as many rounds as intervals cover the longest wait, and one more, are enough, and the
-- result is what a query has seen, or that no change was seen.
pub wait_for_anchor-ends :
    (w : World) (start max_wait_ms interval_ms n : ℕ)
    → IsClock w (start + max_wait_ms) interval_ms
    → start ≤ w.top 0
    → max_wait_ms ≤ n * interval_ms
    → (result : WaitedRow) × (wait_for_anchor w (suc n) start max_wait_ms ≡ some result)
      × IsSeen w result
unfolding wait_for_anchor
wait_for_anchor-ends w start max_wait_ms interval_ms n c h k =
    wait_loop-ends w (start + max_wait_ms) interval_ms n 0 c (omega arith)

pub record StateInfo : Type 0 where
  pub terminal : Bool
  pub retryable : Bool
  pub description : Text

-- `getStateInfo`.
unfoldable pub get_state_info : Text → StateInfo
get_state_info state =
    if text_eq state (codes "pending_anchor")
    then record {
      terminal = false;
      retryable = false;
      description = codes "Record registered. Anchoring in progress.";
    }
    else if text_eq state (codes "anchored")
    then record {
      terminal = true;
      retryable = false;
      description = codes "Record anchored on-chain. Verification available.";
    }
    else if text_eq state (codes "anchor_failed")
    then record {
      terminal = true;
      retryable = false;
      description = codes "Anchoring failed after max attempts. Manual intervention required.";
    }
    else record {
      terminal = false;
      retryable = false;
      description = codes "Unknown state: " ++ state;
    }

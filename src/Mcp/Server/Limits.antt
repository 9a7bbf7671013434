-- ===== src/Mcp/Server/Limits.antt =====
-- The daily limits hold for the whole server: single records and batches draw on one allowance.
use res_ex_machina.Common.{ℕ, suc, ◌≤◌, ◌≡◌, List, [], ◌∷◌, Text, arith}
use res_ex_machina.Mcp.Ledger.Limits.{IsWithin, IsWithin-later}
use res_ex_machina.Mcp.Ledger.Sqlite.{record_failed_attempt}
use res_ex_machina.Mcp.Write.{Env, prepares, confirms, collects, collect_expired, prepare, step}
use res_ex_machina.Mcp.Write.Spending.{IsWithin-same_log, confirm-IsWithin}
use res_ex_machina.Mcp.Write.Requests.{prepare-same_log}
use res_ex_machina.Mcp.Batch.{
  BatchState, BatchEnv, Item, note_failure, collect_expired_batches, prepare_batch,
}
use res_ex_machina.Mcp.Batch.Spending.{confirm_batch-IsWithin}
use res_ex_machina.Mcp.Server.{
  Server, Call, single, prepares_batch, confirms_batch, collects_batches, write_state, batch_state,
  serve, serve_all,
}

-- The calls follow one another in time, none before `t`, none after `u`, and the clock of a batch
-- runs forward between the start of its confirmation and its end.
abbrev pub CallsInOrder : ℕ → List Call → ℕ → Type 0
CallsInOrder t [] u = t ≤ u
CallsInOrder t (single (prepares now a id args) ∷ cs) u = (t ≤ now) × CallsInOrder now cs u
CallsInOrder t (single (confirms now later id) ∷ cs) u =
    (t ≤ now) × (now ≤ later) × CallsInOrder later cs u
CallsInOrder t (single (collects now) ∷ cs) u = (t ≤ now) × CallsInOrder now cs u
CallsInOrder t (prepares_batch now a id items ∷ cs) u = (t ≤ now) × CallsInOrder now cs u
CallsInOrder t (confirms_batch now clock later id ∷ cs) u =
    (t ≤ now)
    × (now ≤ clock 0)
    × ((i : ℕ) → clock i ≤ clock (suc i))
    × ((i : ℕ) → clock i ≤ later)
    × CallsInOrder later cs u
CallsInOrder t (collects_batches now ∷ cs) u = (t ≤ now) × CallsInOrder now cs u

prepare_batch-same_log :
    (env : BatchEnv) (now : ℕ) (a id : Text) (items : List Item) (s : BatchState)
    → (prepare_batch env now a id items s).0.ledger.spending_log ≡ s.ledger.spending_log
unfolding prepare_batch note_failure record_failed_attempt
prepare_batch-same_log env now a id items s = ground arith

module _ (env : Env) (batch_env : BatchEnv) where
  open env use {config}

  -- With one configuration for the tools of single records and of batches, from a ledger within the
  -- daily limits and over any calls that follow one another in time and are handled one after the
  -- other, the spending and the records of the last day stay within the limits.
  pub serve_all-IsWithin :
      (cs : List Call) (t u : ℕ) (s : Server)
      → batch_env.config ≡ config
      → CallsInOrder t cs u
      → IsWithin config t s.ledger
      → IsWithin config u (serve_all env batch_env cs s).ledger
  unfolding serve_all serve step collect_expired collect_expired_batches
  serve_all-IsWithin [] t u s same h w = IsWithin-later config t u s.ledger h w
  serve_all-IsWithin (single (prepares now a id args) ∷ cs) t u s same (h, hs) w =
      let s' = (prepare env now a id args (write_state s)).0 in
      serve_all-IsWithin cs now u _ same hs (
        IsWithin-same_log config now s.ledger s'.ledger
          (prepare-same_log env now a id args (write_state s))
          (IsWithin-later config t now s.ledger h w))
  serve_all-IsWithin (single (confirms now later id) ∷ cs) t u s same (h, h', hs) w =
      serve_all-IsWithin cs later u _ same hs (
        confirm-IsWithin env now later id (write_state s) h'
          (IsWithin-later config t now s.ledger h w))
  serve_all-IsWithin (single (collects now) ∷ cs) t u s same (h, hs) w =
      serve_all-IsWithin cs now u _ same hs (IsWithin-later config t now s.ledger h w)
  serve_all-IsWithin (prepares_batch now a id items ∷ cs) t u s same (h, hs) w =
      let s' = (prepare_batch batch_env now a id items (batch_state s)).0 in
      serve_all-IsWithin cs now u _ same hs (
        IsWithin-same_log config now s.ledger s'.ledger
          (prepare_batch-same_log batch_env now a id items (batch_state s))
          (IsWithin-later config t now s.ledger h w))
  serve_all-IsWithin (confirms_batch now clock later id ∷ cs) t u s same (h, h', mono, last, hs) w =
      serve_all-IsWithin cs later u _ same hs (
        rw (← same) (
          confirm_batch-IsWithin batch_env clock now later id (batch_state s) h' mono last
            (rw same (IsWithin-later config t now s.ledger h w))))
  serve_all-IsWithin (collects_batches now ∷ cs) t u s same (h, hs) w =
      serve_all-IsWithin cs now u _ same hs (IsWithin-later config t now s.ledger h w)

-- ===== src/Mcp/Batch/Room.antt =====
-- The room that a day has for more records, and what takes it up.
use res_ex_machina.Common.{ℕ, suc, ◌+◌, ◌*◌, ◌≤◌, ◌≡◌, refl, [], ◌∷◌, ◌++◌, some, Text, arith}
use res_ex_machina.Mcp.Config.{EnvConfig}
use res_ex_machina.Mcp.Ledger.{SpendingRecord}
use res_ex_machina.Mcp.Ledger.Sqlite.{SqliteLedger, get_daily_stats, record_transaction}
use res_ex_machina.Mcp.Ledger.Limits.{IsWithin, get_daily_stats-append, get_daily_stats-later}

-- The day has room for `n` more records of this cost.
pub record HasRoom (config : EnvConfig) (now cost n : ℕ) (l : SqliteLedger) : Type 0 where
  pub spending : (get_daily_stats now l).total_spent_wei + cost * n ≤ config.max_spend_per_day_wei
  pub records : (get_daily_stats now l).records_count + n ≤ config.max_records_per_day

pub HasRoom-same_log :
    (config : EnvConfig) (now cost n : ℕ) (l l' : SqliteLedger)
    → l'.spending_log ≡ l.spending_log
    → HasRoom config now cost n l
    → HasRoom config now cost n l'
unfolding get_daily_stats
HasRoom-same_log config now cost n l l' e r = record {
  spending = rw e r.spending;
  records = rw e r.records;
}

pub HasRoom-later :
    (config : EnvConfig) (t t' cost n : ℕ) (l : SqliteLedger)
    → t ≤ t'
    → HasRoom config t cost n l
    → HasRoom config t' cost n l
HasRoom-later config t t' cost n l h r = omega (arith, get_daily_stats-later t t' l h)

-- Room for one more is at least the room that is left without it.
pub HasRoom-less :
    (config : EnvConfig) (now cost n : ℕ) (l : SqliteLedger)
    → HasRoom config now cost (suc n) l
    → HasRoom config now cost n l
HasRoom-less config now cost n l r = omega arith

pub HasRoom-append :
    (config : EnvConfig) (now cost n : ℕ) (l : SqliteLedger) (row : SpendingRecord)
    → row.amount_wei + row.gas_wei ≡ cost
    → HasRoom config now cost (suc n) l
    → HasRoom config now cost n (record l { spending_log = l.spending_log ++ row ∷ [] })
HasRoom-append config now cost n l row e r = omega (arith, get_daily_stats-append now l row)

pub HasRoom-IsWithin :
    (config : EnvConfig) (now cost : ℕ) (l : SqliteLedger)
    → HasRoom config now cost 0 l
    → IsWithin config now l
HasRoom-IsWithin config now cost l r = omega arith

pub record_transaction-room :
    (config : EnvConfig) (now : ℕ) (id tx : Text) (n fee gas : ℕ) (l l' : SqliteLedger)
    → record_transaction now id tx fee gas l ≡ some l'
    → HasRoom config now (fee + gas) (suc n) l
    → HasRoom config now (fee + gas) n l'
unfolding record_transaction
record_transaction-room config now id tx n fee gas l l' e room =
    let row : SpendingRecord = record {
      id = id;
      tx_hash = tx;
      amount_wei = fee;
      gas_wei = gas;
      timestamp = now;
    } in
    ground (arith, HasRoom-append config now (fee + gas) n l row refl room)

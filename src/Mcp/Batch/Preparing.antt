-- ===== src/Mcp/Batch/Preparing.antt =====
-- What the preparation of a batch sorts out, quotes and keeps for the confirmation.
use res_ex_machina.Common.{
  ℕ, ◌+◌, ◌*◌, ◌≤◌, ◌≡◌, refl, inl, inr, true, false, List, [], ◌∷◌, some, Text, arith, Sum-cases,
  length, All, map, select, Bool, map_get, map_get-map_set, text_eq_refl,
}
use res_ex_machina.Mcp.Ledger.{allowed}
use res_ex_machina.Mcp.Ledger.Sqlite.{check_batch_guardrails}
use res_ex_machina.Mcp.Write.{predicted_gas}
use res_ex_machina.Mcp.Batch.{
  Item, NewItem, BatchConfirmationRequest, BatchState, BatchEnv, Sorted, Quote, prepared, item_hash,
  sort_items, prepare_batch,
}

module _ (env : BatchEnv) where
  open env use {config, verify}

  -- What the API answers to the hash of an item.
  abbrev pub is_known : Item → Bool
  is_known item = elim (verify (item_hash env item)) [ some true ↦ true | _ ↦ false ]

  abbrev pub is_unknown : Item → Bool
  is_unknown item = elim (verify (item_hash env item)) [ some false ↦ true | _ ↦ false ]

  -- A new item goes by its hash, which the API does not know.
  abbrev pub IsFresh : NewItem → Type 0
  IsFresh i = (i.content_hash ≡ item_hash env i.args) × (verify i.content_hash ≡ some false)

  -- Every item is new or a duplicate, in the order of the items; no new item is known to the API.
  sort_items-partition :
      (items : List Item) (sorted : Sorted)
      → config.batch_dedup_before_pay ≡ true
      → sort_items env items ≡ inl sorted
      → (length sorted.new_items + length sorted.duplicate_hashes ≡ length items)
        × All IsFresh sorted.new_items
        × (map (λ (i : NewItem). i.args) sorted.new_items ≡ select is_unknown items)
        × (sorted.duplicate_hashes ≡ map (item_hash env) (select is_known items))
  unfolding sort_items
  sort_items-partition [] sorted on h = ground arith
  sort_items-partition (item ∷ items) sorted on h = elim (Sum-cases (sort_items env items)) [
    | inl (rest, e) ↦ ground (arith, sort_items-partition items rest on e)
    | inr (thrown, e) ↦ absurd (ground arith)
  ]

  -- With MCP_BATCH_DEDUP_BEFORE_PAY on, what `rxm_prepare_batch` quotes is what it keeps: the new
  -- items and the duplicates add up to the items, which are no more than MCP_MAX_BATCH_SIZE and of
  -- which at least one is new; the API knows none of the new ones; the estimate is the cost of an
  -- item for each of them, and the guardrails allow it; the request is pending under the identifier
  -- that is answered, for ten minutes, with the costs per item that are quoted, the items that the API
  -- does not know under their hashes, and the hashes of those that it knows, in the order given.
  pub prepare_batch_quotes :
      (now : ℕ) (attempt id : Text) (items : List Item) (s : BatchState) (q : Quote)
      → config.batch_dedup_before_pay ≡ true
      → (prepare_batch env now attempt id items s).1 ≡ prepared q
      → let cost = q.per_item_fee_wei + q.per_item_gas_wei in
        (req : BatchConfirmationRequest) × (map_get q.batch_confirmation_id
            (prepare_batch env now attempt id items s).0.pending
          ≡ some req)
        × (q.new_items + q.duplicate_items ≡ length items)
        × (length items ≤ config.max_batch_size)
        × (1 ≤ q.new_items)
        × All IsFresh req.new_items
        × (map (λ (i : NewItem). i.args) req.new_items ≡ select is_unknown items)
        × (req.duplicate_hashes ≡ map (item_hash env) (select is_known items))
        × (req.per_item_fee_wei ≡ q.per_item_fee_wei)
        × (req.per_item_gas_wei ≡ q.per_item_gas_wei)
        × (req.batch_id ≡ q.batch_confirmation_id)
        × (length req.new_items ≡ q.new_items)
        × (length req.duplicate_hashes ≡ q.duplicate_items)
        × (q.estimated_total_cost_wei ≡ cost * q.new_items)
        × (check_batch_guardrails config now
              (length req.new_items)
              req.per_item_fee_wei
              req.per_item_gas_wei
              s.ledger
            ≡ allowed)
        × (req.expires_at ≡ now + 600000)
  unfolding prepare_batch
  prepare_batch_quotes now attempt id items s q on h = elim (Sum-cases (sort_items env items)) [
    | inr (thrown, e) ↦ absurd (ground arith)
    | inl (sorted, e) ↦
        let req : BatchConfirmationRequest = record {
          batch_id = id;
          new_items = sorted.new_items;
          duplicate_hashes = sorted.duplicate_hashes;
          per_item_fee_wei = config.max_rxm_fee_wei;
          per_item_gas_wei = predicted_gas;
          expires_at = now + 600000;
        } in
        let (counted, fresh, new, known) = sort_items-partition items sorted on e in
        (
          req,
          ground (arith, map_get-map_set id id req s.pending, text_eq_refl id),
          ground arith,
          ground arith,
          ground arith,
          fresh,
          new,
          known,
          ground arith,
          ground arith,
          ground arith,
          ground arith,
          ground arith,
          ground arith,
          ground arith,
          refl,
        )
  ]

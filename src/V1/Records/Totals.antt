-- ===== src/V1/Records/Totals.antt =====
-- The answer to a batch: one result for each item, in the order of the items, and its status code.
use res_ex_machina.Common.{
  ℕ, zero, suc, ◌+◌, ◌≡◌, ◌↔◌, refl, ◌∙◌, inl, inr, List, [], ◌∷◌, some, arith, length, get_elem?,
  get_elem?-lt,
}
use res_ex_machina.V1.Records.Batches.{
  Settlement, BatchResult, batch_success, batch_error, collect, batch_answer,
}

-- The result that stands for the settlement at an index.
abbrev pub result_of : ℕ → Settlement → BatchResult
result_of i (inr r) = batch_success i r
result_of i (inl e) = batch_error i e

abbrev pub successes : List Settlement → ℕ
successes [] = 0
successes (inr r ∷ rest) = suc (successes rest)
successes (inl e ∷ rest) = successes rest

collect-counts :
    (i : ℕ) (ss : List Settlement)
    → ((collect i ss).succeeded ≡ successes ss)
      × ((collect i ss).succeeded + (collect i ss).failed ≡ length ss)
      × (length (collect i ss).results ≡ length ss)
unfolding collect
collect-counts i [] = (refl, refl, refl)
collect-counts i (inr r ∷ ss) = ground (arith, collect-counts (suc i) ss)
collect-counts i (inl e ∷ ss) = ground (arith, collect-counts (suc i) ss)

collect-results :
    (i j : ℕ) (ss : List Settlement) (x : Settlement)
    → get_elem? ss j ≡ some x
    → get_elem? (collect i ss).results j ≡ some (result_of (i + j) x)
unfolding collect
collect-results i j [] x h = absurd (ground arith)
collect-results i zero (inr r ∷ ss) x h = ground arith
collect-results i zero (inl e ∷ ss) x h = ground arith
collect-results i (suc j) (inr r ∷ ss) x h = ground (arith, collect-results (suc i) j ss x h)
collect-results i (suc j) (inl e ∷ ss) x h = ground (arith, collect-results (suc i) j ss x h)

-- The answer to a batch counts every item once, as made or as failed; the result at the index of an
-- item is the one of this item; and the status is 201 exactly when none failed, and 400 exactly
-- when none was made.
batch_answer_counts :
    (ss : List Settlement) (j : ℕ) (x : Settlement)
    → get_elem? ss j ≡ some x
    → let answer = batch_answer ss in
      (answer.succeeded ≡ successes ss)
      × (answer.succeeded + answer.failed ≡ answer.total)
      × (answer.total ≡ length ss)
      × (length answer.results ≡ length ss)
      × (get_elem? answer.results j ≡ some (result_of j x))
      × ((answer.status_code ≡ 201) ↔ (answer.succeeded ≡ length ss))
      × ((answer.status_code ≡ 400) ↔ (answer.succeeded ≡ 0))
unfolding batch_answer
batch_answer_counts ss j x h =
    let (made, both, results) = collect-counts 0 ss in
    let some_item = get_elem?-lt ss j h in
    let at_j = collect-results 0 j ss x h in
    let same : 0 + j ≡ j = omega arith in
    (made, both, refl, results, at_j ∙ rw same, ground arith, ground arith)

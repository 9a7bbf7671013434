-- ===== src/Pog/Merkle/Completeness.antt =====
-- Every proof that the package makes for a batch is accepted against the batch's root.
use mathlib.Core.List.{append-nil, append_assoc}
use res_ex_machina.Common.{
  or_else, ltb, if◌then◌else◌, codes, ℕ, zero, suc, ◌/◌, ◌≤◌, ◌≡◌, refl, sym, ap, ◌∙◌, inl, inr,
  true, List, [], ◌∷◌, ◌++◌, map, none, some, Text, arith, Option-cases, length, get_elem?,
  get_elem?-map, get_elem?-lt, length-map, All, same_hex_of_eq,
}
use res_ex_machina.Pog.Hex.{IsHash, big_int, big_int-IsHash, hash_value-injective}
use res_ex_machina.Pog.Merkle.{
  sibling, merkle_leaf, merkle_node, next_level, root_loop, merkle_root, with_sibling, proof_loop,
  merkle_proof, climb, verify_merkle_proof,
}

with_sibling_alone :
    (proof level : List Text) (i : ℕ)
    → get_elem? level (sibling i) ≡ none
    → with_sibling proof level i ≡ proof
with_sibling_alone proof level i e = rw (e, with_sibling)

with_sibling_found :
    (proof level : List Text) (i : ℕ) (s : Text)
    → get_elem? level (sibling i) ≡ some s
    → with_sibling proof level i ≡ proof ++ s ∷ []
with_sibling_found proof level i s e = rw (e, with_sibling)

module _ (keccak256 : Text → Text) (concat : List Text → Text)
    (keccak256-IsHash : (t : Text) → IsHash (keccak256 t)) where
  -- The number of a text that is one.
  abbrev number : Text → ℕ
  number t = or_else (big_int t) 0

  -- The node above two hashes, and the level above a level of hashes.
  abbrev node : Text → Text → Text
  node a b =
      keccak256
        (concat (codes "0x01" ∷ (if ltb (number a) (number b) then a ∷ b ∷ [] else b ∷ a ∷ [])))

  unfoldable next : List Text → List Text
  next [] = []
  next (a ∷ []) = a ∷ []
  next (a ∷ b ∷ rest) = node a b ∷ next rest

  merkle_node-IsHash :
      (a b : Text) → IsHash a → IsHash b → merkle_node keccak256 concat a b ≡ some (node a b)
  unfolding merkle_node
  merkle_node-IsHash a b h k = ground (arith, big_int-IsHash a h, big_int-IsHash b k)

  next_level-IsHash :
      (level : List Text) → All IsHash level → next_level keccak256 concat level ≡ some (next level)
  unfolding next_level next
  next_level-IsHash [] h = refl
  next_level-IsHash (a ∷ []) h = refl
  next_level-IsHash (a ∷ b ∷ rest) (ha, (hb, h)) =
      ground (arith, merkle_node-IsHash a b ha hb, next_level-IsHash rest h)

  -- The two children of a node may be given in any order.
  node_comm : (a b : Text) → IsHash a → IsHash b → node a b ≡ node b a
  node_comm a b h k =
      ground (arith, big_int-IsHash a h, big_int-IsHash b k, hash_value-injective a b h k)

  next-IsHash : (level : List Text) → All IsHash level → All IsHash (next level)
  unfolding next
  next-IsHash [] h = tt
  next-IsHash (a ∷ []) h = h
  next-IsHash (a ∷ b ∷ rest) (ha, (hb, h)) = (keccak256-IsHash _, next-IsHash rest h)

  length-next : (level : List Text) → length (next level) ≤ length level
  unfolding next
  length-next [] = omega arith
  length-next (a ∷ []) = omega arith
  length-next (a ∷ b ∷ rest) = omega (arith, length-next rest)

  next-shorter : (a b : Text) (rest : List Text) → length (next (a ∷ b ∷ rest)) ≤ suc (length rest)
  unfolding next
  next-shorter a b rest = omega (arith, length-next rest)

  -- What node `i` becomes one level up.
  abbrev join_at : List Text → ℕ → Text → Text
  join_at level j h = elim (get_elem? level j) [ none ↦ h | some s ↦ node h s ]

  abbrev parent : List Text → ℕ → Text → Text
  parent level i h = join_at level (sibling i) h

  join_at_alone :
      (level : List Text) (j : ℕ) (h : Text) → get_elem? level j ≡ none → join_at level j h ≡ h
  join_at_alone level j h e = rw (e, join_at)

  join_at_found :
      (level : List Text) (j : ℕ) (h s : Text)
      → get_elem? level j ≡ some s
      → join_at level j h ≡ node h s
  join_at_found level j h s e = rw (e, join_at)

  sibling_step : (i : ℕ) → sibling (suc (suc i)) ≡ suc (suc (sibling i))
  sibling_step i = ground arith

  next-parent :
      (level : List Text) (i : ℕ) (h : Text)
      → All IsHash level
      → get_elem? level i ≡ some h
      → get_elem? (next level) (i / 2) ≡ some (parent level i h)
  unfolding next
  next-parent [] i h ok e = absurd (ground arith)
  next-parent (a ∷ []) zero h ok e = e
  next-parent (a ∷ []) (suc i) h ok e = absurd (ground arith)
  next-parent (a ∷ b ∷ rest) zero h ok e = ground arith
  next-parent (a ∷ b ∷ rest) (suc zero) h (ha, (hb, ok)) e = ground (arith, node_comm a b ha hb)
  next-parent (a ∷ b ∷ rest) (suc (suc i)) h (ha, (hb, ok)) e =
      let halves : suc (suc i) / 2 ≡ suc (i / 2) = omega arith in
      rw halves (
        next-parent rest i h ok e
        ∙ ap (λ j. some (join_at (a ∷ b ∷ rest) j h)) (sym (sibling_step i)))

  leaves-IsHash : (ds : List Text) → All IsHash (map (merkle_leaf keccak256 concat) ds)
  unfolding merkle_leaf
  leaves-IsHash [] = tt
  leaves-IsHash (d ∷ ds) = (keccak256-IsHash _, leaves-IsHash ds)

  at_IsHash :
      (level : List Text) (i : ℕ) (h : Text)
      → All IsHash level
      → get_elem? level i ≡ some h
      → IsHash h
  at_IsHash [] i h ok e = absurd (ground arith)
  at_IsHash (a ∷ level) zero h (ha, ok) e = let same : a ≡ h = ground arith in rw⁻¹ same ha
  at_IsHash (a ∷ level) (suc i) h (ha, ok) e = at_IsHash level i h ok e

  -- From any level the loops end with a root and a proof, and the proof leads from the node to the
  -- root.
  loops_meet :
      (fuel : ℕ) (level proof : List Text) (i : ℕ) (h : Text)
      → length level ≤ fuel
      → All IsHash level
      → get_elem? level i ≡ some h
      → (root : Text) × (rest : List Text) × (root_loop keccak256 concat fuel level ≡ some root)
        × (proof_loop keccak256 concat fuel proof level i ≡ some (proof ++ rest))
        × (climb keccak256 concat h rest ≡ some root)
  unfolding root_loop proof_loop climb
  loops_meet fuel [] proof i h le ok e = absurd (ground arith)
  loops_meet zero (a ∷ level) proof i h le ok e = absurd (omega arith)
  loops_meet (suc fuel) (a ∷ []) proof zero h le ok e =
      (a, [], refl, rw (append-nil proof), ground arith)
  loops_meet (suc fuel) (a ∷ []) proof (suc i) h le ok e = absurd (ground arith)
  loops_meet (suc fuel) (a ∷ b ∷ rest) proof i h le ok e =
      let level : List Text = a ∷ b ∷ rest in
      let up = next-parent level i h ok e in
      let raised = next_level-IsHash level ok in
      let (root, more, rooted, proved, climbed) =
        loops_meet fuel (next level) (with_sibling proof level i) (i / 2) (parent level i h)
          (omega (arith, next-shorter a b rest)) (next-IsHash level ok) up in
      elim (Option-cases (get_elem? level (sibling i))) [
        | inl alone ↦
            let kept : with_sibling proof level i ≡ proof =
              with_sibling_alone proof level i alone in
            let same : parent level i h ≡ h = join_at_alone level (sibling i) h alone in
            (
              root,
              more,
              rw (raised, root_loop) rooted,
              rw (raised, proof_loop) (proved ∙ ap (λ w. some (w ++ more)) kept),
              ap (λ x. climb keccak256 concat x more) (sym same) ∙ climbed,
            )
        | inr (s, found) ↦
            let grown : with_sibling proof level i ≡ proof ++ s ∷ [] =
              with_sibling_found proof level i s found in
            let same : parent level i h ≡ node h s = join_at_found level (sibling i) h s found in
            (
              root,
              s ∷ more,
              rw (raised, root_loop) rooted,
              rw (raised, proof_loop)
                  (proved
                    ∙ ap (λ w. some (w ++ more)) grown
                    ∙ ap some (append_assoc proof (s ∷ []) more)),
              rw
                  (
                    merkle_node-IsHash h s (at_IsHash level i h ok e)
                        (at_IsHash level (sibling i) s ok found),
                    climb,
                  )
                  (ap (λ x. climb keccak256 concat x more) (sym same) ∙ climbed),
            )
      ]

  -- With a hash function that returns 32 bytes in lower-case hexadecimal: for every batch and every
  -- index in it there are a root and a proof, the loops ending on the fuel given, and the proof of
  -- the digest at that index is accepted against the root.
  pub verify_merkle_proof_complete :
      (digests : List Text) (index : ℕ) (digest : Text)
      → get_elem? digests index ≡ some digest
      → (root : Text) × (proof : List Text) × (merkle_root keccak256 concat digests ≡ some root)
        × (merkle_proof keccak256 concat digests index ≡ some proof)
        × (verify_merkle_proof keccak256 concat digest proof root ≡ some true)
  unfolding merkle_root merkle_proof verify_merkle_proof
  verify_merkle_proof_complete [] index digest e = absurd (ground arith)
  verify_merkle_proof_complete (d ∷ ds) index digest e =
      let leaf = merkle_leaf keccak256 concat in
      let (root, proof, rooted, proved, climbed) =
        loops_meet (length (d ∷ ds)) (map leaf (d ∷ ds)) [] index (leaf digest)
          (omega (arith, length-map leaf (d ∷ ds))) (leaves-IsHash (d ∷ ds))
          (get_elem?-map leaf (d ∷ ds) index e) in
      (
        root,
        proof,
        rooted,
        ground (arith, get_elem?-lt (d ∷ ds) index e),
        rw (climbed, verify_merkle_proof) (ap some (same_hex_of_eq root root refl)),
      )

-- ===== src/Pog/Content/Order.antt =====
-- Canonical JSON does not depend on the order in which members are written.
use res_ex_machina.Common.{
  ◌≡◌, ◌≢◌, refl, sym, ap, ◌∙◌, ◌⊎◌, inl, inr, true, List, [], ◌∷◌, Option, none, some, Text, arith,
}
use res_ex_machina.Pog.Content.{
  Json, array, object, Items, end, item, Members, none_left, member, text_le, insert_key, sort_keys,
  write_members, canonical_json, canonical_items, canonical_members,
}

text_le_total : (s t : Text) → (text_le s t ≡ true) ⊎ (text_le t s ≡ true)
unfolding text_le
text_le_total [] t = inl refl
text_le_total (a ∷ s) [] = inr refl
text_le_total (a ∷ s) (b ∷ t) = ground (arith, text_le_total s t)

text_le_antisym : (s t : Text) → text_le s t ≡ true → text_le t s ≡ true → s ≡ t
unfolding text_le
text_le_antisym [] [] h k = refl
text_le_antisym [] (b ∷ t) h k = absurd (ground arith)
text_le_antisym (a ∷ s) [] h k = absurd (ground arith)
text_le_antisym (a ∷ s) (b ∷ t) h k = ground (arith, text_le_antisym s t)

text_le_trans : (s t u : Text) → text_le s t ≡ true → text_le t u ≡ true → text_le s u ≡ true
unfolding text_le
text_le_trans [] t u h k = refl
text_le_trans (a ∷ s) [] u h k = absurd (ground arith)
text_le_trans (a ∷ s) (b ∷ t) [] h k = absurd (ground arith)
text_le_trans (a ∷ s) (b ∷ t) (c ∷ u) h k = ground (arith, text_le_trans s t u)

insert_key_comm :
    (m n : Text × Text) (l : List (Text × Text))
    → m.0 ≢ n.0
    → insert_key m (insert_key n l) ≡ insert_key n (insert_key m l)
unfolding insert_key
insert_key_comm m n [] apart = ground (arith, text_le_total m.0 n.0, text_le_antisym m.0 n.0)
insert_key_comm m n (x ∷ l) apart = ground (
  arith,
  text_le_total m.0 n.0,
  text_le_antisym m.0 n.0,
  text_le_trans m.0 n.0 x.0,
  text_le_trans n.0 m.0 x.0,
  insert_key_comm m n l apart,
)

-- Values, items and members that differ in the order of members with different keys at most.
mutual
  pub data SameJson : Json → Json → Type 0 where
    same : {x : Json} → SameJson x x
    arrays : {xs ys : Items} → SameItems xs ys → SameJson (array xs) (array ys)
    objects : {ms ns : Members} → SameMembers ms ns → SameJson (object ms) (object ns)

  pub data SameItems : Items → Items → Type 0 where
    ends : SameItems end end
    items :
        {x y : Json} {xs ys : Items}
        → SameJson x y
        → SameItems xs ys
        → SameItems (item x xs) (item y ys)

  pub data SameMembers : Members → Members → Type 0 where
    no_members : SameMembers none_left none_left
    members :
        {k : Text} {x y : Json} {ms ns : Members}
        → SameJson x y
        → SameMembers ms ns
        → SameMembers (member k x ms) (member k y ns)
    swapped :
        {j k : Text} {x y : Json} {ms : Members}
        → j ≢ k
        → SameMembers (member j x (member k y ms)) (member k y (member j x ms))
    twice : {ms ns os : Members} → SameMembers ms ns → SameMembers ns os → SameMembers ms os

abbrev SortSame : Option (List (Text × Text)) → Option (List (Text × Text)) → Type 0
SortSame none none = Unit
SortSame (some ms) (some ns) = sort_keys ms ≡ sort_keys ns
SortSame none (some ns) = ⊥
SortSame (some ms) none = ⊥

SortSame-refl : (ms : Option (List (Text × Text))) → SortSame ms ms
SortSame-refl none = tt
SortSame-refl (some ms) = refl

SortSame-trans :
    (ms ns os : Option (List (Text × Text))) → SortSame ms ns → SortSame ns os → SortSame ms os
SortSame-trans none none os h k = k
SortSame-trans (some ms) (some ns) (some os) h k = h ∙ k
SortSame-trans none (some ns) os h k = absurd h
SortSame-trans (some ms) none os h k = absurd h
SortSame-trans (some ms) (some ns) none h k = absurd k

-- `canonical_members` on a member, from the texts of its value and of the rest.
abbrev add_member : Text → Option Text → Option (List (Text × Text)) → Option (List (Text × Text))
add_member k none ms = none
add_member k (some t) none = none
add_member k (some t) (some ms) = some ((k, t) ∷ ms)

abbrev close_object : (Text → Text) → Option (List (Text × Text)) → Option Text
close_object quote none = none
close_object quote (some ms) = some (write_members quote ms)

SortSame-add :
    (k : Text) (t : Option Text) (ms ns : Option (List (Text × Text)))
    → SortSame ms ns
    → SortSame (add_member k t ms) (add_member k t ns)
unfolding sort_keys
SortSame-add k none ms ns h = tt
SortSame-add k (some t) none none h = tt
SortSame-add k (some t) (some ms) (some ns) h = ap (insert_key (k, t)) h
SortSame-add k (some t) none (some ns) h = absurd h
SortSame-add k (some t) (some ms) none h = absurd h

SortSame-swap :
    (j k : Text) (s t : Option Text) (ms : Option (List (Text × Text)))
    → j ≢ k
    → SortSame (add_member j s (add_member k t ms)) (add_member k t (add_member j s ms))
unfolding sort_keys
SortSame-swap j k none none ms apart = tt
SortSame-swap j k none (some t) none apart = tt
SortSame-swap j k none (some t) (some ms) apart = tt
SortSame-swap j k (some s) none ms apart = tt
SortSame-swap j k (some s) (some t) none apart = tt
SortSame-swap j k (some s) (some t) (some ms) apart =
    insert_key_comm (j, s) (k, t) (sort_keys ms) apart

close_object-same :
    (quote : Text → Text) (ms ns : Option (List (Text × Text)))
    → SortSame ms ns
    → close_object quote ms ≡ close_object quote ns
unfolding write_members
close_object-same quote none none h = refl
close_object-same quote (some ms) (some ns) h = rw h refl
close_object-same quote none (some ns) h = absurd h
close_object-same quote (some ms) none h = absurd h

module _ (quote : Text → Text) where
  canonical_members-member :
      (k : Text) (x : Json) (ms : Members)
      → canonical_members quote (member k x ms)
        ≡ add_member k (canonical_json quote x) (canonical_members quote ms)
  unfolding canonical_members
  canonical_members-member k x ms = ground arith

  canonical_json-object :
      (ms : Members)
      → canonical_json quote (object ms) ≡ close_object quote (canonical_members quote ms)
  unfolding canonical_json
  canonical_json-object ms = ground arith

  array_same :
      (xs ys : Items)
      → canonical_items quote xs ≡ canonical_items quote ys
      → canonical_json quote (array xs) ≡ canonical_json quote (array ys)
  unfolding canonical_json
  array_same xs ys h = rw h refl

  item_same :
      (x y : Json) (xs ys : Items)
      → canonical_json quote x ≡ canonical_json quote y
      → canonical_items quote xs ≡ canonical_items quote ys
      → canonical_items quote (item x xs) ≡ canonical_items quote (item y ys)
  unfolding canonical_items
  item_same x y xs ys h k = rw (h, k) refl

  mutual
    json_same : {x y : Json} → SameJson x y → canonical_json quote x ≡ canonical_json quote y
    json_same same = refl
    json_same (arrays {xs} {ys} h) = array_same xs ys (items_same h)
    json_same (objects {ms} {ns} h) =
        canonical_json-object ms
        ∙ close_object-same quote (canonical_members quote ms) (canonical_members quote ns)
            (members_same h)
        ∙ sym (canonical_json-object ns)

    items_same :
        {xs ys : Items} → SameItems xs ys → canonical_items quote xs ≡ canonical_items quote ys
    items_same ends = refl
    items_same (items {x} {y} {xs} {ys} h k) = item_same x y xs ys (json_same h) (items_same k)

    members_same :
        {ms ns : Members}
        → SameMembers ms ns
        → SortSame (canonical_members quote ms) (canonical_members quote ns)
    members_same no_members = SortSame-refl (canonical_members quote none_left)
    members_same (members {k} {x} {y} {ms} {ns} h l) =
        rw (canonical_members-member k x ms, canonical_members-member k y ns, json_same h)
          (SortSame-add k (canonical_json quote y) (canonical_members quote ms)
            (canonical_members quote ns) (members_same l))
    members_same (swapped {j} {k} {x} {y} {ms} apart) =
        rw
          (
            canonical_members-member j x (member k y ms),
            canonical_members-member k y (member j x ms),
            canonical_members-member k y ms,
            canonical_members-member j x ms,
          )
          (SortSame-swap j k (canonical_json quote x) (canonical_json quote y)
            (canonical_members quote ms) apart)
    members_same (twice {ms} {ns} {os} h l) =
        SortSame-trans (canonical_members quote ms) (canonical_members quote ns)
          (canonical_members quote os) (members_same h) (members_same l)

  -- Two JSON values that differ only in the order of members with different keys, at any depth,
  -- have the same canonical text, or fail both.
  pub canonical_json_ignores_order :
      (x y : Json) → SameJson x y → canonical_json quote x ≡ canonical_json quote y
  canonical_json_ignores_order x y h = json_same h

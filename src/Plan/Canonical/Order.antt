-- ===== src/Plan/Canonical/Order.antt =====
-- The canonical text of an object does not depend on the order of its members.
use pane_fleet.Base.{
  ◌≡◌, refl, ap, ◌∙◌, inl, inr, arith, true, false, not, Bool-cases, List, [], ◌∷◌, Text, text_eq,
  codes, ◌++◌,
}
use pane_fleet.Plan.Types.{PlanHost}
use pane_fleet.Plan.Canonical.{
  Json, json_object, Members, member, Pair, text_leb, insert_pair, sort_pairs, join, pair_texts,
  canonical_serialize, serialized_pairs, canonical_json, canonical_sha256,
}

leb-total : (s t : Text) → text_leb s t ≡ false → text_leb t s ≡ true
unfolding text_leb
leb-total [] t h = cc
leb-total (c ∷ s) [] h = refl
leb-total (c ∷ s) (d ∷ t) h = ground (arith, leb-total s t)

leb_trans : (s t u : Text) → text_leb s t ≡ true → text_leb t u ≡ true → text_leb s u ≡ true
unfolding text_leb
leb_trans [] t u h g = refl
leb_trans (c ∷ s) [] u h g = cc
leb_trans (c ∷ s) (d ∷ t) [] h g = cc
leb_trans (c ∷ s) (d ∷ t) (e ∷ u) h g = ground (arith, leb_trans s t u)

leb-antisym : (s t : Text) → text_leb s t ≡ true → text_leb t s ≡ true → text_eq s t ≡ true
unfolding text_leb text_eq
leb-antisym [] [] h g = refl
leb-antisym [] (d ∷ t) h g = cc
leb-antisym (c ∷ s) [] h g = cc
leb-antisym (c ∷ s) (d ∷ t) h g = ground (arith, leb-antisym s t)

-- Distinct keys are in one order.
leb-decides : (s t : Text) → text_eq s t ≡ false → (text_leb s t ≡ not (text_leb t s))
leb-decides s t h = ground (arith, leb-antisym s t, leb-total s t, leb-total t s)

-- What stands behind n stands behind all that n stands behind.
leb-above : (s n t : Text) → text_leb s n ≡ false → text_leb t n ≡ true → text_leb s t ≡ false
leb-above s n t h g = ground (arith, leb_trans s t n)

insert-insert :
    (p q : Pair) (pairs : List Pair)
    → text_eq p.key q.key ≡ false
    → insert_pair p (insert_pair q pairs) ≡ insert_pair q (insert_pair p pairs)
unfolding insert_pair
insert-insert p q [] distinct = elim (Bool-cases (text_leb q.key p.key)) [
  | inl e ↦ rw (leb-decides p.key q.key distinct, e) refl
  | inr e ↦ rw (leb-decides p.key q.key distinct, e) refl
]
insert-insert p q (n ∷ pairs) distinct = elim (Bool-cases (text_leb q.key n.key)) [
  | inl a ↦ elim (Bool-cases (text_leb p.key n.key)) [
    | inl b ↦ elim (Bool-cases (text_leb q.key p.key)) [
      | inl e ↦ rw (a, b, leb-decides p.key q.key distinct, e) refl
      | inr e ↦ rw (a, b, leb-decides p.key q.key distinct, e, a) refl
    ]
    | inr b ↦ rw (a, b, leb-above p.key n.key q.key b a, a) refl
  ]
  | inr a ↦ elim (Bool-cases (text_leb p.key n.key)) [
    | inl b ↦ rw (a, b, leb-above q.key n.key p.key a b, a) refl
    | inr b ↦ rw (a, b, a) (ap (λ ps. n ∷ ps) (insert-insert p q pairs distinct))
  ]
]

-- One list of members in another order: members with different keys change places.
pub data Reordered : Members → Members → Type 0 where
  kept : {m : Members} → Reordered m m
  swapped :
      {key other : Text} {value value' : Json} {rest : Members}
      → text_eq key other ≡ false
      → Reordered
          (member key value (member other value' rest))
          (member other value' (member key value rest))
  under :
      {key : Text} {value : Json} {m n : Members}
      → Reordered m n
      → Reordered (member key value m) (member key value n)
  chained : {a b c : Members} → Reordered a b → Reordered b c → Reordered a c

sort-Reordered :
    (host : PlanHost) {m n : Members}
    → Reordered m n
    → sort_pairs (serialized_pairs host m) ≡ sort_pairs (serialized_pairs host n)
unfolding sort_pairs serialized_pairs
sort-Reordered host kept = refl
sort-Reordered host (swapped distinct) = insert-insert _ _ _ distinct
sort-Reordered host (under r) = ap (insert_pair _) (sort-Reordered host r)
sort-Reordered host (chained r s) = sort-Reordered host r ∙ sort-Reordered host s

-- The canonical text of an object, and so its digest, is the same in every order of its members,
-- when members with different keys change places.
pub canonical_json-Reordered :
    (host : PlanHost) (m n : Members)
    → Reordered m n
    → (canonical_json host (json_object m) ≡ canonical_json host (json_object n))
      × (canonical_sha256 host (json_object m) ≡ canonical_sha256 host (json_object n))
unfolding canonical_json canonical_serialize canonical_sha256
canonical_json-Reordered host m n r =
    let same : canonical_json host (json_object m) ≡ canonical_json host (json_object n) =
      ap (λ pairs. codes "{" ++ join (codes ",") (pair_texts host pairs) ++ codes "}")
        (sort-Reordered host r) in
    (same, ap host.sha256 same)

-- ===== src/Api/Indexing/Retarget.antt =====
-- `retarget_default_indexes` of frvt/api/indexing/invalidation.py where two defaulted indexes move.
use versification_tool.Prelude.{
  ℕ, ◌≡◌, ◌≢◌, refl, ap, sym, ◌∙◌, inl, inr, true, false, none, List, [], ◌∷◌, map, Bool-cases,
  arith, nat_beq_iff,
}
use mathlib.Core.Path.{subst}
use mathlib.Core.List.{Memᴰ}
use mathlib.Core.List.Memᴰ
use versification_tool.Prelude.Equality.{Eq, nat_eq, pair_eq, ◌==◌, contains}
use versification_tool.Prelude.Distinct.{IsDistinct}
use versification_tool.Resolver.Types.{SchemeRef}
use versification_tool.Api.Schemes.{reply, refused, Database, batch_scheme_ref}
use versification_tool.Api.Indexing.Rows.{TranslationIndex, Tables, pair_of, clashes, is_unique}
use versification_tool.Api.Indexing.Invalidation.{to_move, retarget_row, retarget_default_indexes}
use versification_tool.Api.Indexing.Requests.{is_unique→IsDistinct}

Memᴰ-map-contains {ℓ} :
    {K : Type ℓ} ⦃e : Eq K⦄ (f : TranslationIndex → K) (rows : List TranslationIndex)
    (a : TranslationIndex) (k : K)
    → Memᴰ a rows
    → k ≡ f a
    → contains k (map f rows) ≡ true
unfolding contains
Memᴰ-map-contains f [] a k m q = elim m [ ]
Memᴰ-map-contains ⦃e⦄ f (r ∷ rows) a k m q = elim (Memᴰ.cases_cons m) [
  | inl same ↦ let here = (e.beq_iff k (f r)).1 (q ∙ ap f same) in ground (arith, here)
  | inr l ↦ ground (arith, Memᴰ-map-contains f rows a k l q)
]

-- Two members with one image are one, if the images are distinct.
IsDistinct-injective {ℓ} :
    {K : Type ℓ} ⦃e : Eq K⦄ (f : TranslationIndex → K) (rows : List TranslationIndex)
    (a b : TranslationIndex)
    → IsDistinct (map f rows)
    → Memᴰ a rows
    → Memᴰ b rows
    → f a ≡ f b
    → a ≡ b
IsDistinct-injective f [] a b d m n q = elim m [ ]
IsDistinct-injective f (r ∷ rows) a b d m n q = elim (Memᴰ.cases_cons m) [
  | inl same ↦ elim (Memᴰ.cases_cons n) [
    | inl same' ↦ same ∙ sym same'
    | inr l ↦
        let there = Memᴰ-map-contains f rows b (f r) l (sym (ap f same) ∙ q) in let gone = d.0 in cc
  ]
  | inr k ↦ elim (Memᴰ.cases_cons n) [
    | inl same' ↦
        let there = Memᴰ-map-contains f rows a (f r) k (sym (ap f same') ∙ sym q) in
        let gone = d.0 in cc
    | inr l ↦ IsDistinct-injective f rows a b d.1 k l q
  ]
]

clashes_free :
    (id : ℕ) (k : ℕ × ℕ) (rows : List TranslationIndex)
    → contains k (map pair_of rows) ≡ false
    → clashes id k rows ≡ false
unfolding clashes contains
clashes_free id k [] h = refl
clashes_free id k (row ∷ rows) h =
    let other : (pair_of row == k) ≡ false =
      ground (arith, pair_eq.beq_iff k (pair_of row), pair_eq.beq_iff (pair_of row) k, h) in
    let rest = clashes_free id k rows (ground (arith, h)) in ground (arith, other, rest)

retarget_row-pair :
    (tr sc now : ℕ) (all : List TranslationIndex) (row : TranslationIndex)
    → contains (tr, sc) (map pair_of all) ≡ false
    → to_move tr sc row ≡ true
    → pair_of (retarget_row tr sc now all row) ≡ (tr, sc)
unfolding retarget_row
retarget_row-pair tr sc now all row free moves =
    let apart = clashes_free row.id (tr, sc) all free in
    let own : row.translation_id ≡ tr = ground (arith, moves, nat_beq_iff row.translation_id tr) in
    rw (moves, apart, retarget_row) (ap (λ (t : ℕ). (t, sc)) own)

module _ {ℓ} {Translation : Type ℓ} (session : Database Translation) where
  -- Where two defaulted indexes of a translation are on other schemes than the one that it prefers
  -- now, and no index has the new pair, a retarget fails with status 500: the second query does not
  -- see what the loop has done to the first row, and the flush meets two rows of one pair.
  pub retarget_default_indexes-eq-refused :
      (tr now : ℕ) (scheme : SchemeRef) (t : Tables) (a b : TranslationIndex)
      → batch_scheme_ref session tr none ≡ reply scheme
      → Memᴰ a t.indexes
      → Memᴰ b t.indexes
      → a.id ≢ b.id
      → to_move tr scheme.scheme_id a ≡ true
      → to_move tr scheme.scheme_id b ≡ true
      → contains (tr, scheme.scheme_id) (map pair_of t.indexes) ≡ false
      → retarget_default_indexes session tr now t ≡ refused 500
  unfolding retarget_default_indexes
  retarget_default_indexes-eq-refused tr now scheme t a b e m n apart ma mb free =
      let change = retarget_row tr scheme.scheme_id now t.indexes in
      elim (Bool-cases (is_unique (map change t.indexes))) [
        | inr clash ↦ rw (e, clash) refl
        | inl fine ↦
            let distinct = is_unique→IsDistinct (map change t.indexes) fine in
            let pairs : IsDistinct (map (λ r. pair_of (change r)) t.indexes) =
              subst IsDistinct (map_map t.indexes) distinct in
            let same =
              IsDistinct-injective (λ r. pair_of (change r)) t.indexes a b pairs m n
                (retarget_row-pair tr scheme.scheme_id now t.indexes a free ma
                  ∙ sym (retarget_row-pair tr scheme.scheme_id now t.indexes b free mb)) in
            absurd (apart (ap (λ (r : TranslationIndex). r.id) same))
      ]
    where
      map_map :
          (rows : List TranslationIndex)
          → map pair_of (map (retarget_row tr scheme.scheme_id now t.indexes) rows)
            ≡ map (λ r. pair_of (retarget_row tr scheme.scheme_id now t.indexes r)) rows
      map_map [] = refl
      map_map (r ∷ rows) =
          ap (λ (l : List (ℕ × ℕ)). pair_of (retarget_row tr scheme.scheme_id now t.indexes r) ∷ l)
            (map_map rows)

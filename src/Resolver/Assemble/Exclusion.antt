-- ===== src/Resolver/Assemble/Exclusion.antt =====
-- Results of `assemble` that exclude (frvt/resolver/resolve.py).
use versification_tool.Prelude.{
  ℕ, ◌≡◌, ◌≢◌, refl, ap, sym, ◌∙◌, inl, inr, true, false, not, ◌&&◌, ◌||◌, Option, some, List, [],
  ◌∷◌, length, ltb, arith, Bool-cases, Option-cases, some_inj,
}
use mathlib.Core.Path.{subst}
use versification_tool.Prelude.Equality.{nat_eq, dedup, ◌==◌}
use versification_tool.Resolver.Types.{
  Relation, exclude, complex, VerseId, Resolution, Hop, Result, verse_eq, ok, ok_inj, >>=-eq-ok,
  relation_eq, relation_beq_iff,
}
use versification_tool.Resolver.Walk.{is_empty, is_contiguous, sort_verses}
use versification_tool.Resolver.Connect.{build_hull}
use versification_tool.Resolver.Connect.Shape.{
  IsShaped, excluded, paired, splits, merges, meshed, build_hull-IsShaped,
}
use versification_tool.Resolver.RangeHull.{
  RangeTrigger, find_range_trigger, participants_for_trigger,
}
use versification_tool.Resolver.RangeHull.Build.{
  build_range_hull, walk_all, range_result, corner_edges, escalates, values, all_targets, subset,
  Walks,
}
use versification_tool.Resolver.Assemble.{
  same_bcv_skip, lands_on_itself, normalize_same_bcv, Looped, gathered, to_hull, all_are, is_set_of,
  single_relation, gather, sized_relation, conclude, atomic_result, normal_atomic, assemble_range,
  assemble,
}

-- If the result excludes, it has no target span.
abbrev IsBare : Resolution → Type 0
IsBare r = r.relation ≡ exclude → r.target_spans ≡ []

IsBare-of_IsShaped : (r : Resolution) → IsShaped r → IsBare r
IsBare-of_IsShaped r (excluded a b c) e = b
IsBare-of_IsShaped r (paired n a b c) e = absurd (n e)
IsBare-of_IsShaped r (splits x a b c) e = cc
IsBare-of_IsShaped r (merges x a b c) e = cc
IsBare-of_IsShaped r (meshed x a b) e = cc

normalize_same_bcv-IsBare : (r : Resolution) → IsBare r → IsBare (normalize_same_bcv r)
unfolding normalize_same_bcv
normalize_same_bcv-IsBare r h e = elim (Bool-cases (same_bcv_skip r.relation)) [
  | inl t ↦ rw t (h (rw t at e))
  | inr f ↦ elim (Bool-cases (lands_on_itself r.source_spans r.target_spans)) [
    | inl l ↦ let p = rw (f, l) at e in cc
    | inr n ↦ rw (f, n) (h (rw (f, n) at e))
  ]
]

single_relation-not_exclude :
    (rs : List Relation) (x : Relation)
    → is_set_of exclude rs ≡ false
    → single_relation rs ≡ some x
    → x ≢ exclude
single_relation-not_exclude [] x f e p = cc
single_relation-not_exclude (r ∷ rs) x f e p = elim (Bool-cases (all_are r rs)) [
  | inl t ↦
      let same : r ≡ exclude = some_inj (rw t at e) ∙ p in
      let all : all_are exclude rs ≡ true = ap (λ (y : Relation). all_are y rs) (sym same) ∙ t in
      ground (arith, f, all, same, relation_beq_iff r exclude)
  | inr g ↦ let p = rw g at e in cc
]

module _ (arrange : List VerseId → List VerseId) (fuel : ℕ) (src_hops tgt_hops : List Hop) where
  sized_relation-not_exclude :
      (sources targets : List VerseId) (x : Relation)
      → x ≢ exclude
      → sized_relation sources targets x ≢ exclude
  sized_relation-not_exclude sources targets x n e = ground (arith, n, e)

  build_hull-IsBare :
      (members : List VerseId) (r : Resolution)
      → build_hull arrange src_hops tgt_hops fuel members ≡ ok r
      → IsBare r
  build_hull-IsBare members r e =
      IsBare-of_IsShaped r (build_hull-IsShaped arrange src_hops tgt_hops fuel members r e)

  conclude-IsBare :
      (members sources targets : List VerseId) (rs : List Relation) (r : Resolution)
      → conclude arrange fuel src_hops tgt_hops members sources targets rs ≡ ok r
      → IsBare r
  unfolding conclude
  conclude-IsBare members sources targets rs r e = elim (Bool-cases (is_set_of exclude rs)) [
    | inl t ↦ subst IsBare (ok_inj (rw (t, conclude) at e)) (λ p. refl)
    | inr f ↦ elim (Option-cases (single_relation rs)) [
      | inl n ↦ build_hull-IsBare members r (rw (f, n, conclude) at e)
      | inr (x, n) ↦
          elim (Bool-cases (not (is_contiguous sources) || not (is_contiguous targets))) [
            | inl g ↦ build_hull-IsBare members r (rw (f, n, g, conclude) at e)
            | inr g ↦ subst IsBare (ok_inj (rw (f, n, g, conclude) at e)) (λ p. absurd (
                sized_relation-not_exclude sources targets x (single_relation-not_exclude rs x f n)
                  p))
          ]
    ]
  ]

  atomic_result-IsBare :
      (members : List VerseId) (r : Resolution)
      → atomic_result arrange fuel src_hops tgt_hops members ≡ ok r
      → IsBare r
  unfolding atomic_result
  atomic_result-IsBare members r e =
      let (looped, gone, after) = >>=-eq-ok (gather arrange fuel src_hops tgt_hops members _) _ e in
      finish looped after
    where
      finish :
          (looped : Looped)
          → (elim looped as (λ x. Result Resolution) [
            | to_hull ↦ build_hull arrange src_hops tgt_hops fuel members
            | gathered g ↦
                conclude arrange fuel src_hops tgt_hops members
                  (sort_verses g.all_sources)
                  (sort_verses g.all_targets)
                  g.member_relations
          ])
            ≡ ok r
          → IsBare r
      finish to_hull q = build_hull-IsBare members r q
      finish (gathered g) q =
          conclude-IsBare members (sort_verses g.all_sources) (sort_verses g.all_targets)
            g.member_relations r q

  range_result-IsBare :
      (trigger : RangeTrigger) (sources targets : List VerseId) (walks : Walks)
      (found : Option Resolution) (r : Resolution)
      → range_result trigger sources targets walks ≡ ok found
      → found ≡ some r
      → IsBare r
  unfolding range_result
  range_result-IsBare trigger sources targets walks found r e p q =
      elim (Bool-cases
        (length sources == length targets && not (escalates trigger (values walks)))) [
          | inl t ↦ let none_found = ok_inj (rw (t, range_result) at e) ∙ p in cc
          | inr f ↦
              let (edges, linked, made) =
                >>=-eq-ok (corner_edges sources targets walks) _ (rw (f, range_result) at e) in
              elim (Bool-cases (escalates trigger (values walks))) [
                | inl t ↦
                    let same = some_inj (rw t at (ok_inj made ∙ p)) in
                    let rel = ap (λ (x : Resolution). x.relation) same in cc
                | inr g ↦
                    let same = some_inj (rw g at (ok_inj made ∙ p)) in
                    let rel = ap (λ (x : Resolution). x.relation) same in cc
              ]
        ]

  build_range_hull-IsBare :
      (trigger : RangeTrigger) (members : List VerseId) (found : Option Resolution) (r : Resolution)
      → build_range_hull trigger members src_hops tgt_hops ≡ ok found
      → found ≡ some r
      → IsBare r
  unfolding build_range_hull
  build_range_hull-IsBare trigger members found r e p =
      let (ps, collected, after) =
        >>=-eq-ok (participants_for_trigger trigger src_hops tgt_hops) _ e in
      elim (Bool-cases (ltb (length (dedup ps)) 2 || not (subset members ps))) [
        | inl t ↦ let none_found = ok_inj (rw t at after) ∙ p in cc
        | inr f ↦
            let (walked, climbed, next) =
              >>=-eq-ok (walk_all (sort_verses ps) src_hops tgt_hops) _ (rw f at after) in
            elim (Option-cases walked) [
              | inl n ↦ let none_found = ok_inj (rw n at next) ∙ p in cc
              | inr (walks, n) ↦
                  elim (Bool-cases (is_empty (sort_verses (all_targets (values walks))))) [
                    | inl t ↦ let none_found = ok_inj (rw (n, t) at next) ∙ p in cc
                    | inr g ↦
                        range_result-IsBare trigger (sort_verses ps)
                          (sort_verses (all_targets (values walks))) walks found r
                          (rw (n, g) at next) p
                  ]
            ]
      ]

  normal_atomic-IsBare :
      (members : List VerseId) (r : Resolution)
      → normal_atomic arrange fuel src_hops tgt_hops members ≡ ok r
      → IsBare r
  unfolding normal_atomic
  normal_atomic-IsBare members r e =
      let (m, made, same) = >>=-eq-ok (atomic_result arrange fuel src_hops tgt_hops members) _ e in
      subst IsBare (ok_inj same) (normalize_same_bcv-IsBare m (atomic_result-IsBare members m made))

  -- A result of `assemble` whose relation is `exclude` has no target span.
  pub assemble-eq-exclude :
      (members : List VerseId) (r : Resolution)
      → assemble arrange fuel src_hops tgt_hops members ≡ ok r
      → r.relation ≡ exclude
      → r.target_spans ≡ []
  unfolding assemble assemble_range
  assemble-eq-exclude members r e =
      let (found, searched, after) = >>=-eq-ok (find_range_trigger members src_hops tgt_hops) _ e in
      elim (Option-cases found) [
        | inl n ↦ normal_atomic-IsBare members r (rw n at after)
        | inr (trigger, n) ↦
            let (hull, built, next) =
              >>=-eq-ok (build_hull arrange src_hops tgt_hops fuel members) _
                (rw (n, assemble_range) at after) in
            elim (Bool-cases (hull.relation == complex)) [
              | inl t ↦ subst IsBare (ok_inj (rw t at next)) (build_hull-IsBare members hull built)
              | inr f ↦
                  let (ranged, made, last) =
                    >>=-eq-ok (build_range_hull trigger members src_hops tgt_hops) _
                      (rw f at next) in
                  elim (Option-cases ranged) [
                    | inl g ↦ normal_atomic-IsBare members r (rw g at last)
                    | inr (x, g) ↦ subst IsBare (ok_inj (rw g at last)) (
                        normalize_same_bcv-IsBare x
                          (build_range_hull-IsBare trigger members ranged x made g))
                  ]
            ]
      ]

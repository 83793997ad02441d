-- ===== src/Resolver/Connect/Shape.antt =====
-- The shape of the result of `build_hull` (frvt/resolver/resolve.py).
use versification_tool.Prelude.{
  ℕ, ◌≤◌, ◌<◌, ◌≡◌, ◌≢◌, refl, sym, ◌∙◌, inl, inr, List, [], ◌∷◌, map, length, length-map, leb, ltb,
  arith, Bool-cases, ◌&&◌,
}
use mathlib.Core.Path.{subst}
use mathlib.Core.List.{Memᴰ, reverse}
use mathlib.Core.List.Memᴰ
use versification_tool.Prelude.Equality.{nat_eq, ◌==◌}
use versification_tool.Resolver.Types.{
  Relation, split, merge, exclude, complex, VerseId, Resolution, ResolutionEdge, Hop, ok, ok_inj,
  >>=-eq-ok,
}
use versification_tool.Resolver.Walk.{sort_verses, to_span}
use versification_tool.Resolver.Hull.{Hull, explore}
use versification_tool.Resolver.Connect.{
  no_edges, edges_through, pair_relation, plain, complex_result, connect, build_hull, sources_or,
}
use versification_tool.Resolver.Connect.Pairs.{pair_relation-not_exclude}
use versification_tool.Resolver.Connect.Edges.{IsExplained, NoRepeat, ends, edges_through-no_edges}

-- The relation of a hull, from how many spans each side has.
pub data IsShaped (r : Resolution) : Type 0 where
  excluded : r.relation ≡ exclude → r.target_spans ≡ [] → r.edges ≡ [] → IsShaped r
  paired :
      r.relation ≢ exclude
      → length r.source_spans ≤ 1
      → length r.target_spans ≡ 1
      → r.edges ≡ []
      → IsShaped r
  splits :
      r.relation ≡ split
      → length r.source_spans ≡ 1
      → 1 < length r.target_spans
      → r.edges ≡ []
      → IsShaped r
  merges :
      r.relation ≡ merge
      → 1 < length r.source_spans
      → length r.target_spans ≡ 1
      → r.edges ≡ []
      → IsShaped r
  meshed : r.relation ≡ complex → length r.source_spans ≢ 1 → 1 < length r.target_spans → IsShaped r

module _ (arrange : List VerseId → List VerseId) (src_hops tgt_hops : List Hop) where
  -- What each branch returns.
  data Outcome (members sources targets pivots : List VerseId) (r : Resolution) : Type 0 where
    no_target :
        targets ≡ []
        → plain (sources_or sources members) [] exclude ≡ r
        → Outcome members sources targets pivots r
    one_pair :
        (x : Relation)
        → x ≢ exclude
        → length sources ≤ 1
        → length targets ≡ 1
        → plain sources targets x ≡ r
        → Outcome members sources targets pivots r
    one_source :
        length sources ≡ 1
        → 1 < length targets
        → plain sources targets split ≡ r
        → Outcome members sources targets pivots r
    one_target :
        1 < length sources
        → length targets ≡ 1
        → plain sources targets merge ≡ r
        → Outcome members sources targets pivots r
    many :
        length sources ≢ 1
        → 1 < length targets
        → complex_result arrange src_hops tgt_hops sources targets pivots ≡ ok r
        → Outcome members sources targets pivots r

  connect-Outcome :
      (members sources targets pivots : List VerseId) (r : Resolution)
      → connect arrange src_hops tgt_hops members sources targets pivots ≡ ok r
      → Outcome members sources targets pivots r
  unfolding connect
  connect-Outcome members sources [] pivots r e = no_target refl (ok_inj e)
  connect-Outcome members sources (t ∷ ts) pivots r e =
      elim (Bool-cases (leb (length sources) 1 && leb (length (t ∷ ts)) 1)) [
        | inl a ↦
            let (x, found, made) =
              >>=-eq-ok (pair_relation arrange src_hops tgt_hops sources (arrange pivots) (t ∷ ts))
                _ (rw (a, connect) at e) in
            one_pair x
              (pair_relation-not_exclude arrange src_hops tgt_hops sources (arrange pivots) (t ∷ ts)
                x found)
              (ground (arith, a)) (ground (arith, a)) (ok_inj made)
        | inr f ↦ elim (Bool-cases (length sources == 1 && ltb 1 (length (t ∷ ts)))) [
          | inl a ↦
              one_source (ground (arith, a)) (ground (arith, a)) (ok_inj (rw (f, a, connect) at e))
          | inr g ↦ elim (Bool-cases (ltb 1 (length sources) && length (t ∷ ts) == 1)) [
            | inl a ↦
                one_target (ground (arith, a)) (ground (arith, a))
                  (ok_inj (rw (f, g, a, connect) at e))
            | inr h ↦
                many (λ l. ground (arith, f, g, h, l)) (ground (arith, f, g, h))
                  (rw (f, g, h, connect) at e)
          ]
        ]
      ]

  spans-length : (vs : List VerseId) (n : ℕ) → length vs ≡ n → length (map to_span vs) ≡ n
  spans-length vs n e = length-map to_span vs ∙ e

  Outcome-IsShaped :
      (members sources targets pivots : List VerseId) (r : Resolution)
      → Outcome members sources targets pivots r
      → IsShaped r
  unfolding complex_result
  Outcome-IsShaped members sources targets pivots r (no_target n e) =
      subst IsShaped e (excluded refl refl refl)
  Outcome-IsShaped members sources targets pivots r (one_pair x proper a b e) =
      subst IsShaped e (
        paired proper (omega (arith, length-map to_span sources, a)) (spans-length targets 1 b)
          refl)
  Outcome-IsShaped members sources targets pivots r (one_source a b e) =
      subst IsShaped e
        (splits refl (spans-length sources 1 a) (omega (arith, length-map to_span targets, b)) refl)
  Outcome-IsShaped members sources targets pivots r (one_target a b e) =
      subst IsShaped e
        (merges refl (omega (arith, length-map to_span sources, a)) (spans-length targets 1 b) refl)
  Outcome-IsShaped members sources targets pivots r (many a b e) =
      let (g, linked, made) =
        >>=-eq-ok
          (edges_through arrange src_hops tgt_hops sources targets (arrange pivots) no_edges) _ e in
      subst IsShaped (ok_inj made) (
        meshed refl (λ l. a (sym (length-map to_span sources) ∙ l))
          (omega (arith, length-map to_span targets, b)))

  -- The edges of the result are explained by the sources, targets and pivots, and no pair recurs.
  pub record IsMeshed (sources targets pivots : List VerseId) (r : Resolution) : Type 0 where
    pub target_spans : r.target_spans ≡ map to_span targets
    pub explained :
        (x : ResolutionEdge)
        → Memᴰ x r.edges
        → IsExplained arrange src_hops tgt_hops sources targets (arrange pivots) x
    pub distinct : NoRepeat (reverse (map ends r.edges))

  plain-IsMeshed :
      (some_sources sources targets pivots : List VerseId) (x : Relation)
      → IsMeshed sources targets pivots (plain some_sources targets x)
  plain-IsMeshed some_sources sources targets pivots x = record {
    target_spans = refl;
    explained = λ y q. absurd (Memᴰ.not-nil q);
    distinct = tt;
  }

  Outcome-IsMeshed :
      (members sources targets pivots : List VerseId) (r : Resolution)
      → Outcome members sources targets pivots r
      → IsMeshed sources targets pivots r
  unfolding complex_result
  Outcome-IsMeshed members sources targets pivots r (no_target n e) =
      subst (IsMeshed sources targets pivots) e (
        subst
          (λ (ts : List VerseId).
            IsMeshed sources ts pivots (plain (sources_or sources members) [] exclude))
          (sym n) (plain-IsMeshed (sources_or sources members) sources [] pivots exclude))
  Outcome-IsMeshed members sources targets pivots r (one_pair x proper a b e) =
      subst (IsMeshed sources targets pivots) e (plain-IsMeshed sources sources targets pivots x)
  Outcome-IsMeshed members sources targets pivots r (one_source a b e) =
      subst (IsMeshed sources targets pivots) e
        (plain-IsMeshed sources sources targets pivots split)
  Outcome-IsMeshed members sources targets pivots r (one_target a b e) =
      subst (IsMeshed sources targets pivots) e
        (plain-IsMeshed sources sources targets pivots merge)
  Outcome-IsMeshed members sources targets pivots r (many a b e) =
      let (g, linked, made) =
        >>=-eq-ok
          (edges_through arrange src_hops tgt_hops sources targets (arrange pivots) no_edges) _ e in
      let found =
        edges_through-no_edges arrange src_hops tgt_hops sources targets (arrange pivots) g
          linked in
      subst (IsMeshed sources targets pivots) (ok_inj made) (record {
        target_spans = refl;
        explained = found.explained;
        distinct = subst NoRepeat (sym found.seen) found.distinct;
      })

  -- A hull's relation agrees with how many spans it has on each side: it excludes only without
  -- targets, relates a pair by no exclusion, splits one source into several targets, merges several sources into one target, and is
  -- complex only with several targets and not one source. Only a complex hull has edges.
  pub build_hull-IsShaped :
      (fuel : ℕ) (members : List VerseId) (r : Resolution)
      → build_hull arrange src_hops tgt_hops fuel members ≡ ok r
      → IsShaped r
  unfolding build_hull
  build_hull-IsShaped fuel members r e =
      let (h, explored, made) = >>=-eq-ok (explore arrange src_hops tgt_hops fuel members) _ e in
      Outcome-IsShaped members (sort_verses h.sources) (sort_verses h.targets) h.pivots r
        (connect-Outcome members (sort_verses h.sources) (sort_verses h.targets) h.pivots r made)

  -- A hull's target spans are the sorted targets of the worklist. Each of its edges joins the sorted
  -- source and target at its indices, which a pivot of the worklist leads to, and has the relation of
  -- the path through this pivot; no pair of indices recurs.
  pub build_hull-IsMeshed :
      (fuel : ℕ) (members : List VerseId) (r : Resolution)
      → build_hull arrange src_hops tgt_hops fuel members ≡ ok r
      → (h : Hull) × (explore arrange src_hops tgt_hops fuel members ≡ ok h)
        × IsMeshed (sort_verses h.sources) (sort_verses h.targets) h.pivots r
  unfolding build_hull
  build_hull-IsMeshed fuel members r e =
      let (h, explored, made) = >>=-eq-ok (explore arrange src_hops tgt_hops fuel members) _ e in
      (
        h,
        explored,
        Outcome-IsMeshed members (sort_verses h.sources) (sort_verses h.targets) h.pivots r (
            connect-Outcome members (sort_verses h.sources) (sort_verses h.targets) h.pivots r
              made),
      )

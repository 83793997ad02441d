-- ===== src/Resolver/Connect.antt =====
-- The result of `build_hull` of frvt/resolver/resolve.py, from the sets that the worklist fills.
pub mod Edges
pub mod Shape
pub mod Unordered
pub mod Pairs
pub mod Total
use versification_tool.Prelude.{
  ℕ, suc, ◌+◌, Bool, true, false, ◌&&◌, Option, none, some, List, [], ◌∷◌, ◌++◌, map, length, leb,
  ltb, if◌then◌else◌,
}
use versification_tool.Prelude.Equality.{contains, nat_eq, pair_eq, ◌==◌}
use versification_tool.Resolver.Types.{
  Relation, one_to_one, split, merge, exclude, complex, VerseId, ResolutionEdge, Resolution, Hop,
  Result, ok, ◌>>=◌, verse_eq,
}
use versification_tool.Resolver.Compose.{dominant_relation}
use versification_tool.Resolver.Walk.{
  sort_verses, to_span, Legs, src_of_pivot, down_set, edge_legs, edge_relation,
}
use versification_tool.Resolver.Hull.{Hull, explore}

-- `{v: i for i, v in enumerate(vs)}[v]`, from an index on; no entry is `none`. A sorted set has no
-- repeats.
unfoldable pub position : VerseId → List VerseId → ℕ → Option ℕ
position v [] i = none
position v (w ∷ vs) i = let later = position v vs (i + 1) in if v == w then some i else later

-- What the loop over the edges gathers.
pub record Edging : Type 0 where
  pub edges : List ResolutionEdge
  pub up_rels : List Relation
  pub down_rels : List Relation
  pub seen_edge : List (ℕ × ℕ)

abbrev pub no_edges : Edging
no_edges = record { edges = []; up_rels = []; down_rels = []; seen_edge = [] }

-- A result without edges.
abbrev pub plain : List VerseId → List VerseId → Relation → Resolution
plain source_list target_list relation = record {
  source_spans = map to_span source_list;
  target_spans = map to_span target_list;
  relation = relation;
  edges = [];
  source_rel = none;
  target_rel = none;
}

-- `source_list or members`
abbrev pub sources_or : List VerseId → List VerseId → List VerseId
sources_or [] members = members
sources_or (v ∷ vs) members = v ∷ vs

module _ (arrange : List VerseId → List VerseId) (src_hops tgt_hops : List Hop) where
  module _ (source_list target_list : List VerseId) where
    -- The rest of the loop's body, once both verses have their index.
    unfoldable pub add_edge : VerseId → VerseId → VerseId → ℕ → ℕ → Edging → Result Edging
    add_edge source pivot target i j g =
        let labelled = edge_legs source pivot target src_hops tgt_hops >>= λ legs. ok (record {
          edges =
              g.edges
              ++ (record { source_index = i; target_index = j; relation = legs.composed } ∷ []);
          up_rels = g.up_rels ++ (legs.up_rel ∷ []);
          down_rels = g.down_rels ++ (legs.down_rel ∷ []);
          seen_edge = (i, j) ∷ g.seen_edge;
        }) in
        if contains (i, j) g.seen_edge then ok g else labelled

    -- `for target in down_set(pivot, tgt_hops):`
    unfoldable pub edges_to : VerseId → VerseId → ℕ → List VerseId → Edging → Result Edging
    edges_to source pivot i [] g = ok g
    edges_to source pivot i (target ∷ targets) g =
        (elim (position target target_list 0) as (λ x. Result Edging) [
          | none ↦ ok g
          | some j ↦ add_edge source pivot target i j g
        ])
        >>= λ next. edges_to source pivot i targets next

    -- `for source in src_of_pivot(pivot, src_hops):`
    unfoldable pub edges_from : VerseId → List VerseId → Edging → Result Edging
    edges_from pivot [] g = ok g
    edges_from pivot (source ∷ sources) g =
        (elim (position source source_list 0) as (λ x. Result Edging) [
          | none ↦ ok g
          | some i ↦
              down_set pivot tgt_hops >>= λ targets. edges_to source pivot i (arrange targets) g
        ])
        >>= λ next. edges_from pivot sources next

    -- `for pivot in pivots:`
    unfoldable pub edges_through : List VerseId → Edging → Result Edging
    edges_through [] g = ok g
    edges_through (pivot ∷ pivots) g = src_of_pivot pivot src_hops >>= λ sources.
        edges_from pivot (arrange sources) g >>= λ next. edges_through pivots next

  -- The relation of a single pair; `next(iter(pivots))` is the first pivot that is read.
  unfoldable pub pair_relation : List VerseId → List VerseId → List VerseId → Result Relation
  pair_relation (source ∷ sources) (pivot ∷ pivots) (target ∷ targets) =
      edge_relation source pivot target src_hops tgt_hops
  pair_relation _ _ _ = ok one_to_one

  unfoldable pub complex_result : List VerseId → List VerseId → List VerseId → Result Resolution
  complex_result source_list target_list pivots =
      edges_through source_list target_list (arrange pivots) no_edges >>= λ g. ok (record {
        source_spans = map to_span source_list;
        target_spans = map to_span target_list;
        relation = complex;
        edges = g.edges;
        source_rel = dominant_relation g.up_rels;
        target_rel = dominant_relation g.down_rels;
      })

  unfoldable pub connect :
      List VerseId → List VerseId → List VerseId → List VerseId → Result Resolution
  unfolding pair_relation complex_result
  connect members source_list [] pivots = ok (plain (sources_or source_list members) [] exclude)
  connect members source_list (t ∷ ts) pivots =
      let single = pair_relation source_list (arrange pivots) (t ∷ ts) >>= λ r.
      ok (plain source_list (t ∷ ts) r) in
      let many = complex_result source_list (t ∷ ts) pivots in
      if leb (length source_list) 1 && leb (length (t ∷ ts)) 1
      then single
      else if length source_list == 1 && ltb 1 (length (t ∷ ts))
      then ok (plain source_list (t ∷ ts) split)
      else if ltb 1 (length source_list) && length (t ∷ ts) == 1
      then ok (plain source_list (t ∷ ts) merge)
      else many

  unfoldable pub build_hull : ℕ → List VerseId → Result Resolution
  build_hull fuel members = explore arrange src_hops tgt_hops fuel members >>= λ h.
      connect members (sort_verses h.sources) (sort_verses h.targets) h.pivots

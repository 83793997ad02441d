-- ===== src/Resolver/Connect/Edges.antt =====
-- The loop over the edges of `build_hull` (frvt/resolver/resolve.py).
use versification_tool.Prelude.{
  ℕ, suc, ◌+◌, ◌≡◌, refl, ap, sym, ◌∙◌, false, some, List, [], ◌∷◌, map, map-append, arith,
  Bool-cases, Option-cases, get_elem?, some_inj, inl, inr,
}
use mathlib.Core.Logic.{⊎_elim}
use mathlib.Core.Path.{subst}
use mathlib.Core.List.{Memᴰ, reverse, reverse-append}
use mathlib.Core.List.Memᴰ
use versification_tool.Prelude.Equality.{contains, nat_eq, pair_eq, ◌==◌}
use versification_tool.Resolver.Types.{
  VerseId, ResolutionEdge, Hop, ok, ok_inj, >>=-eq-ok, verse_eq, verse_beq_iff,
}
use versification_tool.Resolver.Walk.{Legs, src_of_pivot, down_set, edge_legs}
use versification_tool.Resolver.Connect.{
  position, Edging, no_edges, add_edge, edges_to, edges_from, edges_through,
}

position-eq-some :
    (v : VerseId) (vs : List VerseId) (i j : ℕ)
    → position v vs i ≡ some j
    → (k : ℕ) × (j ≡ i + k) × (get_elem? vs k ≡ some v)
unfolding position
position-eq-some v [] i j h = cc
position-eq-some v (w ∷ vs) i j h = elim (Bool-cases (v == w)) [
  | inl t ↦
      let e = some_inj (rw (t, position) at h) in
      (0, omega arith, ap some (sym ((verse_beq_iff v w).0 t)))
  | inr f ↦
      let (k, e, found) = position-eq-some v vs (i + 1) j (rw (f, position) at h) in
      (suc k, omega arith, found)
]

position_at :
    (v : VerseId) (vs : List VerseId) (j : ℕ) → position v vs 0 ≡ some j → get_elem? vs j ≡ some v
position_at v vs j h =
    let (k, e, found) = position-eq-some v vs 0 j h in ap (get_elem? vs) (e ∙ omega arith) ∙ found

-- Pairs, none of which recurs.
abbrev pub NoRepeat : List (ℕ × ℕ) → Type 0
NoRepeat [] = Unit
NoRepeat (p ∷ ps) = (contains p ps ≡ false) × NoRepeat ps

abbrev pub ends : ResolutionEdge → ℕ × ℕ
ends e = (e.source_index, e.target_index)

module _ (arrange : List VerseId → List VerseId) (src_hops tgt_hops : List Hop)
    (source_list target_list pivots : List VerseId) where
  -- The edge joins the source and the target that its indices name; a pivot leads to both, and the
  -- relation is that of the path through the pivot.
  pub record IsExplained (e : ResolutionEdge) : Type 0 where
    pub source : VerseId
    pub pivot : VerseId
    pub target : VerseId
    pub sources : List VerseId
    pub targets : List VerseId
    pub legs : Legs
    pub at_source : get_elem? source_list e.source_index ≡ some source
    pub at_target : get_elem? target_list e.target_index ≡ some target
    pub through : Memᴰ pivot pivots
    pub climbs : (src_of_pivot pivot src_hops ≡ ok sources) × Memᴰ source (arrange sources)
    pub descends : (down_set pivot tgt_hops ≡ ok targets) × Memᴰ target (arrange targets)
    pub labelled : edge_legs source pivot target src_hops tgt_hops ≡ ok legs
    pub relation : e.relation ≡ legs.composed

  -- Every edge is explained, and no pair recurs among the edges.
  pub record IsEdging (g : Edging) : Type 0 where
    pub explained : (e : ResolutionEdge) → Memᴰ e g.edges → IsExplained e
    pub seen : reverse (map ends g.edges) ≡ g.seen_edge
    pub distinct : NoRepeat g.seen_edge

  module _ (pivot : VerseId) (p : Memᴰ pivot pivots) where
    module _ (source : VerseId) (sources : List VerseId) (i : ℕ)
        (at_source : get_elem? source_list i ≡ some source)
        (climbs : (src_of_pivot pivot src_hops ≡ ok sources) × Memᴰ source (arrange sources))
        (targets : List VerseId) (descends : down_set pivot tgt_hops ≡ ok targets) where
      add_edge-IsEdging :
          (target : VerseId) (j : ℕ) (g g' : Edging)
          → IsEdging g
          → get_elem? target_list j ≡ some target
          → Memᴰ target (arrange targets)
          → add_edge arrange src_hops tgt_hops source_list target_list source pivot target i j g
            ≡ ok g'
          → IsEdging g'
      unfolding add_edge
      add_edge-IsEdging target j g g' h at_target m e =
          elim (Bool-cases (contains (i, j) g.seen_edge)) [
            | inl t ↦ subst IsEdging (ok_inj (rw (t, add_edge) at e)) h
            | inr f ↦
                let (legs, labelled, made) =
                  >>=-eq-ok (edge_legs source pivot target src_hops tgt_hops) _
                    (rw (f, add_edge) at e) in
                let edge : ResolutionEdge = record {
                  source_index = i;
                  target_index = j;
                  relation = legs.composed;
                } in
                let new : IsExplained edge = record {
                  source = source;
                  pivot = pivot;
                  target = target;
                  sources = sources;
                  targets = targets;
                  legs = legs;
                  at_source = at_source;
                  at_target = at_target;
                  through = p;
                  climbs = climbs;
                  descends = (descends, m);
                  labelled = labelled;
                  relation = refl;
                } in
                subst IsEdging (ok_inj made) (record {
                  explained = λ x q.
                      ⊎_elim (h.explained x)
                        (λ r. subst IsExplained (sym (Memᴰ.eq_of_singleton r)) new)
                        (Memᴰ.append_cases g.edges q);
                  seen =
                      ap reverse (map-append ends g.edges (edge ∷ []))
                      ∙ reverse-append (map ends g.edges) (ends edge ∷ [])
                      ∙ ap (◌∷◌ (i, j)) h.seen;
                  distinct = (f, h.distinct);
                })
          ]

      edges_to-IsEdging :
          (ts : List VerseId) (g g' : Edging)
          → ((t : VerseId) → Memᴰ t ts → Memᴰ t (arrange targets))
          → IsEdging g
          → edges_to arrange src_hops tgt_hops source_list target_list source pivot i ts g ≡ ok g'
          → IsEdging g'
      unfolding edges_to
      edges_to-IsEdging [] g g' inside h e = subst IsEdging (ok_inj e) h
      edges_to-IsEdging (t ∷ ts) g g' inside h e = elim (Option-cases (position t target_list 0)) [
        | inl n ↦
            edges_to-IsEdging ts g g' (λ u q. inside u (Memᴰ.tail q)) h (rw (n, edges_to) at e)
        | inr (j, n) ↦
            let (next, added, rest) =
              >>=-eq-ok
                (add_edge arrange src_hops tgt_hops source_list target_list source pivot t i j g) _
                (rw (n, edges_to) at e) in
            edges_to-IsEdging ts next g' (λ u q. inside u (Memᴰ.tail q))
              (add_edge-IsEdging t j g next h (position_at t target_list j n)
                (inside t (Memᴰ.head refl)) added)
              rest
      ]

    edges_from-IsEdging :
        (sources ss : List VerseId) (g g' : Edging)
        → src_of_pivot pivot src_hops ≡ ok sources
        → ((s : VerseId) → Memᴰ s ss → Memᴰ s (arrange sources))
        → IsEdging g
        → edges_from arrange src_hops tgt_hops source_list target_list pivot ss g ≡ ok g'
        → IsEdging g'
    unfolding edges_from
    edges_from-IsEdging sources [] g g' climbs inside h e = subst IsEdging (ok_inj e) h
    edges_from-IsEdging sources (s ∷ ss) g g' climbs inside h e =
        elim (Option-cases (position s source_list 0)) [
          | inl n ↦
              edges_from-IsEdging sources ss g g' climbs (λ u q. inside u (Memᴰ.tail q)) h
                (rw (n, edges_from) at e)
          | inr (i, n) ↦
              let (next, added, rest) = >>=-eq-ok _ _ (rw (n, edges_from) at e) in
              let (targets, descends, joined) = >>=-eq-ok (down_set pivot tgt_hops) _ added in
              edges_from-IsEdging sources ss next g' climbs (λ u q. inside u (Memᴰ.tail q))
                (edges_to-IsEdging s sources i (position_at s source_list i n)
                  (climbs, inside s (Memᴰ.head refl)) targets descends (arrange targets) g next
                  (λ t q. q) h joined)
                rest
        ]

  edges_through-IsEdging :
      (ps : List VerseId) (g g' : Edging)
      → ((p : VerseId) → Memᴰ p ps → Memᴰ p pivots)
      → IsEdging g
      → edges_through arrange src_hops tgt_hops source_list target_list ps g ≡ ok g'
      → IsEdging g'
  unfolding edges_through
  edges_through-IsEdging [] g g' inside h e = subst IsEdging (ok_inj e) h
  edges_through-IsEdging (p ∷ ps) g g' inside h e =
      let (sources, climbs, after) = >>=-eq-ok (src_of_pivot p src_hops) _ e in
      let (next, joined, rest) = >>=-eq-ok _ _ after in
      edges_through-IsEdging ps next g' (λ u q. inside u (Memᴰ.tail q))
        (edges_from-IsEdging p (inside p (Memᴰ.head refl)) sources (arrange sources) g next climbs
          (λ s q. q) h joined)
        rest

  -- The edges that are gathered over a list of pivots are explained, and no pair recurs.
  pub edges_through-no_edges :
      (g : Edging)
      → edges_through arrange src_hops tgt_hops source_list target_list pivots no_edges ≡ ok g
      → IsEdging g
  edges_through-no_edges g e =
      edges_through-IsEdging pivots no_edges g (λ p q. q)
        (record { explained = λ x q. absurd (Memᴰ.not-nil q); seen = refl; distinct = tt }) e

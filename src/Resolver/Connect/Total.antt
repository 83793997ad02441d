-- ===== src/Resolver/Connect/Total.antt =====
-- The calls of `build_hull` (frvt/resolver/resolve.py) on hops of well-formed rows.
use versification_tool.Prelude.{
  ℕ, ◌+◌, ◌≤◌, ◌≡◌, refl, ap, ◌∙◌, inl, inr, Bool, true, false, ◌&&◌, Option, List, [], ◌∷◌, length,
  leb, ltb, Bool-cases, Option-cases,
}
use mathlib.Core.List.{Memᴰ, reverse}
use versification_tool.Prelude.Equality.{contains, nat_eq, pair_eq, ◌==◌}
use versification_tool.Prelude.Texts.{Text}
use versification_tool.Resolver.Types.{
  Relation, split, merge, VerseId, RefRange, MappingView, Resolution, Hop, Result, ok, ◌>>=◌,
}
use versification_tool.Resolver.Cover.Total.{IsWellFormed, project_verse-ok}
use versification_tool.Resolver.Cover.Spans.{IsSpanned}
use versification_tool.Resolver.Walk.{
  Walk, Legs, absorb, project_all, is_empty, walk_hop, walk_hops, sort_verses, start_walk,
  apply_hops_forward, apply_hops_downward, reached, down_set, src_of_pivot, edge_legs,
  edge_relation,
}
use versification_tool.Resolver.Walk.Total.{AreGood, Memᴰ-reverse}
use versification_tool.Resolver.Hull.{explore}
use versification_tool.Resolver.Hull.Terminates.{remaining}
use versification_tool.Resolver.Hull.Universe.{nodes, explore_terminates}
use versification_tool.Resolver.Connect.{
  position, Edging, no_edges, add_edge, edges_to, edges_from, edges_through, pair_relation,
  complex_result, plain, connect, build_hull,
}

>>=-returns {κ ℓ} :
    {X : Type κ} {Y : Type ℓ} (m : Result X) (step : X → Result Y)
    → (x : X) × (m ≡ ok x)
    → ((x : X) → (y : Y) × (step x ≡ ok y))
    → (y : Y) × ((m >>= step) ≡ ok y)
>>=-returns m step (x, e) h = let (y, q) = h x in (y, ap (λ (t : Result _). t >>= step) e ∙ q)

-- Every row of every hop is well formed.
abbrev AreFormed : List Hop → Type 0
AreFormed hops =
    (hop : Hop) → Memᴰ hop hops → (row : MappingView) → Memᴰ row hop.mappings → IsWellFormed row

project_all-ok :
    (up : Bool) (rows : List MappingView) (vs : List VerseId) (w : Walk)
    → ((row : MappingView) → Memᴰ row rows → IsWellFormed row)
    → (w' : Walk) × (project_all up rows vs w ≡ ok w')
unfolding project_all
project_all-ok up rows [] w h = (w, refl)
project_all-ok up rows (v ∷ vs) w h =
    let (p, e) = project_verse-ok v rows up h in
    let (w', q) = project_all-ok up rows vs (absorb w p) h in (w', rw (e, project_all) q)

walk_hops-ok :
    (up : Bool) (hops : List Hop) (w : Walk)
    → AreFormed hops
    → (w' : Walk) × (walk_hops up hops w ≡ ok w')
unfolding walk_hops walk_hop
walk_hops-ok up [] w h = (w, refl)
walk_hops-ok up (hop ∷ hops) w h =
    let (g, e) =
      project_all-ok up hop.mappings w.verses (record w { verses = [] }) (h hop (Memᴰ.head refl)) in
    let next : Walk = record g { verses = sort_verses g.verses } in
    let (w', q) = walk_hops-ok up hops next (λ x m. h x (Memᴰ.tail m)) in
    elim (Bool-cases (next.excluded && is_empty next.verses)) [
      | inl t ↦ (next, rw (e, t, walk_hops))
      | inr f ↦ (w', rw (e, f, walk_hops) q)
    ]

forward-ok :
    (vs : List VerseId) (hops : List Hop)
    → AreFormed hops
    → (w : Walk) × (apply_hops_forward vs hops ≡ ok w)
unfolding apply_hops_forward
forward-ok vs hops h =
    >>=-returns (walk_hops true hops (start_walk vs)) _ (walk_hops-ok true hops (start_walk vs) h)
      (λ w. (_, refl))

downward-ok :
    (vs : List VerseId) (hops : List Hop)
    → AreFormed hops
    → (w : Walk) × (apply_hops_downward vs hops ≡ ok w)
unfolding apply_hops_downward
downward-ok vs hops h =
    >>=-returns (walk_hops false hops (start_walk vs)) _ (walk_hops-ok false hops (start_walk vs) h)
      (λ w. (_, refl))

AreFormed-reverse : (hops : List Hop) → AreFormed hops → AreFormed (reverse hops)
AreFormed-reverse hops h hop m = h hop (Memᴰ-reverse hops hop m)

down_set-ok :
    (v : VerseId) (hops : List Hop)
    → AreFormed hops
    → (vs : List VerseId) × (down_set v hops ≡ ok vs)
unfolding down_set
down_set-ok v hops h = let (w, e) = downward-ok (v ∷ []) hops h in (reached w, rw (e, down_set))

src_of_pivot-ok :
    (v : VerseId) (hops : List Hop)
    → AreFormed hops
    → (vs : List VerseId) × (src_of_pivot v hops ≡ ok vs)
unfolding src_of_pivot
src_of_pivot-ok v hops h = down_set-ok v (reverse hops) (AreFormed-reverse hops h)

edge_legs-ok :
    (s p t : VerseId) (src_hops tgt_hops : List Hop)
    → AreFormed src_hops
    → AreFormed tgt_hops
    → (l : Legs) × (edge_legs s p t src_hops tgt_hops ≡ ok l)
unfolding edge_legs
edge_legs-ok s p t src_hops tgt_hops h k =
    >>=-returns (apply_hops_forward (s ∷ []) src_hops) _ (forward-ok (s ∷ []) src_hops h) (λ up.
      >>=-returns (apply_hops_downward (p ∷ []) tgt_hops) _ (downward-ok (p ∷ []) tgt_hops k)
        (λ down. (_, refl)))

module _ (arrange : List VerseId → List VerseId) (src_hops tgt_hops : List Hop)
    (src : AreFormed src_hops) (tgt : AreFormed tgt_hops) where
  module _ (source_list target_list : List VerseId) where
    add_edge-ok :
        (s p t : VerseId) (i j : ℕ) (g : Edging)
        → (g' : Edging) × (add_edge arrange src_hops tgt_hops source_list target_list s p t i j g
            ≡ ok g')
    unfolding add_edge
    add_edge-ok s p t i j g = elim (Bool-cases (contains (i, j) g.seen_edge)) [
      | inl b ↦ (g, rw (b, add_edge))
      | inr b ↦
          rw (b, add_edge)
            (>>=-returns (edge_legs s p t src_hops tgt_hops) _
              (edge_legs-ok s p t src_hops tgt_hops src tgt) (λ l. (_, refl)))
    ]

    edges_to-ok :
        (s p : VerseId) (i : ℕ) (ts : List VerseId) (g : Edging)
        → (g' : Edging) × (edges_to arrange src_hops tgt_hops source_list target_list s p i ts g
            ≡ ok g')
    unfolding edges_to
    edges_to-ok s p i [] g = (g, refl)
    edges_to-ok s p i (t ∷ ts) g = elim (Option-cases (position t target_list 0)) [
      | inl n ↦ let (g', q) = edges_to-ok s p i ts g in (g', rw (n, edges_to) q)
      | inr (j, n) ↦
          let (next, e) = add_edge-ok s p t i j g in
          let (g', q) = edges_to-ok s p i ts next in (g', rw (n, e, edges_to) q)
    ]

    edges_from-ok :
        (p : VerseId) (ss : List VerseId) (g : Edging)
        → (g' : Edging) × (edges_from arrange src_hops tgt_hops source_list target_list p ss g
            ≡ ok g')
    unfolding edges_from
    edges_from-ok p [] g = (g, refl)
    edges_from-ok p (s ∷ ss) g = elim (Option-cases (position s source_list 0)) [
      | inl n ↦ let (g', q) = edges_from-ok p ss g in (g', rw (n, edges_from) q)
      | inr (i, n) ↦
          let (ts, d) = down_set-ok p tgt_hops tgt in
          let (next, e) = edges_to-ok s p i (arrange ts) g in
          let (g', q) = edges_from-ok p ss next in (g', rw (n, d, e, edges_from) q)
    ]

    edges_through-ok :
        (ps : List VerseId) (g : Edging)
        → (g' : Edging) × (edges_through arrange src_hops tgt_hops source_list target_list ps g
            ≡ ok g')
    unfolding edges_through
    edges_through-ok [] g = (g, refl)
    edges_through-ok (p ∷ ps) g =
        let (ss, d) = src_of_pivot-ok p src_hops src in
        let (next, e) = edges_from-ok p (arrange ss) g in
        let (g', q) = edges_through-ok ps next in (g', rw (d, e, edges_through) q)

  pair_relation-ok :
      (ss ps ts : List VerseId)
      → (x : Relation) × (pair_relation arrange src_hops tgt_hops ss ps ts ≡ ok x)
  unfolding pair_relation edge_relation
  pair_relation-ok [] ps ts = (_, refl)
  pair_relation-ok (s ∷ ss) [] ts = (_, refl)
  pair_relation-ok (s ∷ ss) (p ∷ ps) [] = (_, refl)
  pair_relation-ok (s ∷ ss) (p ∷ ps) (t ∷ ts) =
      >>=-returns (edge_legs s p t src_hops tgt_hops) _
        (edge_legs-ok s p t src_hops tgt_hops src tgt) (λ l. (_, refl))

  complex_result-ok :
      (ss ts ps : List VerseId)
      → (r : Resolution) × (complex_result arrange src_hops tgt_hops ss ts ps ≡ ok r)
  unfolding complex_result
  complex_result-ok ss ts ps =
      >>=-returns (edges_through arrange src_hops tgt_hops ss ts (arrange ps) no_edges) _
        (edges_through-ok ss ts (arrange ps) no_edges) (λ g. (_, refl))

  connect-ok :
      (members ss ts ps : List VerseId)
      → (r : Resolution) × (connect arrange src_hops tgt_hops members ss ts ps ≡ ok r)
  unfolding connect
  connect-ok members ss [] ps = (_, refl)
  connect-ok members ss (t ∷ ts) ps =
      elim (Bool-cases (leb (length ss) 1 && leb (length (t ∷ ts)) 1)) [
        | inl a ↦
            rw (a, connect)
              (>>=-returns (pair_relation arrange src_hops tgt_hops ss (arrange ps) (t ∷ ts)) _
                (pair_relation-ok ss (arrange ps) (t ∷ ts)) (λ x. (_, refl)))
        | inr f ↦ elim (Bool-cases (length ss == 1 && ltb 1 (length (t ∷ ts)))) [
          | inl a ↦ (plain ss (t ∷ ts) split, rw (f, a, connect))
          | inr g ↦ elim (Bool-cases (ltb 1 (length ss) && length (t ∷ ts) == 1)) [
            | inl a ↦ (plain ss (t ∷ ts) merge, rw (f, g, a, connect))
            | inr h ↦ rw (f, g, h, connect) (complex_result-ok ss (t ∷ ts) ps)
          ]
        ]
      ]

module _ (ranges : List RefRange) (parts : List (Option Text))
    (arrange : List VerseId → List VerseId) (src_hops tgt_hops : List Hop)
    (reads : (vs : List VerseId) (v : VerseId) → Memᴰ v (arrange vs) → Memᴰ v vs)
    (src : AreGood ranges parts src_hops) (tgt : AreGood ranges parts tgt_hops) where
  -- Where the rows of all hops are well formed and listed, the members lie in the listed ranges and
  -- parts, and the fuel counts the members and what each node can append once, a hull is returned.
  pub build_hull-ok :
      (fuel : ℕ) (members : List VerseId)
      → ((v : VerseId) → Memᴰ v members → IsSpanned ranges parts v)
      → length members + remaining arrange src_hops tgt_hops (nodes ranges parts) [] ≤ fuel
      → (r : Resolution) × (build_hull arrange src_hops tgt_hops fuel members ≡ ok r)
  unfolding build_hull
  build_hull-ok fuel members inside low =
      >>=-returns (explore arrange src_hops tgt_hops fuel members) _
        (explore_terminates ranges parts arrange src_hops tgt_hops reads src tgt fuel members inside
          low)
        (λ h.
          connect-ok arrange src_hops tgt_hops (λ x m row q. (src x m row q).0)
            (λ x m row q. (tgt x m row q).0) members (sort_verses h.sources) (sort_verses h.targets)
            h.pivots)

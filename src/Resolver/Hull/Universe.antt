-- ===== src/Resolver/Hull/Universe.antt =====
-- The finitely many nodes that a hull can meet, read off the hops and the members.
use versification_tool.Prelude.{
  ℕ, ◌+◌, ◌≤◌, ◌≡◌, refl, sym, Option, List, [], ◌∷◌, ◌++◌, map, inl, inr, length, Memᴰ-of-map,
}
use mathlib.Core.Logic.{⊎_elim}
use mathlib.Core.Path.{subst}
use mathlib.Core.List.{Memᴰ}
use mathlib.Core.List.Memᴰ
use versification_tool.Prelude.Texts.{Text}
use versification_tool.Resolver.Types.{VerseId, RefRange, Hop, ok}
use versification_tool.Resolver.Reference.{covers, expand}
use versification_tool.Resolver.Reference.RoundTrip.{expand_iff}
use versification_tool.Resolver.Cover.{with_part}
use versification_tool.Resolver.Cover.Merge.{parts_of, Memᴰ-parts_of}
use versification_tool.Resolver.Cover.Spans.{IsSpanned}
use versification_tool.Resolver.Walk.Total.{
  AreGood, up_set-Spanned, down_set-Spanned, src_of_pivot-Spanned, piv_of_target-Spanned,
}
use versification_tool.Resolver.Hull.{
  Kind, source, pivot, target, Node, node, Hull, neighbours, explore,
}
use versification_tool.Resolver.Hull.Terminates.{remaining, IsClosed, explore-returns}

flat_map {ℓ κ} : {A : Type ℓ} {B : Type κ} → (A → List B) → List A → List B
flat_map f [] = []
flat_map f (x ∷ xs) = f x ++ flat_map f xs

Memᴰ-flat_map {ℓ κ} :
    {A : Type ℓ} {B : Type κ} (f : A → List B) (xs : List A) (x : A) (b : B)
    → Memᴰ x xs
    → Memᴰ b (f x)
    → Memᴰ b (flat_map f xs)
unfolding flat_map
Memᴰ-flat_map f [] x b m k = elim m [ ]
Memᴰ-flat_map f (y ∷ xs) x b m k = elim (Memᴰ.cases_cons m) [
  | inl e ↦ Memᴰ.append_left (flat_map f xs) (subst (λ t. Memᴰ b (f t)) e k)
  | inr q ↦ Memᴰ.append_right (f y) (Memᴰ-flat_map f xs x b q k)
]

Memᴰ-of-flat_map {ℓ κ} :
    {A : Type ℓ} {B : Type κ} (f : A → List B) (xs : List A) (b : B)
    → Memᴰ b (flat_map f xs)
    → (x : A) × Memᴰ x xs × Memᴰ b (f x)
unfolding flat_map
Memᴰ-of-flat_map f [] b m = elim m [ ]
Memᴰ-of-flat_map f (x ∷ xs) b m = elim (Memᴰ.append_cases (f x) m) [
  | inl q ↦ (x, Memᴰ.head refl, q)
  | inr q ↦ let (y, k, r) = Memᴰ-of-flat_map f xs b q in (y, Memᴰ.tail k, r)
]

module _ (ranges : List RefRange) (parts : List (Option Text)) where
  -- Every verse of a range with every part.
  pub universe : List VerseId
  universe = flat_map (λ r. flat_map (parts_of r) parts) ranges

  universe_complete : (v : VerseId) → IsSpanned ranges parts v → Memᴰ v universe
  unfolding universe
  universe_complete v h =
      Memᴰ-flat_map (λ r. flat_map (parts_of r) parts) ranges h.span v h.member
        (Memᴰ-flat_map (parts_of h.span) parts v.part v h.part (Memᴰ-parts_of h.span v h.covered))

  universe_sound : (v : VerseId) → Memᴰ v universe → IsSpanned ranges parts v
  unfolding universe covers
  universe_sound v m =
      let (r, k, inside) = Memᴰ-of-flat_map (λ r. flat_map (parts_of r) parts) ranges v m in
      let (p, l, at_part) = Memᴰ-of-flat_map (parts_of r) parts v inside in
      let (u, q, e) = Memᴰ-of-map (with_part p) (expand r) v at_part in
      let spanned : IsSpanned ranges parts (with_part p u) = record {
        span = r;
        member = k;
        covered = ((expand_iff r u).0 q).0;
        part = l;
      } in
      subst (IsSpanned ranges parts) (sym e) spanned

  pub nodes : List Node
  nodes = map (node source) universe ++ (map (node pivot) universe ++ map (node target) universe)

  nodes_complete : (k : Kind) (v : VerseId) → IsSpanned ranges parts v → Memᴰ (node k v) nodes
  unfolding nodes
  nodes_complete source v h = Memᴰ.append_left _ (Memᴰ.map (node source) (universe_complete v h))
  nodes_complete pivot v h =
      Memᴰ.append_right (map (node source) universe)
        (Memᴰ.append_left _ (Memᴰ.map (node pivot) (universe_complete v h)))
  nodes_complete target v h = Memᴰ.append_right (map (node source) universe) (
      Memᴰ.append_right (map (node pivot) universe)
        (Memᴰ.map (node target) (universe_complete v h)))

  of_kind : (k : Kind) (n : Node) → Memᴰ n (map (node k) universe) → IsSpanned ranges parts n.verse
  of_kind k n m =
      let (v, q, e) = Memᴰ-of-map (node k) universe n m in
      subst (λ (t : Node). IsSpanned ranges parts t.verse) (sym e) (universe_sound v q)

  nodes_sound : (n : Node) → Memᴰ n nodes → IsSpanned ranges parts n.verse
  unfolding nodes
  nodes_sound n m =
      ⊎_elim (of_kind source n)
        (λ q.
          ⊎_elim (of_kind pivot n) (of_kind target n)
            (Memᴰ.append_cases (map (node pivot) universe) q))
        (Memᴰ.append_cases (map (node source) universe) m)

  module _ (arrange : List VerseId → List VerseId) (src_hops tgt_hops : List Hop)
      (reads : (vs : List VerseId) (v : VerseId) → Memᴰ v (arrange vs) → Memᴰ v vs)
      (src : AreGood ranges parts src_hops) (tgt : AreGood ranges parts tgt_hops) where
    arranged :
        (k : Kind) (vs : List VerseId) (n : Node)
        → ((v : VerseId) → Memᴰ v vs → IsSpanned ranges parts v)
        → Memᴰ n (map (node k) (arrange vs))
        → Memᴰ n nodes
    arranged k vs n h m =
        let (v, q, e) = Memᴰ-of-map (node k) (arrange vs) n m in
        subst (λ (t : Node). Memᴰ t nodes) (sym e) (nodes_complete k v (h v (reads vs v q)))

    closed_at :
        (k : Kind) (v : VerseId)
        → IsSpanned ranges parts v
        → (ns : List Node) × (neighbours arrange src_hops tgt_hops (node k v) ≡ ok ns)
          × ((m : Node) → Memᴰ m ns → Memᴰ m nodes)
    unfolding neighbours
    closed_at source v h =
        let (ps, e, all) = up_set-Spanned ranges parts v src_hops src h in
        (map (node pivot) (arrange ps), rw (e, neighbours), λ m q. arranged pivot ps m all q)
    closed_at pivot v h =
        let (ss, e, all) = src_of_pivot-Spanned ranges parts v src_hops src h in
        let (ts, e', all') = down_set-Spanned ranges parts v tgt_hops tgt h in
        (
          map (node source) (arrange ss) ++ map (node target) (arrange ts),
          rw (e, e', neighbours),
          λ m q.
              ⊎_elim (arranged source ss m all) (arranged target ts m all')
                (Memᴰ.append_cases (map (node source) (arrange ss)) q),
        )
    closed_at target v h =
        let (ps, e, all) = piv_of_target-Spanned ranges parts v tgt_hops tgt h in
        (map (node pivot) (arrange ps), rw (e, neighbours), λ m q. arranged pivot ps m all q)

    pub nodes-IsClosed : IsClosed arrange src_hops tgt_hops nodes
    nodes-IsClosed n m = closed_at n.kind n.verse (nodes_sound n m)

    -- The worklist runs empty within the cost of the nodes that can be met.
    pub explore_terminates :
        (fuel : ℕ) (members : List VerseId)
        → ((v : VerseId) → Memᴰ v members → IsSpanned ranges parts v)
        → length members + remaining arrange src_hops tgt_hops nodes [] ≤ fuel
        → (h : Hull) × (explore arrange src_hops tgt_hops fuel members ≡ ok h)
    explore_terminates fuel members inside low =
        explore-returns arrange src_hops tgt_hops nodes nodes-IsClosed fuel members
          (λ v m. nodes_complete source v (inside v m)) low

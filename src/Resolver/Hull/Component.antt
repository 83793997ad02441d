-- ===== src/Resolver/Hull/Component.antt =====
-- The sets of the worklist of `build_hull`, and the verses that are linked to the members.
use versification_tool.Prelude.{
  ℕ, zero, suc, ◌≡◌, refl, ap, sym, ◌∙◌, ◌↔◌, ◌⊎◌, List, [], ◌∷◌, map, inl, inr, Bool-cases,
  Memᴰ-of-map,
}
use mathlib.Core.Logic.{⊎_elim}
use mathlib.Core.Path.{subst}
use mathlib.Core.List.{Memᴰ}
use mathlib.Core.List.Memᴰ
use versification_tool.Prelude.Equality.{contains, contains→Memᴰ}
use versification_tool.Resolver.Types.{VerseId, Hop, ok, ok_inj, >>=-eq-ok}
use versification_tool.Resolver.Hull.{
  Kind, source, pivot, target, Node, node, node_eq, Hull, no_hull, add, visit, push_all, neighbours,
  hull_loop, explore,
}
use versification_tool.Resolver.Hull.Terminates.{Memᴰ-push_all, Memᴰ→Memᴰ-push_all, seen-visit}

-- The set of a kind.
abbrev pub set_of : Kind → Hull → List VerseId
set_of source h = h.sources
set_of pivot h = h.pivots
set_of target h = h.targets

-- Each set holds the seen verses of its kind.
abbrev IsSorted : Hull → Type 0
IsSorted h = (k : Kind) (v : VerseId) → Memᴰ v (set_of k h) ↔ Memᴰ (node k v) h.seen

kinds_differ :
    (j k : Kind) (v w : VerseId) (ns : List Node)
    → (node j v ≡ node k w → ⊥)
    → Memᴰ (node j v) (node k w ∷ ns) ↔ Memᴰ (node j v) ns
kinds_differ j k v w ns n =
    (λ m. ⊎_elim (λ e. absurd (n e)) (λ q. q) (Memᴰ.cases_cons m), Memᴰ.tail)

same_kind :
    (k : Kind) (v w : VerseId) (vs : List VerseId) (ns : List Node)
    → Memᴰ v vs ↔ Memᴰ (node k v) ns
    → Memᴰ v (w ∷ vs) ↔ Memᴰ (node k v) (node k w ∷ ns)
same_kind k v w vs ns i = (
  λ m. ⊎_elim (λ e. Memᴰ.head (ap (node k) e)) (λ q. Memᴰ.tail (i.0 q)) (Memᴰ.cases_cons m),
  λ m.
      ⊎_elim (λ e. Memᴰ.head (ap (λ (n : Node). n.verse) e)) (λ q. Memᴰ.tail (i.1 q))
        (Memᴰ.cases_cons m),
)

other_kind :
    (j k : Kind) (v w : VerseId) (vs : List VerseId) (ns : List Node)
    → (node j v ≡ node k w → ⊥)
    → Memᴰ v vs ↔ Memᴰ (node j v) ns
    → Memᴰ v vs ↔ Memᴰ (node j v) (node k w ∷ ns)
other_kind j k v w vs ns n i =
    let d = kinds_differ j k v w ns n in (λ m. d.1 (i.0 m), λ m. i.1 (d.0 m))

add-IsSorted : (k : Kind) (w : VerseId) (h : Hull) → IsSorted h → IsSorted (add k w h)
unfolding add
add-IsSorted source w h i source v = same_kind source v w h.sources h.seen (i source v)
add-IsSorted source w h i pivot v =
    other_kind pivot source v w h.pivots h.seen (λ e. cc) (i pivot v)
add-IsSorted source w h i target v =
    other_kind target source v w h.targets h.seen (λ e. cc) (i target v)
add-IsSorted pivot w h i source v =
    other_kind source pivot v w h.sources h.seen (λ e. cc) (i source v)
add-IsSorted pivot w h i pivot v = same_kind pivot v w h.pivots h.seen (i pivot v)
add-IsSorted pivot w h i target v =
    other_kind target pivot v w h.targets h.seen (λ e. cc) (i target v)
add-IsSorted target w h i source v =
    other_kind source target v w h.sources h.seen (λ e. cc) (i source v)
add-IsSorted target w h i pivot v =
    other_kind pivot target v w h.pivots h.seen (λ e. cc) (i pivot v)
add-IsSorted target w h i target v = same_kind target v w h.targets h.seen (i target v)

module _ (arrange : List VerseId → List VerseId) (src_hops tgt_hops : List Hop)
    (members : List VerseId) where
  -- The nodes that are linked to a member: a source to the pivots that it climbs to, a pivot to the
  -- sources that lead to it and to the targets that it descends to, a target to its pivots.
  pub data Linked : Node → Type 0 where
    member : {v : VerseId} → Memᴰ v members → Linked (node source v)
    link :
        {n m : Node} {ns : List Node}
        → Linked n
        → neighbours arrange src_hops tgt_hops n ≡ ok ns
        → Memᴰ m ns
        → Linked m

  record Inv (stack : List Node) (h : Hull) : Type 0 where
    waiting : (n : Node) → Memᴰ n stack → Linked n
    met : (n : Node) → Memᴰ n h.seen → Linked n
    first :
        (v : VerseId) → Memᴰ v members → Memᴰ (node source v) h.seen ⊎ Memᴰ (node source v) stack
    closed :
        (n m : Node) (ns : List Node)
        → Memᴰ n h.seen
        → neighbours arrange src_hops tgt_hops n ≡ ok ns
        → Memᴰ m ns
        → Memᴰ m h.seen ⊎ Memᴰ m stack
    sorts : IsSorted h

  module _ (n : Node) (stack : List Node) (h : Hull) (i : Inv (n ∷ stack) h) where
    Inv-skip : Memᴰ n h.seen → Inv stack h
    Inv-skip m = record {
      waiting = λ x q. i.waiting x (Memᴰ.tail q);
      met = i.met;
      first = λ v q. drop_top (node source v) (i.first v q);
      closed = λ x y ns q e r. drop_top y (i.closed x y ns q e r);
      sorts = i.sorts;
    }
      where
        drop_top : (x : Node) → Memᴰ x h.seen ⊎ Memᴰ x (n ∷ stack) → Memᴰ x h.seen ⊎ Memᴰ x stack
        drop_top x (inl q) = inl q
        drop_top x (inr q) =
            ⊎_elim (λ e. inl (subst (λ (t : Node). Memᴰ t h.seen) (sym e) m)) inr
              (Memᴰ.cases_cons q)

    module _ (ns : List Node) (next : neighbours arrange src_hops tgt_hops n ≡ ok ns) where
      moved :
          (x : Node)
          → Memᴰ x h.seen ⊎ Memᴰ x (n ∷ stack)
          → Memᴰ x (n ∷ h.seen) ⊎ Memᴰ x (push_all ns stack)
      moved x (inl q) = inl (Memᴰ.tail q)
      moved x (inr q) =
          ⊎_elim (λ e. inl (Memᴰ.head e))
            (λ r. inr (Memᴰ→Memᴰ-push_all ns stack x (Memᴰ.append_right ns r))) (Memᴰ.cases_cons q)

      closed_after :
          (x y : Node) (ms : List Node)
          → (x ≡ n) ⊎ Memᴰ x h.seen
          → neighbours arrange src_hops tgt_hops x ≡ ok ms
          → Memᴰ y ms
          → Memᴰ y (n ∷ h.seen) ⊎ Memᴰ y (push_all ns stack)
      closed_after x y ms (inr q) e r = moved y (i.closed x y ms q e r)
      closed_after x y ms (inl p) e r =
          let same : ms ≡ ns =
            ok_inj (sym e ∙ ap (neighbours arrange src_hops tgt_hops) p ∙ next) in
          inr (Memᴰ→Memᴰ-push_all ns stack y (Memᴰ.append_left stack (subst (Memᴰ y) same r)))

      Inv-visit : Inv (push_all ns stack) (visit n h)
      unfolding visit
      Inv-visit =
          let here = i.waiting n (Memᴰ.head refl) in
          record {
            waiting = λ x q.
                ⊎_elim (λ r. link here next r) (λ r. i.waiting x (Memᴰ.tail r))
                  (Memᴰ.append_cases ns (Memᴰ-push_all ns stack x q));
            met = λ x q.
                ⊎_elim (λ e. subst Linked (sym e) here) (i.met x)
                  (Memᴰ.cases_cons (subst (Memᴰ x) (seen-visit n h) q));
            first = λ v q. rw (seen-visit n h) (moved (node source v) (i.first v q));
            closed = λ x y ms q e r.
                rw (seen-visit n h)
                  (closed_after x y ms (Memᴰ.cases_cons (subst (Memᴰ x) (seen-visit n h) q)) e r);
            sorts = add-IsSorted n.kind n.verse h i.sorts;
          }

  hull_loop-Inv :
      (fuel : ℕ) (stack : List Node) (h h' : Hull)
      → Inv stack h
      → hull_loop arrange src_hops tgt_hops fuel stack h ≡ ok h'
      → Inv [] h'
  unfolding hull_loop
  hull_loop-Inv zero [] h h' i e = subst (Inv []) (ok_inj e) i
  hull_loop-Inv (suc fuel) [] h h' i e = subst (Inv []) (ok_inj e) i
  hull_loop-Inv zero (n ∷ stack) h h' i e = cc
  hull_loop-Inv (suc fuel) (n ∷ stack) h h' i e = elim (Bool-cases (contains n h.seen)) [
    | inl t ↦
        hull_loop-Inv fuel stack h h' (Inv-skip n stack h i (contains→Memᴰ n h.seen t))
          (rw (t, hull_loop) at e)
    | inr f ↦
        let (ns, next, rest) =
          >>=-eq-ok (neighbours arrange src_hops tgt_hops n) _ (rw (f, hull_loop) at e) in
        hull_loop-Inv fuel (push_all ns stack) (visit n h) h' (Inv-visit n stack h i ns next) rest
  ]

  all_met : (h : Hull) → Inv [] h → {n : Node} → Linked n → Memᴰ n h.seen
  all_met h i (member m) = ⊎_elim (λ q. q) (λ q. absurd (Memᴰ.not-nil q)) (i.first _ m)
  all_met h i (link {n} {m} {ns} l e q) =
      ⊎_elim (λ r. r) (λ r. absurd (Memᴰ.not-nil r)) (i.closed n m ns (all_met h i l) e q)

  start_Inv : Inv (push_all (map (node source) members) []) no_hull
  start_Inv = record {
    waiting = λ n q.
        ⊎_elim (of_member n) (λ r. absurd (Memᴰ.not-nil r))
          (Memᴰ.append_cases (map (node source) members)
            (Memᴰ-push_all (map (node source) members) [] n q));
    met = λ n q. absurd (Memᴰ.not-nil q);
    first = λ v q. inr (
        Memᴰ→Memᴰ-push_all (map (node source) members) [] (node source v)
          (Memᴰ.append_left [] (Memᴰ.map (node source) q)));
    closed = λ n m ns q e r. absurd (Memᴰ.not-nil q);
    sorts = λ k v. (λ q. absurd (nothing_in k q), λ q. absurd (Memᴰ.not-nil q));
  }
    where
      of_member : (n : Node) → Memᴰ n (map (node source) members) → Linked n
      of_member n r =
          let (v, m, e) = Memᴰ-of-map (node source) members n r in subst Linked (sym e) (member m)

      nothing_in : (k : Kind) {v : VerseId} → Memᴰ v (set_of k no_hull) → ⊥
      nothing_in source q = Memᴰ.not-nil q
      nothing_in pivot q = Memᴰ.not-nil q
      nothing_in target q = Memᴰ.not-nil q

  -- When the worklist has run empty, the sources, pivots and targets are exactly the verses that are
  -- linked to a member as such.
  pub explore-Linked :
      (fuel : ℕ) (h : Hull) (k : Kind) (v : VerseId)
      → explore arrange src_hops tgt_hops fuel members ≡ ok h
      → Memᴰ v (set_of k h) ↔ Linked (node k v)
  unfolding explore
  explore-Linked fuel h k v e =
      let i = hull_loop-Inv fuel (push_all (map (node source) members) []) no_hull h start_Inv e in
      (λ m. i.met (node k v) ((i.sorts k v).0 m), λ l. (i.sorts k v).1 (all_met h i l))

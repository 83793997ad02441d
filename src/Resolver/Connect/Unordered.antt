-- ===== src/Resolver/Connect/Unordered.antt =====
-- `build_hull` (frvt/resolver/resolve.py) and the order in which Python reads a set.
use versification_tool.Prelude.{ℕ, ◌≡◌, sym, ◌↔◌, List, ◌++◌, map, Memᴰ-of-map}
use mathlib.Core.Logic.{⊎_elim}
use mathlib.Core.Path.{subst}
use mathlib.Core.List.{Memᴰ}
use mathlib.Core.List.Memᴰ
use versification_tool.Resolver.Types.{VerseId, Hop, ok, ok_inj, >>=-eq-ok}
use versification_tool.Resolver.Walk.{sort_verses, up_set, down_set, src_of_pivot, piv_of_target}
use versification_tool.Resolver.Walk.Order.{HasNoEmptyPart, sort_verses_unique}
use versification_tool.Resolver.Hull.{
  Kind, source, pivot, target, Node, node, Hull, neighbours, explore,
}
use versification_tool.Resolver.Hull.Component.{set_of, Linked, explore-Linked}

-- An order in which sets are read: it keeps the members.
abbrev pub IsOrder : (List VerseId → List VerseId) → Type 0
IsOrder arrange = (vs : List VerseId) (v : VerseId) → Memᴰ v (arrange vs) ↔ Memᴰ v vs

module _ (one other : List VerseId → List VerseId) (src_hops tgt_hops : List Hop)
    (keeps : IsOrder one) (keeps' : IsOrder other) where
  Memᴰ-arranged :
      (k : Kind) (vs : List VerseId) (n : Node)
      → Memᴰ n (map (node k) (one vs))
      → Memᴰ n (map (node k) (other vs))
  Memᴰ-arranged k vs n m =
      let (v, q, e) = Memᴰ-of-map (node k) (one vs) n m in
      subst (λ (t : Node). Memᴰ t (map (node k) (other vs))) (sym e)
        (Memᴰ.map (node k) ((keeps' vs v).1 ((keeps vs v).0 q)))

  same_neighbours :
      (k : Kind) (v : VerseId) (ns : List Node)
      → neighbours one src_hops tgt_hops (node k v) ≡ ok ns
      → (ns' : List Node) × (neighbours other src_hops tgt_hops (node k v) ≡ ok ns')
        × ((m : Node) → Memᴰ m ns → Memᴰ m ns')
  unfolding neighbours
  same_neighbours source v ns e =
      let (ps, climbed, made) = >>=-eq-ok (up_set v src_hops) _ e in
      (
        map (node pivot) (other ps),
        rw (climbed, neighbours),
        λ m q. Memᴰ-arranged pivot ps m (subst (Memᴰ m) (sym (ok_inj made)) q),
      )
  same_neighbours pivot v ns e =
      let (ss, climbed, after) = >>=-eq-ok (src_of_pivot v src_hops) _ e in
      let (ts, descended, made) = >>=-eq-ok (down_set v tgt_hops) _ after in
      (
        map (node source) (other ss) ++ map (node target) (other ts),
        rw (climbed, descended, neighbours),
        λ m q.
            ⊎_elim (λ r. Memᴰ.append_left _ (Memᴰ-arranged source ss m r))
              (λ r. Memᴰ.append_right (map (node source) (other ss)) (Memᴰ-arranged target ts m r))
              (Memᴰ.append_cases (map (node source) (one ss))
                (subst (Memᴰ m) (sym (ok_inj made)) q)),
      )
  same_neighbours target v ns e =
      let (ps, climbed, made) = >>=-eq-ok (piv_of_target v tgt_hops) _ e in
      (
        map (node pivot) (other ps),
        rw (climbed, neighbours),
        λ m q. Memᴰ-arranged pivot ps m (subst (Memᴰ m) (sym (ok_inj made)) q),
      )

  Linked-arranged :
      (members : List VerseId) {n : Node}
      → Linked one src_hops tgt_hops members n
      → Linked other src_hops tgt_hops members n
  Linked-arranged members (Linked.member m) = Linked.member m
  Linked-arranged members (Linked.link {n} {m} {ns} l e q) =
      let (ns', e', all) = same_neighbours n.kind n.verse ns e in
      Linked.link (Linked-arranged members l) e' (all m q)

module _ (one other : List VerseId → List VerseId) (src_hops tgt_hops : List Hop)
    (keeps : IsOrder one) (keeps' : IsOrder other) where
  -- Two runs that return, each with its own fuel and its own order of reading sets, fill the sets of
  -- a kind with verses that sort to the same list, if none of the verses has an empty part.
  pub explore_unordered :
      (fuel fuel' : ℕ) (members : List VerseId) (h h' : Hull) (k : Kind)
      → explore one src_hops tgt_hops fuel members ≡ ok h
      → explore other src_hops tgt_hops fuel' members ≡ ok h'
      → HasNoEmptyPart (set_of k h)
      → sort_verses (set_of k h) ≡ sort_verses (set_of k h')
  explore_unordered fuel fuel' members h h' k e e' none_empty =
      sort_verses_unique (set_of k h) (set_of k h') none_empty
        (λ v m. (explore-Linked other src_hops tgt_hops members fuel' h' k v e').1 (
          Linked-arranged one other src_hops tgt_hops keeps keeps' members
            ((explore-Linked one src_hops tgt_hops members fuel h k v e).0 m)))
        (λ v m. (explore-Linked one src_hops tgt_hops members fuel h k v e).1 (
          Linked-arranged other one src_hops tgt_hops keeps' keeps members
            ((explore-Linked other src_hops tgt_hops members fuel' h' k v e').0 m)))

-- ===== src/Resolver/Hull/Terminates.antt =====
-- The fuel of the worklist of `build_hull`.
use versification_tool.Prelude.{
  ℕ, zero, suc, ◌+◌, ◌≤◌, ◌≡◌, refl, sym, false, List, [], ◌∷◌, ◌++◌, map, inl, inr, Bool-cases,
  arith, length, if◌then◌else◌, Memᴰ-of-map, length-map,
}
use mathlib.Core.Logic.{⊎_elim}
use mathlib.Core.Path.{subst}
use mathlib.Core.List.{Memᴰ}
use mathlib.Core.List.Memᴰ
use versification_tool.Prelude.Equality.{contains}
use versification_tool.Resolver.Types.{VerseId, Hop, Result, ok, raised}
use versification_tool.Resolver.Hull.{
  Kind, source, pivot, target, Node, node, node_eq, node_beq_iff, Hull, no_hull, add, visit,
  push_all, neighbours, hull_loop, explore,
}

push_all-length : (ns stack : List Node) → length (push_all ns stack) ≡ length ns + length stack
unfolding push_all
push_all-length [] stack = omega arith
push_all-length (n ∷ ns) stack = omega (arith, push_all-length ns (n ∷ stack))

pub Memᴰ-push_all :
    (ns stack : List Node) (x : Node) → Memᴰ x (push_all ns stack) → Memᴰ x (ns ++ stack)
unfolding push_all
Memᴰ-push_all [] stack x m = m
Memᴰ-push_all (n ∷ ns) stack x m =
    ⊎_elim (λ q. Memᴰ.tail (Memᴰ.append_left stack q))
      (λ q. ⊎_elim Memᴰ.head (λ r. Memᴰ.tail (Memᴰ.append_right ns r)) (Memᴰ.cases_cons q))
      (Memᴰ.append_cases ns (Memᴰ-push_all ns (n ∷ stack) x m))

pub Memᴰ→Memᴰ-push_all :
    (ns stack : List Node) (x : Node) → Memᴰ x (ns ++ stack) → Memᴰ x (push_all ns stack)
unfolding push_all
Memᴰ→Memᴰ-push_all [] stack x m = m
Memᴰ→Memᴰ-push_all (n ∷ ns) stack x m = Memᴰ→Memᴰ-push_all ns (n ∷ stack) x (
    ⊎_elim (λ e. Memᴰ.append_right ns (Memᴰ.head e))
      (λ q.
        ⊎_elim (Memᴰ.append_left (n ∷ stack)) (λ r. Memᴰ.append_right ns (Memᴰ.tail r))
          (Memᴰ.append_cases ns q))
      (Memᴰ.cases_cons m))

seen-add : (k : Kind) (v : VerseId) (h : Hull) → (add k v h).seen ≡ node k v ∷ h.seen
unfolding add
seen-add source v h = refl
seen-add pivot v h = refl
seen-add target v h = refl

pub seen-visit : (n : Node) (h : Hull) → (visit n h).seen ≡ n ∷ h.seen
unfolding visit
seen-visit n h = seen-add n.kind n.verse h

module _ (arrange : List VerseId → List VerseId) (src_hops tgt_hops : List Hop) where
  -- A node costs its own round, and one for each node that it appends.
  cost_of : Result (List Node) → ℕ
  cost_of (ok ns) = suc (length ns)
  cost_of (raised e) = 1

  pub cost : Node → ℕ
  unfolding cost_of
  cost n = cost_of (neighbours arrange src_hops tgt_hops n)

  -- The cost of the nodes of a list that are not seen.
  pub remaining : List Node → List Node → ℕ
  unfolding cost
  remaining [] seen = 0
  remaining (u ∷ us) seen =
      let rest = remaining us seen in if contains u seen then rest else cost u + rest

  remaining-cons_le :
      (us : List Node) (n : Node) (seen : List Node) → remaining us (n ∷ seen) ≤ remaining us seen
  unfolding remaining contains
  remaining-cons_le [] n seen = omega arith
  remaining-cons_le (u ∷ us) n seen = ground (arith, remaining-cons_le us n seen)

  -- To see a node of the list pays for it.
  remaining-cons :
      (us : List Node) (n : Node) (seen : List Node)
      → Memᴰ n us
      → contains n seen ≡ false
      → remaining us (n ∷ seen) + cost n ≤ remaining us seen
  unfolding remaining contains
  remaining-cons [] n seen m f = elim m [ ]
  remaining-cons (u ∷ us) n seen m f = elim (Memᴰ.cases_cons m) [
    | inl e ↦
        subst (λ (t : Node). remaining (t ∷ us) (n ∷ seen) + cost n ≤ remaining (t ∷ us) seen) e
          (ground (arith, remaining-cons_le us n seen, node_beq_iff n n, f))
    | inr q ↦ ground (arith, remaining-cons us n seen q f)
  ]

  -- A list of nodes that holds the neighbours of its nodes, all of which can be computed.
  abbrev pub IsClosed : List Node → Type 0
  IsClosed us =
      (n : Node)
      → Memᴰ n us
      → (ns : List Node) × (neighbours arrange src_hops tgt_hops n ≡ ok ns)
        × ((m : Node) → Memᴰ m ns → Memᴰ m us)

  module _ (us : List Node) (closed : IsClosed us) where
    pub hull_loop-returns :
        (fuel : ℕ) (stack : List Node) (h : Hull)
        → ((n : Node) → Memᴰ n stack → Memᴰ n us)
        → length stack + remaining us h.seen ≤ fuel
        → (h' : Hull) × (hull_loop arrange src_hops tgt_hops fuel stack h ≡ ok h')
    unfolding hull_loop
    hull_loop-returns zero [] h inside low = (h, refl)
    hull_loop-returns (suc fuel) [] h inside low = (h, refl)
    hull_loop-returns zero (n ∷ stack) h inside low = absurd (omega arith)
    hull_loop-returns (suc fuel) (n ∷ stack) h inside low = elim (Bool-cases (contains n h.seen)) [
      | inl t ↦
          let (h', e) =
            hull_loop-returns fuel stack h (λ m k. inside m (Memᴰ.tail k)) (omega arith) in
          (h', rw (t, hull_loop) e)
      | inr f ↦
          let member = inside n (Memᴰ.head refl) in
          let (ns, next, kept) = closed n member in
          let pays = remaining-cons us n h.seen member f in
          let paid : cost n ≡ suc (length ns) = unfold cost cost_of in rw next in
          let (h', e) =
            hull_loop-returns fuel (push_all ns stack) (visit n h)
              (λ m k.
                ⊎_elim (kept m) (λ q. inside m (Memᴰ.tail q))
                  (Memᴰ.append_cases ns (Memᴰ-push_all ns stack m k)))
              (rw (push_all-length ns stack, seen-visit n h) (omega arith)) in
          (h', rw (f, next, hull_loop) e)
    ]

    -- From members of the list the worklist runs empty, given fuel for the stack and for the list.
    pub explore-returns :
        (fuel : ℕ) (members : List VerseId)
        → ((v : VerseId) → Memᴰ v members → Memᴰ (node source v) us)
        → length members + remaining us [] ≤ fuel
        → (h : Hull) × (explore arrange src_hops tgt_hops fuel members ≡ ok h)
    unfolding explore
    explore-returns fuel members inside low =
        hull_loop-returns fuel (push_all (map (node source) members) []) no_hull
          (λ n m.
            let (v, k, e) = Memᴰ-of-map (node source) members n (
              ⊎_elim (λ q. q) (λ q. absurd (Memᴰ.not-nil q))
                (Memᴰ.append_cases (map (node source) members)
                  (Memᴰ-push_all (map (node source) members) [] n m))) in
            subst (λ (t : Node). Memᴰ t us) (sym e) (inside v k))
          (rw (push_all-length (map (node source) members) [])
            (omega (arith, length-map (node source) members)))

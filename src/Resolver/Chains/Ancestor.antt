-- ===== src/Resolver/Chains/Ancestor.antt =====
-- `nearest_shared_translation` and `hops_to_ancestor` of frvt/resolver/chains.py.
use versification_tool.Prelude.{
  ℕ, ◌≡◌, ap, sym, ◌∙◌, ◌≢◌, ◌⊎◌, inl, inr, Option, none, some, List, [], ◌∷◌, Bool-cases,
  Option-cases, some_inj,
}
use mathlib.Core.Logic.{⊎_elim}
use mathlib.Core.Path.{subst}
use mathlib.Core.List.{Memᴰ}
use mathlib.Core.List.Memᴰ
use versification_tool.Prelude.Equality.{nat_eq, contains, contains→Memᴰ, Memᴰ→contains, ◌==◌}
use versification_tool.Resolver.Types.{
  SchemeRef, Hop, ok, raised, ok_inj, no_shared_ancestor, Raised,
}
use versification_tool.Resolver.Chains.{
  Session, hop_of, next_scheme, numbering_node, append_new, nodes_from, numbering_nodes,
  first_shared, nearest_shared_translation, hops_to_ancestor,
}
use versification_tool.Resolver.Chains.Follow.{Follows, last, next}

module _ (session : Session) where
  -- The hops of the chain, up to the first whose base is the numbering, or up to the root, if a
  -- translation with the numbering prefers the scheme of the root.
  pub data Arrives (a : ℕ) : List Hop → List Hop → Type 0 where
    here :
        {hop : Hop} {hops : List Hop} → hop.based_on_id ≡ some a → Arrives a (hop ∷ hops) (hop ∷ [])
    root :
        {hop : Hop} {hops : List Hop}
        → hop.based_on_id ≡ none
        → numbering_node session hop ≡ some a
        → Arrives a (hop ∷ hops) []
    on :
        {hop : Hop} {hops climbed : List Hop} {t : ℕ}
        → hop.based_on_id ≡ some t
        → t ≢ a
        → Arrives a hops climbed
        → Arrives a (hop ∷ hops) (hop ∷ climbed)

  append_new_lem :
      (o : Option ℕ) (nodes : List ℕ) (a : ℕ)
      → Memᴰ a (append_new session o nodes)
      → Memᴰ a nodes ⊎ (o ≡ some a)
  unfolding append_new
  append_new_lem none nodes a m = inl m
  append_new_lem (some n) nodes a m = elim (Bool-cases (contains n nodes)) [
    | inl t ↦ inl (rw t at m)
    | inr f ↦
        ⊎_elim inl (λ q. inr (ap some (sym (Memᴰ.eq_of_singleton q))))
          (Memᴰ.append_cases nodes (rw f at m))
  ]

  -- Some hop of the list leads to the numbering.
  data LeadsTo (a : ℕ) : List Hop → Type 0 where
    first :
        {hop : Hop} {hops : List Hop} → numbering_node session hop ≡ some a → LeadsTo a (hop ∷ hops)
    later : {hop : Hop} {hops : List Hop} → LeadsTo a hops → LeadsTo a (hop ∷ hops)

  nodes_from_lem :
      (nodes : List ℕ) (hops : List Hop) (a : ℕ)
      → Memᴰ a (nodes_from session nodes hops)
      → Memᴰ a nodes ⊎ LeadsTo a hops
  unfolding nodes_from
  nodes_from_lem nodes [] a m = inl m
  nodes_from_lem nodes (hop ∷ hops) a m =
      ⊎_elim
        (λ q.
          ⊎_elim inl (λ e. inr (first e)) (append_new_lem (numbering_node session hop) nodes a q))
        (λ l. inr (later l))
        (nodes_from_lem (append_new session (numbering_node session hop) nodes) hops a m)

  LeadsTo-nil : {a : ℕ} → LeadsTo a [] → ⊥
  LeadsTo-nil l = elim l [ ]

  hop_of-based :
      (s : SchemeRef) (t : SchemeRef)
      → next_scheme session s ≡ some t
      → (b : ℕ) × (s.based_on_id ≡ some b)
  unfolding next_scheme
  hop_of-based s t n = elim (Option-cases s.based_on_id) [
    | inl e ↦ cc (rw (e, next_scheme) at n)
    | inr found ↦ found
  ]

  Arrives-of_based :
      (hop : Hop) (hops : List Hop) (a b : ℕ)
      → hop.based_on_id ≡ some b
      → (b ≢ a → Arrives a hops (hops_to_ancestor hops a))
      → Arrives a (hop ∷ hops) (hops_to_ancestor (hop ∷ hops) a)
  unfolding hops_to_ancestor
  Arrives-of_based hop hops a b e further = elim (Bool-cases (b == a)) [
    | inl t ↦ simp (e, t) (here (e ∙ ap some ((nat_eq.beq_iff b a).0 t)))
    | inr f ↦
        let differs : b ≢ a = λ same. let t = (nat_eq.beq_iff b a).1 same in cc in
        simp (e, f) (on e differs (further differs))
  ]

  Arrives-of_here :
      (hop : Hop) (hops : List Hop) (a : ℕ)
      → numbering_node session hop ≡ some a
      → Arrives a (hop ∷ hops) (hops_to_ancestor (hop ∷ hops) a)
  unfolding hops_to_ancestor numbering_node
  Arrives-of_here hop hops a e = elim (Option-cases hop.based_on_id) [
    | inl n ↦ simp n (root n e)
    | inr (b, n) ↦
        Arrives-of_based hop hops a b n
          (λ differs. absurd (differs (some_inj (rw (n, numbering_node) at e))))
  ]

  Arrives-of_LeadsTo :
      (s : SchemeRef) (hops : List Hop) (a : ℕ)
      → Follows session s hops
      → LeadsTo a hops
      → Arrives a hops (hops_to_ancestor hops a)
  unfolding hop_of
  Arrives-of_LeadsTo s _ a (last n) (first e) = Arrives-of_here (hop_of session s) [] a e
  Arrives-of_LeadsTo s _ a (last n) (later l) = absurd (LeadsTo-nil l)
  Arrives-of_LeadsTo s _ a (next {t} {hops} n follows) (first e) =
      Arrives-of_here (hop_of session s) hops a e
  Arrives-of_LeadsTo s _ a (next {t} {hops} n follows) (later l) =
      let (b, e) = hop_of-based s t n in
      Arrives-of_based (hop_of session s) hops a b e
        (λ differs. Arrives-of_LeadsTo t hops a follows l)

  first_shared_lem :
      (ns ms : List ℕ) (a : ℕ) → first_shared session ns ms ≡ ok a → Memᴰ a ns × Memᴰ a ms
  unfolding first_shared
  first_shared_lem [] ms a e = cc
  first_shared_lem (n ∷ ns) ms a e = elim (Bool-cases (contains n ms)) [
    | inl t ↦
        let same = ok_inj (rw (t, first_shared) at e) in
        (Memᴰ.head (sym same), subst (λ (k : ℕ). Memᴰ k ms) same (contains→Memᴰ n ms t))
    | inr f ↦ let (m, k) = first_shared_lem ns ms a (rw (f, first_shared) at e) in (Memᴰ.tail m, k)
  ]

  first_shared-eq-raised :
      (ns ms : List ℕ) (e : Raised)
      → first_shared session ns ms ≡ raised e
      → (e ≡ no_shared_ancestor) × ((a : ℕ) → Memᴰ a ns → Memᴰ a ms → ⊥)
  unfolding first_shared
  first_shared-eq-raised [] ms e h = (cc, λ a m k. Memᴰ.not-nil m)
  first_shared-eq-raised (n ∷ ns) ms e h = elim (Bool-cases (contains n ms)) [
    | inl t ↦ cc (rw (t, first_shared) at h)
    | inr f ↦
        let (same, apart) = first_shared-eq-raised ns ms e (rw (f, first_shared) at h) in
        (
          same,
          λ a m k.
              ⊎_elim (λ p. let t = Memᴰ→contains (subst (λ (x : ℕ). Memᴰ x ms) p k) in cc)
                (λ q. apart a q k) (Memᴰ.cases_cons m),
        )
  ]

  -- The hops to the nearest shared numbering of two chains arrive at it, in both chains.
  pub nearest_shared_translation-Arrives :
      (s t : SchemeRef) (source_chain target_chain : List Hop) (a : ℕ)
      → Follows session s source_chain
      → Follows session t target_chain
      → nearest_shared_translation session source_chain target_chain ≡ ok a
      → Arrives a source_chain (hops_to_ancestor source_chain a)
        × Arrives a target_chain (hops_to_ancestor target_chain a)
  unfolding nearest_shared_translation numbering_nodes
  nearest_shared_translation-Arrives s t source_chain target_chain a from_s from_t e =
      let (m, k) = first_shared_lem (numbering_nodes session source_chain) _ a e in
      let leads = λ (hops : List Hop) (q : Memᴰ a (numbering_nodes session hops)).
        ⊎_elim (λ r. absurd (Memᴰ.not-nil r)) (λ l. l) (nodes_from_lem [] hops a q) in
      (
        Arrives-of_LeadsTo s source_chain a from_s (leads source_chain m),
        Arrives-of_LeadsTo t target_chain a from_t (leads target_chain k),
      )

  -- The search for a shared numbering raises exactly one error, and only if the chains share none.
  pub nearest_shared_translation-eq-raised :
      (source_chain target_chain : List Hop) (e : Raised)
      → nearest_shared_translation session source_chain target_chain ≡ raised e
      → (e ≡ no_shared_ancestor)
        × ((a : ℕ)
            → Memᴰ a (numbering_nodes session source_chain)
            → Memᴰ a (numbering_nodes session target_chain)
            → ⊥)
  unfolding nearest_shared_translation
  nearest_shared_translation-eq-raised source_chain target_chain e h =
      first_shared-eq-raised (numbering_nodes session source_chain) _ e h

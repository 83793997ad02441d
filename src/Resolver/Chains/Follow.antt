-- ===== src/Resolver/Chains/Follow.antt =====
-- `build_chain` of frvt/resolver/chains.py.
use versification_tool.Prelude.{
  ℕ, zero, suc, ◌≤◌, ◌<◌, ◌≡◌, refl, ap, ◌⊎◌, ◌↔◌, inl, inr, true, false, none, some, List, [], ◌∷◌,
  length, arith, Bool-cases, Option-cases, if◌then◌else◌,
}
use mathlib.Core.Path.{subst}
use versification_tool.Prelude.Equality.{nat_eq, contains, ◌==◌}
use versification_tool.Resolver.Types.{SchemeRef, Hop, ok, raised, ok_inj, cycle, >>=-eq-ok}
use versification_tool.Resolver.Chains.{Session, hop_of, next_scheme, chain_loop, build_chain}

-- How many of the ids are not seen.
unseen : List ℕ → List ℕ → ℕ
unseen [] seen = 0
unseen (i ∷ ids) seen = let rest = unseen ids seen in if contains i seen then rest else suc rest

unseen-cons_le : (ids : List ℕ) (n : ℕ) (seen : List ℕ) → unseen ids (n ∷ seen) ≤ unseen ids seen
unfolding unseen contains
unseen-cons_le [] n seen = omega arith
unseen-cons_le (i ∷ ids) n seen = ground (arith, unseen-cons_le ids n seen)

unseen-cons :
    (ids : List ℕ) (n : ℕ) (seen : List ℕ)
    → contains n ids ≡ true
    → contains n seen ≡ false
    → unseen ids (n ∷ seen) < unseen ids seen
unfolding unseen contains
unseen-cons [] n seen m f = cc
unseen-cons (i ∷ ids) n seen m f = elim (Bool-cases (n == i)) [
  | inl t ↦
      let e = (nat_eq.beq_iff n i).0 t in
      ground (arith, unseen-cons_le ids n seen, ap (λ (k : ℕ). contains k seen) e, f)
  | inr g ↦ ground (arith, unseen-cons ids n seen, m, f, g)
]

unseen-nil : (ids : List ℕ) → unseen ids [] ≡ length ids
unfolding unseen contains
unseen-nil [] = refl
unseen-nil (i ∷ ids) = ap suc (unseen-nil ids)

module _ (session : Session) where
  -- The hops from a scheme to a root, or to a translation that prefers no scheme.
  pub data Follows : SchemeRef → List Hop → Type 0 where
    last : {s : SchemeRef} → next_scheme session s ≡ none → Follows s (hop_of session s ∷ [])
    next :
        {s t : SchemeRef} {hops : List Hop}
        → next_scheme session s ≡ some t
        → Follows t hops
        → Follows s (hop_of session s ∷ hops)

  -- No hop of the list belongs to a scheme that was seen before it.
  abbrev pub IsFresh : List ℕ → List Hop → Type 0
  IsFresh seen [] = Unit
  IsFresh seen (hop ∷ hops) =
      (contains hop.scheme_id seen ≡ false) × IsFresh (hop.scheme_id ∷ seen) hops

  chain_loop_sound :
      (fuel : ℕ) (s : SchemeRef) (seen : List ℕ) (hops : List Hop)
      → chain_loop session fuel s seen ≡ ok hops
      → Follows s hops × IsFresh seen hops
  unfolding chain_loop hop_of
  chain_loop_sound zero s seen hops e = cc
  chain_loop_sound (suc fuel) s seen hops e = elim (Bool-cases (contains s.scheme_id seen)) [
    | inl t ↦ cc (rw (t, chain_loop) at e)
    | inr f ↦ elim (Option-cases (next_scheme session s)) [
      | inl n ↦
          let made = ok_inj (rw (f, n, chain_loop) at e) in
          (subst (Follows s) made (last n), subst (IsFresh seen) made (f, tt))
      | inr (t, n) ↦
          let (rest, looped, joined) =
            >>=-eq-ok (chain_loop session fuel t (s.scheme_id ∷ seen)) _
              (rw (f, n, chain_loop) at e) in
          let (follows, fresh) = chain_loop_sound fuel t (s.scheme_id ∷ seen) rest looped in
          (
            subst (Follows s) (ok_inj joined) (next n follows),
            subst (IsFresh seen) (ok_inj joined) (f, fresh),
          )
    ]
  ]

  chain_loop_complete :
      (fuel : ℕ) (s : SchemeRef) (seen : List ℕ) (hops : List Hop)
      → Follows s hops
      → IsFresh seen hops
      → length hops ≤ fuel
      → chain_loop session fuel s seen ≡ ok hops
  unfolding chain_loop hop_of
  chain_loop_complete zero s seen _ (last n) fresh low = absurd (omega arith)
  chain_loop_complete (suc fuel) s seen _ (last n) fresh low = rw (fresh.0, n)
  chain_loop_complete zero s seen _ (next n follows) fresh low = absurd (omega arith)
  chain_loop_complete (suc fuel) s seen _ (next {t} {hops} n follows) fresh low =
      let rest =
        chain_loop_complete fuel t (s.scheme_id ∷ seen) hops follows fresh.1 (omega arith) in
      rw (fresh.0, n, rest)

  -- Every scheme that can follow another is one of `ids`.
  module _ (ids : List ℕ)
      (listed : (s t : SchemeRef)
        → next_scheme session s ≡ some t
        → contains t.scheme_id ids ≡ true) where
    chain_loop-returns :
        (fuel : ℕ) (s : SchemeRef) (seen : List ℕ)
        → contains s.scheme_id ids ≡ true
        → unseen ids seen < fuel
        → ((hops : List Hop) × (chain_loop session fuel s seen ≡ ok hops))
          ⊎ (chain_loop session fuel s seen ≡ raised cycle)
    unfolding chain_loop
    chain_loop-returns zero s seen m low = absurd (omega arith)
    chain_loop-returns (suc fuel) s seen m low = elim (Bool-cases (contains s.scheme_id seen)) [
      | inl t ↦ inr (rw t)
      | inr f ↦ elim (Option-cases (next_scheme session s)) [
        | inl n ↦ inl (hop_of session s ∷ [], rw (f, n))
        | inr (t, n) ↦
            let falls = unseen-cons ids s.scheme_id seen m f in
            elim (chain_loop-returns fuel t (s.scheme_id ∷ seen) (listed s t n) (omega arith)) [
              | inl (rest, e) ↦ inl (hop_of session s ∷ rest, rw (f, n, e))
              | inr e ↦ inr (rw (f, n, e))
            ]
      ]
    ]

    length-IsFresh :
        (s : SchemeRef) (seen : List ℕ) (hops : List Hop)
        → contains s.scheme_id ids ≡ true
        → Follows s hops
        → IsFresh seen hops
        → length hops ≤ unseen ids seen
    unfolding hop_of
    length-IsFresh s seen _ m (last n) fresh =
        let falls = unseen-cons ids s.scheme_id seen m fresh.0 in omega arith
    length-IsFresh s seen _ m (next {t} {hops} n follows) fresh =
        let falls = unseen-cons ids s.scheme_id seen m fresh.0 in
        let shorter = length-IsFresh t (s.scheme_id ∷ seen) hops (listed s t n) follows fresh.1 in
        omega arith

    -- Where the listed schemes hold the start and every scheme that follows another, and the fuel
    -- exceeds their number: the chain that is built is the chain that the schemes make, and it is
    -- built exactly when no scheme recurs in it.
    pub build_chain_iff :
        (fuel : ℕ) (s : SchemeRef) (hops : List Hop)
        → contains s.scheme_id ids ≡ true
        → length ids < fuel
        → (build_chain session fuel s ≡ ok hops) ↔ (Follows s hops × IsFresh [] hops)
    unfolding build_chain
    build_chain_iff fuel s hops m low = (
      chain_loop_sound fuel s [] hops,
      λ (follows, fresh).
          let short = length-IsFresh s [] hops m follows fresh in
          chain_loop_complete fuel s [] hops follows fresh (omega (arith, unseen-nil ids)),
    )

    -- Under the same conditions either a chain is built, or a cycle is raised and no chain without a
    -- recurring scheme starts at the scheme.
    pub build_chain-returns :
        (fuel : ℕ) (s : SchemeRef)
        → contains s.scheme_id ids ≡ true
        → length ids < fuel
        → ((hops : List Hop) × (build_chain session fuel s ≡ ok hops))
          ⊎ ((build_chain session fuel s ≡ raised cycle)
              × ((hops : List Hop) → ¬ (Follows s hops × IsFresh [] hops)))
    unfolding build_chain
    build_chain-returns fuel s m low =
        elim (chain_loop-returns fuel s [] m (omega (arith, unseen-nil ids))) [
          | inl found ↦ inl found
          | inr e ↦
              inr (e, λ hops both. let made = (build_chain_iff fuel s hops m low).1 both in cc)
        ]

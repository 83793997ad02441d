-- ===== src/Resolver/Chains.antt =====
-- frvt/resolver/chains.py: the chain of schemes from a scheme to a root, and the numbering that two
-- chains share. The queries to the database are the fields of `Session`. A chain that never reaches
-- a root is bounded by fuel.
pub mod Follow
pub mod Ancestor
use mathlib.Core.List.{reverse}
use versification_tool.Prelude.{
  ℕ, zero, suc, Bool, true, false, Option, none, some, List, [], ◌∷◌, ◌++◌, if◌then◌else◌,
}
use versification_tool.Prelude.Equality.{nat_eq, contains, option_beq, ◌==◌}
use versification_tool.Resolver.Types.{
  SchemeRef, MappingView, Hop, Result, ok, raised, cycle, no_shared_ancestor, out_of_fuel, ◌>>=◌,
}

-- The tables as the queries read them: the scheme that a translation prefers and a translation that
-- prefers a scheme (rows of `TranslationVersification`), a scheme by its key, and the mapping
-- records of a scheme in the order of their ordinals.
pub record Session : Type 0 where
  pub preferred_scheme : ℕ → Option ℕ
  pub preferring_translation : ℕ → Option ℕ
  pub get_scheme : ℕ → Option SchemeRef
  pub mapping_records : ℕ → List MappingView

module _ (session : Session) where
  -- The rows are views already.
  unfoldable pub load_mapping_views : ℕ → List MappingView
  load_mapping_views scheme_id = session.mapping_records scheme_id

  unfoldable pub scheme_ref_from_id : ℕ → Option SchemeRef
  scheme_ref_from_id scheme_id = session.get_scheme scheme_id

  unfoldable pub preferred_scheme_ref : ℕ → Option SchemeRef
  preferred_scheme_ref translation_id = elim (session.preferred_scheme translation_id) [
    | none ↦ none
    | some scheme_id ↦ session.get_scheme scheme_id
  ]

  unfoldable pub preferred_owner_of_scheme : ℕ → Option ℕ
  preferred_owner_of_scheme scheme_id = session.preferring_translation scheme_id

  unfoldable pub hop_of : SchemeRef → Hop
  unfolding load_mapping_views
  hop_of current = record {
    scheme_id = current.scheme_id;
    based_on_id = current.based_on_id;
    mappings = load_mapping_views current.scheme_id;
  }

  -- The scheme of the next round; `none` is a `break`.
  unfoldable pub next_scheme : SchemeRef → Option SchemeRef
  unfolding preferred_scheme_ref
  next_scheme current = elim current.based_on_id [ none ↦ none | some t ↦ preferred_scheme_ref t ]

  -- `while True:`
  unfoldable pub chain_loop : ℕ → SchemeRef → List ℕ → Result (List Hop)
  chain_loop zero current seen = raised out_of_fuel
  chain_loop (suc fuel) current seen =
      let after : Result (List Hop) = elim (next_scheme current) [
        | none ↦ ok []
        | some next ↦ chain_loop fuel next (current.scheme_id ∷ seen)
      ] in
      if contains current.scheme_id seen
      then raised cycle
      else after >>= λ hops. ok (hop_of current ∷ hops)

  unfoldable pub build_chain : ℕ → SchemeRef → Result (List Hop)
  unfolding chain_loop
  build_chain fuel scheme = chain_loop fuel scheme []

  -- The numbering that a hop leads to.
  unfoldable pub numbering_node : Hop → Option ℕ
  numbering_node hop = elim hop.based_on_id [
    | none ↦ preferred_owner_of_scheme hop.scheme_id
    | some t ↦ some t
  ]

  -- `if node not in nodes: nodes.append(node)`
  unfoldable pub append_new : Option ℕ → List ℕ → List ℕ
  append_new none nodes = nodes
  append_new (some n) nodes = if contains n nodes then nodes else nodes ++ (n ∷ [])

  unfoldable pub nodes_from : List ℕ → List Hop → List ℕ
  nodes_from nodes [] = nodes
  nodes_from nodes (hop ∷ hops) = nodes_from (append_new (numbering_node hop) nodes) hops

  unfoldable pub numbering_nodes : List Hop → List ℕ
  numbering_nodes chain = nodes_from [] chain

  -- `for node in source_nodes: if node in target_nodes: return node`
  unfoldable pub first_shared : List ℕ → List ℕ → Result ℕ
  first_shared [] target_nodes = raised no_shared_ancestor
  first_shared (n ∷ ns) target_nodes =
      let rest = first_shared ns target_nodes in if contains n target_nodes then ok n else rest

  unfoldable pub nearest_shared_translation : List Hop → List Hop → Result ℕ
  nearest_shared_translation source_chain target_chain =
      first_shared (numbering_nodes source_chain) (numbering_nodes target_chain)

unfoldable pub hops_to_ancestor : List Hop → ℕ → List Hop
hops_to_ancestor [] ancestor = []
hops_to_ancestor (hop ∷ hops) ancestor =
    let rest = hops_to_ancestor hops ancestor in
    elim hop.based_on_id [ none ↦ [] | some t ↦ if t == ancestor then hop ∷ [] else hop ∷ rest ]

unfoldable pub hops_from_ancestor : List Hop → ℕ → List Hop
hops_from_ancestor chain ancestor = reverse (hops_to_ancestor chain ancestor)

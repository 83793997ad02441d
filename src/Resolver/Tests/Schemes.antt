-- ===== src/Resolver/Tests/Schemes.antt =====
-- Tests of scheme chains.
use versification_tool.Prelude.{
  ℕ, ◌≡◌, refl, ◌↔◌, ◌⊎◌, true, Option, none, some, List, [], ◌∷◌, arith, if◌then◌else◌,
}
use versification_tool.Prelude.Equality.{nat_eq, contains, ◌==◌}
use versification_tool.Resolver.Types.{SchemeRef, Hop, ok, raised, cycle}
use versification_tool.Resolver.Chains.{
  Session, load_mapping_views, preferred_scheme_ref, preferred_owner_of_scheme, hop_of, next_scheme,
  chain_loop, build_chain, numbering_node, append_new, nodes_from, numbering_nodes, first_shared,
  nearest_shared_translation, hops_to_ancestor,
}
use versification_tool.Resolver.Chains.Follow.{
  Follows, last, next, IsFresh, build_chain_iff, build_chain-returns,
}
use versification_tool.Resolver.Chains.Ancestor.{Arrives, nearest_shared_translation-Arrives}

abbrev scheme : ℕ → Option ℕ → SchemeRef
scheme n based = record { scheme_id = n; based_on_id = based; based_on_name = none }

-- Translation 10 prefers scheme 1, which is based on translation 20; translation 20 prefers scheme 2,
-- a root. Translation 30 prefers scheme 3, which is based on translation 30.
abbrev session : Session
session = record {
  preferred_scheme =
      λ t. if t == 10 then some 1 else if t == 20 then some 2 else if t == 30 then some 3 else none;
  preferring_translation =
      λ s. if s == 1 then some 10 else if s == 2 then some 20 else if s == 3 then some 30 else none;
  get_scheme = λ s.
      if s == 1
      then some (scheme 1 (some 20))
      else if s == 2
      then some (scheme 2 none)
      else if s == 3
      then some (scheme 3 (some 30))
      else none;
  mapping_records = λ s. [];
}

abbrev ids : List ℕ
ids = 1 ∷ 2 ∷ 3 ∷ []

listed : (s t : SchemeRef) → next_scheme session s ≡ some t → contains t.scheme_id ids ≡ true
unfolding next_scheme preferred_scheme_ref contains
listed s t e = ground (arith, e)

abbrev hop_at : ℕ → Option ℕ → Hop
hop_at n based = record { scheme_id = n; based_on_id = based; mappings = [] }

build_chain_iff_example :
    (build_chain session 4 (scheme 1 (some 20)) ≡ ok (hop_at 1 (some 20) ∷ hop_at 2 none ∷ [])) ↔ (
      Follows session (scheme 1 (some 20)) (hop_at 1 (some 20) ∷ hop_at 2 none ∷ [])
      × IsFresh session [] (hop_at 1 (some 20) ∷ hop_at 2 none ∷ []))
unfolding contains
build_chain_iff_example =
    build_chain_iff session ids listed 4 (scheme 1 (some 20))
      (hop_at 1 (some 20) ∷ hop_at 2 none ∷ []) refl (omega arith)

builds : build_chain session 4 (scheme 1 (some 20)) ≡ ok (hop_at 1 (some 20) ∷ hop_at 2 none ∷ [])
unfolding build_chain chain_loop contains hop_of next_scheme preferred_scheme_ref load_mapping_views
builds = refl

recurs : build_chain session 4 (scheme 3 (some 30)) ≡ raised cycle
unfolding build_chain chain_loop contains hop_of next_scheme preferred_scheme_ref load_mapping_views
recurs = refl

build_chain-returns_example :
    ((hops : List Hop) × (build_chain session 4 (scheme 3 (some 30)) ≡ ok hops))
    ⊎ ((build_chain session 4 (scheme 3 (some 30)) ≡ raised cycle)
        × ((hops : List Hop)
            → ¬ (Follows session (scheme 3 (some 30)) hops × IsFresh session [] hops)))
unfolding contains
build_chain-returns_example =
    build_chain-returns session ids listed 4 (scheme 3 (some 30)) refl (omega arith)

abbrev long : List Hop
long = hop_at 1 (some 20) ∷ hop_at 2 none ∷ []

abbrev short : List Hop
short = hop_at 2 none ∷ []

Follows-short : Follows session (scheme 2 none) short
unfolding next_scheme hop_of load_mapping_views
Follows-short = last refl

Follows-long : Follows session (scheme 1 (some 20)) long
unfolding next_scheme preferred_scheme_ref hop_of load_mapping_views
Follows-long = next refl Follows-short

nearest_shared_translation-Arrives_example :
    Arrives session 20 long (hops_to_ancestor long 20)
    × Arrives session 20 short (hops_to_ancestor short 20)
unfolding nearest_shared_translation numbering_nodes nodes_from first_shared contains append_new
    numbering_node preferred_owner_of_scheme
nearest_shared_translation-Arrives_example =
    nearest_shared_translation-Arrives session (scheme 1 (some 20)) (scheme 2 none) long short 20
      Follows-long Follows-short refl

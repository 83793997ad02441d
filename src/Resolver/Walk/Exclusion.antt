-- ===== src/Resolver/Walk/Exclusion.antt =====
-- The flag `excluded` and the relation of a walk (frvt/resolver/walk.py).
use versification_tool.Prelude.{
  ◌≡◌, ◌↔◌, inl, inr, true, false, Bool, List, [], ◌∷◌, ◌&&◌, arith, Bool-cases,
}
use mathlib.Core.Path.{subst}
use versification_tool.Resolver.Types.{
  exclude, VerseId, MappingView, Hop, ok, ok_inj, >>=-eq-ok, relation_eq,
}
use versification_tool.Resolver.Compose.Laws.{compose-eq-exclude}
use versification_tool.Resolver.Cover.{Projection, project_verse}
use versification_tool.Resolver.Cover.Exclusion.{Agree, project_verse-Agree}
use versification_tool.Resolver.Walk.{
  Walk, absorb, project_all, is_empty, walk_hop, walk_hops, start_walk, apply_hops_forward,
  apply_hops_downward,
}

abbrev pub IsAgreed : Walk → Type 0
IsAgreed w = (w.excluded ≡ true) ↔ (w.relation ≡ exclude)

absorb-IsAgreed :
    (w : Walk) (p : Projection) → IsAgreed w → Agree p.excluded p.relation → IsAgreed (absorb w p)
unfolding absorb
absorb-IsAgreed w p h g = ground (arith, compose-eq-exclude w.relation p.relation)

project_all-IsAgreed :
    (up : Bool) (rows : List MappingView) (vs : List VerseId) (w w' : Walk)
    → IsAgreed w
    → project_all up rows vs w ≡ ok w'
    → IsAgreed w'
unfolding project_all
project_all-IsAgreed up rows [] w w' h e = subst IsAgreed (ok_inj e) h
project_all-IsAgreed up rows (v ∷ vs) w w' h e =
    let (p, made, rest) =
      >>=-eq-ok (project_verse v rows up) (λ p. project_all up rows vs (absorb w p)) e in
    project_all-IsAgreed up rows vs (absorb w p) w'
      (absorb-IsAgreed w p h (project_verse-Agree v rows up p made)) rest

walk_hop-IsAgreed :
    (up : Bool) (hop : Hop) (w w' : Walk) → IsAgreed w → walk_hop up hop w ≡ ok w' → IsAgreed w'
unfolding walk_hop
walk_hop-IsAgreed up hop w w' h e =
    let (g, made, rest) =
      >>=-eq-ok (project_all up hop.mappings w.verses (record w { verses = [] })) _ e in
    let kept = project_all-IsAgreed up hop.mappings w.verses (record w { verses = [] }) g h made in
    subst IsAgreed (ok_inj rest) kept

walk_hops-IsAgreed :
    (up : Bool) (hops : List Hop) (w w' : Walk)
    → IsAgreed w
    → walk_hops up hops w ≡ ok w'
    → IsAgreed w'
unfolding walk_hops
walk_hops-IsAgreed up [] w w' h e = subst IsAgreed (ok_inj e) h
walk_hops-IsAgreed up (hop ∷ hops) w w' h e =
    let (next, made, rest) = >>=-eq-ok (walk_hop up hop w) _ e in
    let kept = walk_hop-IsAgreed up hop w next h made in
    elim (Bool-cases (next.excluded && is_empty next.verses)) [
      | inl t ↦ subst IsAgreed (ok_inj (rw t at rest)) kept
      | inr f ↦ walk_hops-IsAgreed up hops next w' kept (rw f at rest)
    ]

-- A climb reports an exclusion exactly when its composed relation is `exclude`.
pub apply_hops_forward-IsAgreed :
    (vs : List VerseId) (hops : List Hop) (w : Walk)
    → apply_hops_forward vs hops ≡ ok w
    → (w.excluded ≡ true) ↔ (w.relation ≡ exclude)
unfolding apply_hops_forward
apply_hops_forward-IsAgreed vs hops w e =
    let (g, made, rest) = >>=-eq-ok (walk_hops true hops (start_walk vs)) _ e in
    subst IsAgreed (ok_inj rest)
      (walk_hops-IsAgreed true hops (start_walk vs) g (ground arith) made)

-- So does a descent.
pub apply_hops_downward-IsAgreed :
    (vs : List VerseId) (hops : List Hop) (w : Walk)
    → apply_hops_downward vs hops ≡ ok w
    → (w.excluded ≡ true) ↔ (w.relation ≡ exclude)
unfolding apply_hops_downward
apply_hops_downward-IsAgreed vs hops w e =
    let (g, made, rest) = >>=-eq-ok (walk_hops false hops (start_walk vs)) _ e in
    subst IsAgreed (ok_inj rest)
      (walk_hops-IsAgreed false hops (start_walk vs) g (ground arith) made)

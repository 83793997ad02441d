-- ===== src/Resolver/Connect/Pairs.antt =====
-- The relation of a single pair in `build_hull` (frvt/resolver/resolve.py).
use versification_tool.Prelude.{
  ◌≡◌, ◌≢◌, ap, ◌∙◌, inl, inr, not, ◌||◌, List, [], ◌∷◌, arith, Bool-cases,
}
use mathlib.Core.Logic.{⊎_elim}
use versification_tool.Prelude.Equality.{contains}
use versification_tool.Resolver.Types.{
  Relation, exclude, VerseId, Hop, ok, ok_inj, >>=-eq-ok, verse_eq,
}
use versification_tool.Resolver.Compose.{compose}
use versification_tool.Resolver.Compose.Laws.{compose-eq-exclude}
use versification_tool.Resolver.Walk.{
  Walk, Legs, apply_hops_forward, apply_hops_downward, leg_relation, edge_legs, edge_relation,
}
use versification_tool.Resolver.Walk.Exclusion.{
  IsAgreed, apply_hops_forward-IsAgreed, apply_hops_downward-IsAgreed,
}
use versification_tool.Resolver.Connect.{pair_relation}

leg_relation-not_exclude : (w : Walk) (v : VerseId) → IsAgreed w → leg_relation w v ≢ exclude
leg_relation-not_exclude w v agreed e =
    elim (Bool-cases (w.excluded || not (contains v w.verses))) [
      | inl t ↦ let p = rw t at e in cc
      | inr f ↦ let t = agreed.1 (rw f at e) in ground (arith, t, f)
    ]

-- A path from a source through a pivot to a target never has the relation `exclude`.
pub edge_relation-not_exclude :
    (source pivot target : VerseId) (src_hops tgt_hops : List Hop) (x : Relation)
    → edge_relation source pivot target src_hops tgt_hops ≡ ok x
    → x ≢ exclude
unfolding edge_relation edge_legs
edge_relation-not_exclude source pivot target src_hops tgt_hops x e p =
    let (legs, labelled, same) = >>=-eq-ok (edge_legs source pivot target src_hops tgt_hops) _ e in
    let (up, climbed, after) = >>=-eq-ok (apply_hops_forward (source ∷ []) src_hops) _ labelled in
    let (down, descended, made) = >>=-eq-ok (apply_hops_downward (pivot ∷ []) tgt_hops) _ after in
    let composed : compose (leg_relation up pivot) (leg_relation down target) ≡ exclude =
      ap (λ (l : Legs). l.composed) (ok_inj made) ∙ ok_inj same ∙ p in
    ⊎_elim
      (leg_relation-not_exclude up pivot
        (apply_hops_forward-IsAgreed (source ∷ []) src_hops up climbed))
      (leg_relation-not_exclude down target
        (apply_hops_downward-IsAgreed (pivot ∷ []) tgt_hops down descended))
      ((compose-eq-exclude _ _).0 composed)

module _ (arrange : List VerseId → List VerseId) (src_hops tgt_hops : List Hop) where
  pub pair_relation-not_exclude :
      (sources pivots targets : List VerseId) (x : Relation)
      → pair_relation arrange src_hops tgt_hops sources pivots targets ≡ ok x
      → x ≢ exclude
  unfolding pair_relation
  pair_relation-not_exclude [] pivots targets x e p = let q = ok_inj e ∙ p in cc
  pair_relation-not_exclude (s ∷ ss) [] targets x e p = let q = ok_inj e ∙ p in cc
  pair_relation-not_exclude (s ∷ ss) (v ∷ vs) [] x e p = let q = ok_inj e ∙ p in cc
  pair_relation-not_exclude (s ∷ ss) (v ∷ vs) (t ∷ ts) x e p =
      edge_relation-not_exclude s v t src_hops tgt_hops x e p

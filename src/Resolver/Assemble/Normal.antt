-- ===== src/Resolver/Assemble/Normal.antt =====
-- `normalize_same_bcv` and the results of `assemble` (frvt/resolver/resolve.py).
use versification_tool.Prelude.{ℕ, ◌≡◌, inl, inr, true, List, arith, Bool-cases, Option-cases}
use mathlib.Core.Path.{subst}
use versification_tool.Prelude.Equality.{nat_eq, ◌==◌}
use versification_tool.Resolver.Types.{
  complex, VerseId, Resolution, Hop, ok, ok_inj, >>=-eq-ok, relation_eq,
}
use versification_tool.Resolver.Connect.{build_hull}
use versification_tool.Resolver.RangeHull.{find_range_trigger}
use versification_tool.Resolver.RangeHull.Build.{build_range_hull}
use versification_tool.Resolver.Assemble.{
  same_bcv_skip, lands_on_itself, normalize_same_bcv, atomic_result, normal_atomic, assemble_range,
  assemble,
}

-- Normalizing again changes nothing.
pub normalize_same_bcv-normalize_same_bcv :
    (r : Resolution) → normalize_same_bcv (normalize_same_bcv r) ≡ normalize_same_bcv r
unfolding normalize_same_bcv
normalize_same_bcv-normalize_same_bcv r = elim (Bool-cases (same_bcv_skip r.relation)) [
  | inl t ↦ rw (t, normalize_same_bcv) (rw t)
  | inr f ↦ elim (Bool-cases (lands_on_itself r.source_spans r.target_spans)) [
    | inl l ↦ rw (f, l)
    | inr n ↦ rw (f, n) (rw (f, n))
  ]
]

module _ (arrange : List VerseId → List VerseId) (fuel : ℕ) (src_hops tgt_hops : List Hop) where
  normal_of_normalized : (m r : Resolution) → normalize_same_bcv m ≡ r → normalize_same_bcv r ≡ r
  normal_of_normalized m r e =
      subst (λ (t : Resolution). normalize_same_bcv t ≡ t) e
        (normalize_same_bcv-normalize_same_bcv m)

  normal_atomic-normal :
      (members : List VerseId) (r : Resolution)
      → normal_atomic arrange fuel src_hops tgt_hops members ≡ ok r
      → normalize_same_bcv r ≡ r
  unfolding normal_atomic
  normal_atomic-normal members r e =
      let (m, made, same) = >>=-eq-ok (atomic_result arrange fuel src_hops tgt_hops members) _ e in
      normal_of_normalized m r (ok_inj same)

  complex_normal : (r : Resolution) → (r.relation == complex) ≡ true → normalize_same_bcv r ≡ r
  unfolding normalize_same_bcv
  complex_normal r t = ground (arith, t)

  -- What `assemble` returns is normalized: normalizing it changes nothing.
  pub normalize_same_bcv-assemble :
      (members : List VerseId) (r : Resolution)
      → assemble arrange fuel src_hops tgt_hops members ≡ ok r
      → normalize_same_bcv r ≡ r
  unfolding assemble assemble_range
  normalize_same_bcv-assemble members r e =
      let (found, searched, after) = >>=-eq-ok (find_range_trigger members src_hops tgt_hops) _ e in
      elim (Option-cases found) [
        | inl n ↦ normal_atomic-normal members r (rw n at after)
        | inr (trigger, n) ↦
            let (hull, built, next) =
              >>=-eq-ok (build_hull arrange src_hops tgt_hops fuel members) _
                (rw (n, assemble_range) at after) in
            elim (Bool-cases (hull.relation == complex)) [
              | inl t ↦
                  subst (λ (x : Resolution). normalize_same_bcv x ≡ x) (ok_inj (rw t at next))
                    (complex_normal hull t)
              | inr f ↦
                  let (ranged, made, last) =
                    >>=-eq-ok (build_range_hull trigger members src_hops tgt_hops) _
                      (rw f at next) in
                  elim (Option-cases ranged) [
                    | inl g ↦ normal_atomic-normal members r (rw g at last)
                    | inr (x, g) ↦ normal_of_normalized x r (ok_inj (rw g at last))
                  ]
            ]
      ]

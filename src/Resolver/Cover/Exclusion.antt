-- ===== src/Resolver/Cover/Exclusion.antt =====
-- The flag `excluded` and the relation of a projection (frvt/resolver/cover.py).
use versification_tool.Prelude.{
  ◌≡◌, ◌↔◌, inl, inr, true, false, not, Bool, Option, none, some, List, arith, Bool-cases,
  Option-cases, if◌then◌else◌,
}
use mathlib.Core.Path.{subst}
use versification_tool.Prelude.Equality.{◌==◌}
use versification_tool.Prelude.Texts.{Text}
use versification_tool.Resolver.Types.{
  Relation, merge, exclude, VerseId, RefRange, MappingView, ok, ok_inj, >>=-eq-ok, relation_eq,
}
use versification_tool.Resolver.Compose.{invert_relation}
use versification_tool.Resolver.Cover.{
  Projection, parse_ref_plain, cover_side, first_coordinate, project_ranges, project_sides,
  project_through, find_covering_record, project_verse,
}

abbrev pub Agree : Bool → Relation → Type 0
Agree e r = (e ≡ true) ↔ (r ≡ exclude)

project_ranges-Agree :
    (v : VerseId) (row : MappingView) (up : Bool) (r : Relation) (s b : RefRange)
    → (r == exclude) ≡ false
    → let p = project_ranges v row up r s b in Agree p.excluded p.relation
unfolding project_ranges
project_ranges-Agree v row up r s b h = ground arith

project_sides-Agree :
    (v : VerseId) (row : MappingView) (up : Bool) (r : Relation) (s b : Option Text)
    (p : Projection)
    → (r == exclude) ≡ false
    → project_sides v row up r s b ≡ ok p
    → Agree p.excluded p.relation
unfolding project_sides
project_sides-Agree v row up r none b p n h = cc
project_sides-Agree v row up r (some s) none p n h = elim (Bool-cases (r == merge)) [
  | inr f ↦ let made = ok_inj (rw (f, project_sides) at h) in ground (arith, made)
  | inl t ↦
      let (x, _, h1) = >>=-eq-ok (parse_ref_plain s) _ (rw (t, project_sides) at h) in
      let (y, _, h2) = >>=-eq-ok (parse_ref_plain s) _ h1 in
      let (z, _, h3) = >>=-eq-ok (parse_ref_plain (first_coordinate x)) _ h2 in
      subst (λ (q : Projection). Agree q.excluded q.relation) (ok_inj h3)
        (project_ranges-Agree v row up r y z n)
]
project_sides-Agree v row up r (some s) (some b) p n h =
    let (y, _, h2) = >>=-eq-ok (parse_ref_plain s) _ h in
    let (z, _, h3) = >>=-eq-ok (parse_ref_plain b) _ h2 in
    subst (λ (q : Projection). Agree q.excluded q.relation) (ok_inj h3)
      (project_ranges-Agree v row up r y z n)

-- A projection is excluded exactly when its relation is `exclude`.
pub project_verse-Agree :
    (v : VerseId) (rows : List MappingView) (up : Bool) (p : Projection)
    → project_verse v rows up ≡ ok p
    → (p.excluded ≡ true) ↔ (p.relation ≡ exclude)
unfolding project_verse project_through
project_verse-Agree v rows up p h = elim (Option-cases (find_covering_record rows v up)) [
  | inl n ↦ let made = ok_inj (rw (n, project_verse) at h) in ground (arith, made)
  | inr (row, e) ↦
      let relation = if up then row.relation else invert_relation row.relation in
      elim (Bool-cases (relation == exclude)) [
        | inl t ↦
            let made = ok_inj (rw (e, t, project_through, project_verse) at h) in
            ground (arith, made)
        | inr f ↦
            project_sides-Agree v row up relation (cover_side row up) (cover_side row (not up)) p f
              (rw (e, f, project_through, project_verse) at h)
      ]
]

-- ===== src/Resolver/Cover/Merge.antt =====
-- Rows that merge or split, climbed and descended (frvt/resolver/cover.py).
use versification_tool.Prelude.{◌≡◌, refl, sym, ◌∙◌, ap, true, false, List, [], ◌∷◌, map}
use mathlib.Core.List.{Memᴰ}
use mathlib.Core.List.Memᴰ
use mathlib.Core.Path.{subst}
use versification_tool.Prelude.Texts.{Text}
use versification_tool.Prelude.{Option, none, Memᴰ-of-map}
use versification_tool.Prelude.Equality.{◌==◌}
use versification_tool.Resolver.Types.{
  Relation, exclude, merge, split, VerseId, RefRange, MappingView, ok, ok_inj, relation_eq,
}
use versification_tool.Resolver.Reference.{expand, covers}
use versification_tool.Resolver.Reference.RoundTrip.{expand_iff}
use versification_tool.Resolver.Compose.{invert_relation}
use versification_tool.Resolver.Cover.{Projection, with_part, project_ranges, project_through}
use versification_tool.Resolver.Cover.Sides.{Sides, climb, descend}

-- The first verse of a range.
abbrev pub first_of : RefRange → Option Text → VerseId
first_of r part = record { book = r.book; chapter = r.chapter; verse = r.verse_start; part = part }

-- The verses of a range, as parts.
abbrev pub parts_of : RefRange → Option Text → List VerseId
parts_of r part = map (with_part part) (expand r)

part_of_map :
    (part : Option Text) (vs : List VerseId) (w : VerseId)
    → Memᴰ w (map (with_part part) vs)
    → w.part ≡ part
part_of_map part vs w m =
    let (u, _, e) = Memᴰ-of-map (with_part part) vs w m in ap (λ (t : VerseId). t.part) e

pub Memᴰ-parts_of : (r : RefRange) (v : VerseId) → covers r v ≡ true → Memᴰ v (parts_of r v.part)
unfolding covers
Memᴰ-parts_of r v h =
    Memᴰ.map (with_part v.part) ((expand_iff r (record v { part = none })).1 (h, refl))

module _ (row : MappingView) (source base : RefRange) (s : Sides row source base) where
  climb_as :
      (r : Relation) (v : VerseId)
      → row.relation ≡ r
      → (r == exclude) ≡ false
      → project_through v row true ≡ ok (project_ranges v row true r source base)
  climb_as r v e n =
      climb row source base s v (rw e n)
      ∙ ap (λ (t : Relation). ok (project_ranges v row true t source base)) e

  descend_as :
      (r t : Relation) (v : VerseId)
      → row.relation ≡ r
      → invert_relation r ≡ t
      → (t == exclude) ≡ false
      → project_through v row false ≡ ok (project_ranges v row false t base source)
  descend_as r t v e i n =
      descend row source base s v (rw (e, i) n)
      ∙ ap (λ (u : Relation). ok (project_ranges v row false u base source))
          (ap invert_relation e ∙ i)

  -- A row that merges sends a covered verse to the first base verse and reports the verses of its
  -- source range, among them the verse. From that base verse the row splits into just these.
  pub merge-split :
      (v : VerseId)
      → row.relation ≡ merge
      → covers source v ≡ true
      → (p : Projection) × (q : Projection) × (project_through v row true ≡ ok p)
        × (p.verses ≡ first_of base v.part ∷ [])
        × Memᴰ v p.merge_siblings
        × (project_through (first_of base v.part) row false ≡ ok q)
        × (q.relation ≡ split)
        × (q.verses ≡ p.merge_siblings)
  unfolding project_ranges invert_relation
  merge-split v e h = (
    project_ranges v row true merge source base,
    project_ranges (first_of base v.part) row false split base source,
    climb_as merge v e refl,
    refl,
    Memᴰ-parts_of source v h,
    descend_as merge split (first_of base v.part) e refl refl,
    refl,
    refl,
  )

  -- A row that splits sends a verse to every base verse. Each of these descends to the first source
  -- verse, and reports the verses that the climb reached.
  pub split-merge :
      (v w : VerseId) (p : Projection)
      → row.relation ≡ split
      → project_through v row true ≡ ok p
      → Memᴰ w p.verses
      → (q : Projection) × (p.verses ≡ parts_of base v.part)
        × (project_through w row false ≡ ok q)
        × (q.relation ≡ merge)
        × (q.verses ≡ first_of source v.part ∷ [])
        × (q.merge_siblings ≡ p.verses)
  unfolding project_ranges invert_relation
  split-merge v w p e h m =
      let shape : project_ranges v row true split source base ≡ p =
        ok_inj (sym (climb_as split v e refl) ∙ h) in
      let reached = ap (λ (t : Projection). t.verses) (sym shape) in
      let same_part : w.part ≡ v.part =
        part_of_map v.part (expand base) w (subst (Memᴰ w) reached m) in
      (
        project_ranges w row false merge base source,
        reached,
        descend_as split merge w e refl refl,
        refl,
        ap (λ (t : Option Text). first_of source t ∷ []) same_part,
        ap (λ (t : Option Text). parts_of base t) same_part ∙ sym reached,
      )

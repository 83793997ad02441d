-- ===== src/Resolver/Cover/Zip.antt =====
-- Rows of the zip class, `one_to_one`, `shift` and `renumber` (frvt/resolver/cover.py).
use versification_tool.Prelude.{
  ℕ, ◌+◌, ◌-◌, ◌≤◌, Bool, ◌≡◌, refl, sym, ◌∙◌, ap, true, false, Option, [], ◌∷◌, arith,
}
use versification_tool.Prelude.Equality.{◌==◌, nat_eq}
use versification_tool.Prelude.Texts.{Text, text_eq, text_beq_iff}
use versification_tool.Resolver.Types.{
  Relation, one_to_one, shift, renumber, exclude, VerseId, RefRange, MappingView, ok, ok_inj,
  relation_eq,
}
use versification_tool.Resolver.Reference.{covers, index_in_range}
use versification_tool.Resolver.Compose.{invert_relation}
use versification_tool.Resolver.Cover.{
  zip_range, range_length, Projection, clamp_index, zip_verse, zip_project, project_ranges,
  project_through,
}
use versification_tool.Resolver.Cover.Sides.{Sides, climb, descend}

invert-zip : (r : Relation) → zip_range r ≡ true → invert_relation r ≡ r
unfolding invert_relation
invert-zip r h = ground arith

project_ranges-zip :
    (verse : VerseId) (row : MappingView) (upward : Bool) (r : Relation) (source base : RefRange)
    → zip_range r ≡ true
    → project_ranges verse row upward r source base ≡ zip_project verse source base r verse.part
unfolding project_ranges
project_ranges-zip verse row upward one_to_one source base h = refl
project_ranges-zip verse row upward shift source base h = refl
project_ranges-zip verse row upward renumber source base h = refl
project_ranges-zip verse row upward _ source base h = cc

not_exclude : (r : Relation) → zip_range r ≡ true → (r == exclude) ≡ false
not_exclude r h = ground arith

module _ (row : MappingView) (source base : RefRange) (s : Sides row source base)
    (zips : zip_range row.relation ≡ true) where
  climb_zip :
      (v : VerseId)
      → project_through v row true ≡ ok (zip_project v source base row.relation v.part)
  climb_zip v =
      climb row source base s v (not_exclude row.relation zips)
      ∙ ap ok (project_ranges-zip v row true row.relation source base zips)

  descend_zip :
      (v : VerseId)
      → project_through v row false ≡ ok (zip_project v base source row.relation v.part)
  descend_zip v =
      descend row source base s v
        (rw (invert-zip row.relation zips) (not_exclude row.relation zips))
      ∙ ap (λ (r : Relation). ok (project_ranges v row false r base source))
          (invert-zip row.relation zips)
      ∙ ap ok (project_ranges-zip v row false row.relation base source zips)

-- The verse that a zip projects to.
abbrev pub zip_target : VerseId → RefRange → RefRange → Option Text → VerseId
zip_target v source base part = record {
  book = base.book;
  chapter = base.chapter;
  verse =
      zip_verse source base
        (clamp_index (index_in_range source v) (base.verse_end + 1 - base.verse_start));
  part = part;
}

zip_verse-within :
    (source base : RefRange) (idx : ℕ)
    → base.verse_start ≤ base.verse_end
    → let n = zip_verse source base (clamp_index idx (base.verse_end + 1 - base.verse_start)) in
      (base.verse_start ≤ n) × (n ≤ base.verse_end)
zip_verse-within source base idx h = ground arith

-- Whatever the lengths, the projected verse lies in the output range.
pub zip_target-covered :
    (v : VerseId) (source base : RefRange) (part : Option Text)
    → base.verse_start ≤ base.verse_end
    → covers base (zip_target v source base part) ≡ true
unfolding covers
zip_target-covered v source base part h = ground (
  arith,
  zip_verse-within source base (index_in_range source v) h,
  text_beq_iff base.book base.book,
)

-- Between ranges of the same length the zip there and back is the identity.
zip_target-zip_target :
    (v : VerseId) (source base : RefRange)
    → covers source v ≡ true
    → range_length source ≡ range_length base
    → zip_target (zip_target v source base v.part) base source v.part ≡ v
unfolding covers range_length index_in_range
zip_target-zip_target v source base h e = ground (arith, text_beq_iff source.book v.book)

module _ (row : MappingView) (source base : RefRange) (s : Sides row source base)
    (zips : zip_range row.relation ≡ true) where
  -- A zip row sends every verse to exactly one verse, inside the base range.
  pub project_through-covered :
      (v : VerseId) (p : Projection)
      → base.verse_start ≤ base.verse_end
      → project_through v row true ≡ ok p
      → (w : VerseId) × (p.verses ≡ w ∷ []) × (covers base w ≡ true)
  unfolding zip_project
  project_through-covered v p h e = (
    zip_target v source base v.part,
    ap (λ (q : Projection). q.verses) (ok_inj (sym e ∙ climb_zip row source base s zips v)),
    zip_target-covered v source base v.part h,
  )

  -- Where both ranges of a zip row are as long, a covered verse climbs to one verse, and that verse
  -- descends to the verse again, each with the relation of the row.
  pub project_through-project_through :
      (v : VerseId)
      → covers source v ≡ true
      → range_length source ≡ range_length base
      → (w : VerseId) × (p : Projection) × (q : Projection) × (project_through v row true ≡ ok p)
        × (p.verses ≡ w ∷ [])
        × (p.relation ≡ row.relation)
        × (project_through w row false ≡ ok q)
        × (q.verses ≡ v ∷ [])
        × (q.relation ≡ row.relation)
  unfolding zip_project
  project_through-project_through v h e =
      let w = zip_target v source base v.part in
      (
        w,
        zip_project v source base row.relation v.part,
        zip_project w base source row.relation v.part,
        climb_zip row source base s zips v,
        refl,
        refl,
        descend_zip row source base s zips w,
        ap (λ (t : VerseId). t ∷ []) (zip_target-zip_target v source base h e),
        refl,
      )

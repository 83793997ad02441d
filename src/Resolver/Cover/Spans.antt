-- ===== src/Resolver/Cover/Spans.antt =====
-- The ranges and parts that projections stay in (frvt/resolver/cover.py).
use versification_tool.Prelude.{
  ◌≤◌, ◌≡◌, refl, sym, ◌∙◌, ap, inl, inr, true, false, not, Bool, Option, none, some, List, [], ◌∷◌,
  arith, Bool-cases, Option-cases, some_inj, Memᴰ-of-map, if◌then◌else◌,
}
use mathlib.Core.Path.{subst}
use mathlib.Core.List.{Memᴰ}
use mathlib.Core.List.Memᴰ
use versification_tool.Prelude.Equality.{◌==◌}
use versification_tool.Prelude.Texts.{Text, text_beq_iff}
use versification_tool.Resolver.Types.{
  Relation, merge, split, partial, exclude, VerseId, RefRange, MappingView, ok, ok_inj, >>=-eq-ok,
  relation_eq, relation_beq_iff,
}
use versification_tool.Resolver.Reference.{covers, expand, strip_part_suffix}
use versification_tool.Resolver.Reference.Accepts.{parse_ref_iff}
use versification_tool.Resolver.Reference.RoundTrip.{expand_iff}
use versification_tool.Resolver.Compose.{invert_relation}
use versification_tool.Resolver.Cover.{
  Projection, parse_ref_plain, cover_side, record_range, first_coordinate, with_part, or_else,
  project_ranges, project_sides, project_through, apply_identity, find_covering_record,
  project_verse,
}
use versification_tool.Resolver.Cover.Search.{find_covering_record-IsNarrowest}
use versification_tool.Resolver.Cover.Zip.{zip_target, zip_target-covered}
use versification_tool.Resolver.Cover.Merge.{first_of, parts_of}
use versification_tool.Resolver.Cover.Total.{
  IsWellFormed, cover_side-of-record_range, first_coordinate_lem, project_verse-ok,
}

pub ordered_of_parse :
    (s : Text) (r : RefRange) → parse_ref_plain s ≡ ok r → r.verse_start ≤ r.verse_end
unfolding parse_ref_plain
ordered_of_parse s r h =
    let (g, reference, text, same, ordered) = (parse_ref_iff (strip_part_suffix s).0 r).0 h in
    ordered

module _ (ranges : List RefRange) (parts : List (Option Text)) where
  -- The verse lies in one of the ranges, and its part is one of the parts.
  pub record IsSpanned (v : VerseId) : Type 0 where
    pub span : RefRange
    pub member : Memᴰ span ranges
    pub covered : covers span v ≡ true
    pub part : Memᴰ v.part parts

  -- The ranges and the part of the row are among these.
  pub record IsListed (row : MappingView) : Type 0 where
    pub source : (r : RefRange) → parse_ref_plain row.source_ref ≡ ok r → Memᴰ r ranges
    pub base :
        (s : Text) (r : RefRange) → row.base_ref ≡ some s → parse_ref_plain s ≡ ok r → Memᴰ r ranges
    pub part : Memᴰ row.part parts

  abbrev pub AllSpanned : List VerseId → Type 0
  AllSpanned vs = (v : VerseId) → Memᴰ v vs → IsSpanned v

  only : (v : VerseId) → IsSpanned v → AllSpanned (v ∷ [])
  only v h w m = subst IsSpanned (sym (Memᴰ.eq_of_singleton m)) h

  first_of-covered :
      (r : RefRange) (part : Option Text)
      → r.verse_start ≤ r.verse_end
      → covers r (first_of r part) ≡ true
  unfolding covers
  first_of-covered r part h = ground (arith, text_beq_iff r.book r.book)

  or_else_member : (a b : Option Text) → Memᴰ a parts → Memᴰ b parts → Memᴰ (or_else a b) parts
  or_else_member none b h k = k
  or_else_member (some []) b h k = k
  or_else_member (some (c ∷ s)) b h k = h

  part_member :
      (v : VerseId) (row : MappingView) (up : Bool)
      → Memᴰ v.part parts
      → Memᴰ row.part parts
      → Memᴰ (if up then row.part else or_else v.part row.part) parts
  part_member v row true h k = k
  part_member v row false h k = or_else_member v.part row.part h k

  parts_of-AllSpanned :
      (r : RefRange) (part : Option Text)
      → Memᴰ r ranges
      → Memᴰ part parts
      → AllSpanned (parts_of r part)
  unfolding covers
  parts_of-AllSpanned r part m k w h =
      let (u, inside, e) = Memᴰ-of-map (with_part part) (expand r) w h in
      let at_u : IsSpanned (with_part part u) = record {
        span = r;
        member = m;
        covered = ((expand_iff r u).0 inside).0;
        part = k;
      } in
      subst IsSpanned (sym e) at_u

  module _ (v : VerseId) (row : MappingView) (up : Bool) (source base : RefRange) (h : IsSpanned v)
      (m : Memᴰ base ranges) (o : base.verse_start ≤ base.verse_end) (k : Memᴰ row.part parts) where
    zip-AllSpanned :
        (part : Option Text) → Memᴰ part parts → AllSpanned (zip_target v source base part ∷ [])
    zip-AllSpanned part q = only (zip_target v source base part) (record {
      span = base;
      member = m;
      covered = zip_target-covered v source base part o;
      part = q;
    })

    project_ranges-AllSpanned :
        (r : Relation) → AllSpanned (project_ranges v row up r source base).verses
    unfolding project_ranges
    project_ranges-AllSpanned merge = only (first_of base v.part) (record {
      span = base;
      member = m;
      covered = first_of-covered base v.part o;
      part = h.part;
    })
    project_ranges-AllSpanned split = parts_of-AllSpanned base v.part m h.part
    project_ranges-AllSpanned partial =
        zip-AllSpanned (if up then row.part else or_else v.part row.part)
          (part_member v row up h.part k)
    project_ranges-AllSpanned _ = zip-AllSpanned v.part h.part

  -- The side that a listed row searches, and the other one.
  side_member :
      (row : MappingView) (up : Bool) (s : Text) (r : RefRange)
      → IsListed row
      → cover_side row up ≡ some s
      → parse_ref_plain s ≡ ok r
      → Memᴰ r ranges
  side_member row true s r l e h =
      l.source r (subst (λ (t : Text). parse_ref_plain t ≡ ok r) (sym (some_inj e)) h)
  side_member row false s r l e h = l.base s r e h

  -- A row without a base that is not a merge excludes. A merge falls on its own first verse.
  merge_alone :
      (v : VerseId) (row : MappingView) (up : Bool) (source base : RefRange) (s : Text)
      → IsSpanned v
      → Memᴰ source ranges
      → source.verse_start ≤ source.verse_end
      → parse_ref_plain (first_coordinate source) ≡ ok base
      → parse_ref_plain s ≡ ok source
      → AllSpanned (project_ranges v row up merge source base).verses
  unfolding project_ranges
  merge_alone v row up source base s h m o e q =
      let alone = ok_inj (sym (first_coordinate_lem s source q) ∙ e) in
      only (first_of base v.part) (record {
        span = source;
        member = m;
        covered =
            subst (λ (b : RefRange). covers source (first_of b v.part) ≡ true) alone
              (first_of-covered source v.part o);
        part = h.part;
      })

  no_verses : AllSpanned []
  no_verses w m = elim m [ ]

  project_sides-AllSpanned :
      (v : VerseId) (row : MappingView) (up : Bool) (r : Relation) (s : Text) (source : RefRange)
      (b : Option Text) (p : Projection)
      → IsSpanned v
      → IsListed row
      → Memᴰ source ranges
      → parse_ref_plain s ≡ ok source
      → b ≡ cover_side row (not up)
      → project_sides v row up r (some s) b ≡ ok p
      → AllSpanned p.verses
  unfolding project_sides
  project_sides-AllSpanned v row up r s source none p h l m q e made =
      elim (Bool-cases (r == merge)) [
        | inr f ↦
            let shape = ok_inj (rw (f, project_sides) at made) in
            subst (λ (t : Projection). AllSpanned t.verses) shape no_verses
        | inl t ↦
            let is_merge : r ≡ merge = (relation_beq_iff r merge).0 t in
            let (base, parsed, rest) =
              >>=-eq-ok (parse_ref_plain (first_coordinate source)) _
                (rw (t, q, project_sides) at made) in
            subst (λ (t : Projection). AllSpanned t.verses)
              (ap (λ (u : Relation). project_ranges v row up u source base) (sym is_merge)
                ∙ ok_inj rest)
              (merge_alone v row up source base s h m (ordered_of_parse s source q) parsed q)
      ]
  project_sides-AllSpanned v row up r s source (some b) p h l m q e made =
      let (base, parsed, rest) = >>=-eq-ok (parse_ref_plain b) _ (rw (q, project_sides) at made) in
      subst (λ (t : Projection). AllSpanned t.verses) (ok_inj rest)
        (project_ranges-AllSpanned v row up source base h
          (side_member row (not up) b base l (sym e) parsed) (ordered_of_parse b base parsed) l.part
          r)

  project_through-AllSpanned :
      (v : VerseId) (row : MappingView) (up : Bool) (cover : RefRange) (p : Projection)
      → IsSpanned v
      → IsListed row
      → record_range row up ≡ some cover
      → project_through v row up ≡ ok p
      → AllSpanned p.verses
  unfolding project_through
  project_through-AllSpanned v row up cover p h l c made =
      let relation = if up then row.relation else invert_relation row.relation in
      let (s, side, parsed) = cover_side-of-record_range row up cover c in
      elim (Bool-cases (relation == exclude)) [
        | inl t ↦
            subst (λ (t : Projection). AllSpanned t.verses)
              (ok_inj (rw (t, project_through) at made)) no_verses
        | inr f ↦
            project_sides-AllSpanned v row up relation s cover (cover_side row (not up)) p h l
              (side_member row up s cover l side parsed) parsed refl
              (rw (f, side, project_through) at made)
      ]

  -- Through well-formed rows that are listed, a spanned verse is projected to spanned verses.
  pub project_verse-AllSpanned :
      (rows : List MappingView) (up : Bool) (v : VerseId)
      → ((row : MappingView) → Memᴰ row rows → IsWellFormed row × IsListed row)
      → IsSpanned v
      → (p : Projection) × (project_verse v rows up ≡ ok p) × AllSpanned p.verses
  unfolding project_verse apply_identity
  project_verse-AllSpanned rows up v good h =
      let (p, made) = project_verse-ok v rows up (λ row m. (good row m).0) in
      (
        p,
        made,
        elim (Option-cases (find_covering_record rows v up)) [
          | inl n ↦
              subst (λ (t : Projection). AllSpanned t.verses)
                (ok_inj (rw (n, project_verse) at made)) (only v h)
          | inr (row, e) ↦
              let found = find_covering_record-IsNarrowest rows v up row e in
              project_through-AllSpanned v row up found.applies.cover p h (good row found.member).1
                found.applies.side (rw (e, project_verse) at made)
        ],
      )

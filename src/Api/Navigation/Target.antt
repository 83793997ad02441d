-- ===== src/Api/Navigation/Target.antt =====
-- `navigation_target` of frvt/api/routers/navigation.py: a row is visited at one verse.
use versification_tool.Prelude.{◌≡◌, refl, sym, ap, ◌∙◌, Option, none, some}
use mathlib.Core.Path.{subst}
use versification_tool.Prelude.Texts.{Text}
use versification_tool.Resolver.Types.{
  RefRange, VerseId, Raised, Result, ok, raised, ok_inj, >>=-eq-ok,
}
use versification_tool.Resolver.Reference.{
  Groups, parse_ref, strip_part_suffix, match_prefix, format_bcv,
}
use versification_tool.Resolver.Reference.Grammar.{IsBook}
use versification_tool.Resolver.Reference.Accepts.{parse_ref_iff}
use versification_tool.Resolver.Reference.RoundTrip.{single, parse_ref-format_bcv}
use versification_tool.Api.Jump.{Navigation}
use versification_tool.Api.Navigation.{
  JumpMapping, read_match, leading_verse, navigation_target, jump_navigation_ref, part_or,
}

parse_ref-IsBook : (s : Text) (r : RefRange) → parse_ref s ≡ ok r → IsBook r.book
parse_ref-IsBook s r h =
    let (g, reference, text, same, ordered) = (parse_ref_iff s r).0 h in
    subst (λ (q : RefRange). IsBook q.book) (sym same) reference.book

read_match-IsBook :
    (e : Raised) (found : Option (Groups × Text)) (r : RefRange)
    → read_match e found ≡ ok r
    → IsBook r.book
read_match-IsBook e none r h = cc
read_match-IsBook e (some (g, rest)) r h = parse_ref-IsBook _ r h

leading_verse-IsBook :
    (plain : Text) (m : Result RefRange) (r : RefRange)
    → m ≡ parse_ref plain
    → leading_verse plain m ≡ ok r
    → IsBook r.book
unfolding leading_verse
leading_verse-IsBook plain (ok q) r e h = parse_ref-IsBook plain r (sym e ∙ h)
leading_verse-IsBook plain (raised x) r e h = read_match-IsBook x (match_prefix plain) r h

-- The text that a row is visited at names one verse, the first of the row's range; the part is the
-- row's own.
pub jump_navigation_ref-single :
    (row : JumpMapping) (n : Navigation)
    → jump_navigation_ref row ≡ ok n
    → (r : RefRange) × (leading_verse
          (strip_part_suffix row.source_ref).0
          (parse_ref (strip_part_suffix row.source_ref).0)
        ≡ ok r)
      × (parse_ref n.0
          ≡ ok (record {
            book = r.book;
            chapter = r.chapter;
            verse_start = r.verse_start;
            verse_end = r.verse_start;
          }))
      × (n.1 ≡ row.part)
unfolding jump_navigation_ref navigation_target
jump_navigation_ref-single row n h =
    let (target, e, f) = >>=-eq-ok (navigation_target row.source_ref row.part) _ h in
    let (r, e2, f2) =
      >>=-eq-ok
        (leading_verse (strip_part_suffix row.source_ref).0
          (parse_ref (strip_part_suffix row.source_ref).0))
        _ e in
    let book = leading_verse-IsBook _ (parse_ref (strip_part_suffix row.source_ref).0) r refl e2 in
    let verse : VerseId = record {
      book = r.book;
      chapter = r.chapter;
      verse = r.verse_start;
      part = part_or row.part (strip_part_suffix row.source_ref).1;
    } in
    let written : format_bcv verse ≡ n.0 =
      ap (λ (t : Text × VerseId). t.0) (ok_inj f2) ∙ ap (λ (t : Navigation). t.0) (ok_inj f) in
    (
      r,
      e2,
      subst (λ (t : Text). parse_ref t ≡ ok (single verse)) written
          (parse_ref-format_bcv verse book),
      sym (ap (λ (t : Navigation). t.1) (ok_inj f)),
    )

-- ===== src/Resolver/Reference/Plain.antt =====
-- `strip_part_suffix` of frvt/ingest/normalize.py, on references of the grammar.
use versification_tool.Prelude.{
  ℕ, ◌≡◌, refl, sym, ◌∙◌, ap, ◌≢◌, true, false, Option, none, some, [], ◌∷◌, ◌++◌, arith,
}
use mathlib.Core.Path.{subst}
use mathlib.Core.List.{reverse, reverse-append, reverse-reverse, append-nil}
use versification_tool.Prelude.Texts.{Text, is_digit, is_space, lstrip, strip}
use versification_tool.Prelude.Decimal.RoundTrip.{all_digits}
use versification_tool.Resolver.Types.{RefRange, ok}
use versification_tool.Resolver.Reference.{
  is_book_char, part_suffix, strip_part_suffix, write_end, parse_ref,
}
use versification_tool.Resolver.Reference.Grammar.{IsNumber, IsEnd, IsReference}
use versification_tool.Resolver.Reference.Accepts.{match_prefix_complete, parse_ref_iff}

lstrip-solid : (c : ℕ) (s : Text) → is_space c ≡ false → lstrip (c ∷ s) ≡ c ∷ s
unfolding lstrip
lstrip-solid c s h = rw h

-- Nothing is stripped between two characters that are no spaces.
strip-solid :
    (c d : ℕ) (s f : Text)
    → is_space c ≡ false
    → is_space d ≡ false
    → c ∷ s ≡ f ++ d ∷ []
    → strip (c ∷ s) ≡ c ∷ s
unfolding strip
strip-solid c d s f hc hd e = rw (lstrip-solid c s hc) (
    ap (λ (t : Text). reverse (lstrip (reverse t))) e
    ∙ ap (λ (t : Text). reverse (lstrip t)) (reverse-append f (d ∷ []))
    ∙ ap reverse (lstrip-solid d (reverse f) hd)
    ∙ ap reverse (sym (reverse-append f (d ∷ [])))
    ∙ reverse-reverse (f ++ d ∷ [])
    ∙ sym e)

-- The last character is a digit.
abbrev EndsInDigit : Text → Type 0
EndsInDigit s = (f : Text) × (d : ℕ) × (s ≡ f ++ d ∷ []) × (is_digit d ≡ true)

EndsInDigit-cons : (c : ℕ) (s : Text) → EndsInDigit s → EndsInDigit (c ∷ s)
EndsInDigit-cons c s (f, d, split, digit) = (c ∷ f, d, ap (◌∷◌ c) split, digit)

EndsInDigit-append : (s t : Text) → EndsInDigit t → EndsInDigit (s ++ t)
EndsInDigit-append [] t h = h
EndsInDigit-append (c ∷ s) t h = EndsInDigit-cons c (s ++ t) (EndsInDigit-append s t h)

number-EndsInDigit : (s : Text) → s ≢ [] → all_digits s ≡ true → EndsInDigit s
number-EndsInDigit [] n h = absurd (n refl)
number-EndsInDigit (c ∷ []) n h = ([], c, refl, ground arith)
number-EndsInDigit (c ∷ d ∷ s) n h =
    EndsInDigit-cons c (d ∷ s) (number-EndsInDigit (d ∷ s) (λ q. cc) (ground arith))

verses-EndsInDigit :
    (v : Text) (e : Option Text) → IsNumber v → IsEnd e → EndsInDigit (v ++ write_end e)
verses-EndsInDigit v none n m = rw append-nil (number-EndsInDigit v n.some_digit n.digits)
verses-EndsInDigit v (some e) n m =
    EndsInDigit-append v (b'-' ∷ e)
      (EndsInDigit-cons b'-' e (number-EndsInDigit e m.some_digit m.digits))

digit-solid : (c : ℕ) → is_digit c ≡ true → is_space c ≡ false
unfolding is_space
digit-solid c h = ground arith

book-solid : (c : ℕ) → is_book_char c ≡ true → is_space c ≡ false
unfolding is_space
book-solid c h = ground arith

written-strip :
    (b c v : Text) (e : Option Text)
    → IsReference (record { book = b; chapter_s = c; start_s = v; end_s = e })
    → let s = b ++ (b' ' ∷ (c ++ (b':' ∷ (v ++ write_end e)))) in strip s ≡ s
written-strip [] c v e r = elim r.book [ ]
written-strip (x ∷ []) c v e r = elim r.book [ ]
written-strip (x ∷ y ∷ []) c v e r = elim r.book [ ]
written-strip (x ∷ y ∷ z ∷ w ∷ b) c v e r = elim r.book [ ]
written-strip (x ∷ y ∷ z ∷ []) c v e r =
    let (f, d, split, digit) =
      EndsInDigit-append (x ∷ y ∷ z ∷ b' ' ∷ c) (b':' ∷ (v ++ write_end e))
        (EndsInDigit-cons b':' (v ++ write_end e) (verses-EndsInDigit v e r.start r.end_)) in
    strip-solid x d (y ∷ z ∷ b' ' ∷ (c ++ (b':' ∷ (v ++ write_end e)))) f (book-solid x r.book.0)
      (digit-solid d digit) split

-- Nothing is stripped of a text that `parse_ref` accepts.
pub strip-accepted : (s : Text) (r : RefRange) → parse_ref s ≡ ok r → strip s ≡ s
strip-accepted s r h =
    let (g, reference, text, _, _) = (parse_ref_iff s r).0 h in
    subst (λ (t : Text). strip t ≡ t) (sym text)
      (written-strip g.book g.chapter_s g.start_s g.end_s reference)

-- A text that `parse_ref` accepts passes `strip_part_suffix` unchanged, with no part.
pub strip_part_suffix-plain :
    (s : Text) (r : RefRange) → parse_ref s ≡ ok r → strip_part_suffix s ≡ (s, none)
unfolding strip_part_suffix part_suffix
strip_part_suffix-plain s r h =
    let (g, reference, text, _, _) = (parse_ref_iff s r).0 h in
    let at_end = match_prefix_complete g [] reference tt in
    subst (λ (t : Text). strip_part_suffix t ≡ (t, none)) (sym text)
      (rw (
        written-strip g.book g.chapter_s g.start_s g.end_s reference,
        rw append-nil at at_end,
        part_suffix,
        strip_part_suffix,
      ))

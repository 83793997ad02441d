-- ===== src/Resolver/Reference/Grammar.antt =====
-- The texts that the regular expressions of parse_ref.py accept, described without a matcher.
use versification_tool.Prelude.{
  ℕ, ◌≡◌, refl, ap, ◌∙◌, sym, ◌≢◌, true, false, ◌&&◌, Option, none, some, [], ◌∷◌, ◌++◌, arith, inl,
  inr, Bool-cases, Option-cases, some_inj,
}
use mathlib.Core.Path.{subst}
use mathlib.Core.List.{append_assoc}
use versification_tool.Prelude.Equality.{nat_eq, ◌==◌}
use versification_tool.Prelude.Texts.{Text, is_digit}
use versification_tool.Prelude.Decimal.RoundTrip.{all_digits}
use versification_tool.Resolver.Reference.{
  Groups, is_book_char, span_digits, nonempty, match_end, match_verses, match_prefix, write_end,
  write_groups,
}

-- `[0-9]+`
pub record IsNumber (s : Text) : Type 0 where
  pub some_digit : s ≢ []
  pub digits : all_digits s ≡ true

-- `[A-Z1-6]{3}`
abbrev pub IsBook : Text → Type 0
IsBook (x ∷ y ∷ z ∷ []) =
    (is_book_char x ≡ true) × (is_book_char y ≡ true) × (is_book_char z ≡ true)
IsBook _ = ⊥

abbrev pub IsEnd : Option Text → Type 0
IsEnd none = Unit
IsEnd (some e) = IsNumber e

-- The groups of a reference.
pub record IsReference (g : Groups) : Type 0 where
  pub book : IsBook g.book
  pub chapter : IsNumber g.chapter_s
  pub start : IsNumber g.start_s
  pub end_ : IsEnd g.end_s

-- No digit stands at the front.
abbrev pub Stops : Text → Type 0
Stops [] = Unit
Stops (c ∷ s) = is_digit c ≡ false

span_digits_split : (s : Text) → (span_digits s).0 ++ (span_digits s).1 ≡ s
unfolding span_digits
span_digits_split [] = refl
span_digits_split (c ∷ s) = elim (Bool-cases (is_digit c)) [
  | inl t ↦ rw t (ap (◌∷◌ c) (span_digits_split s))
  | inr f ↦ rw f
]

span_digits-all_digits : (s : Text) → all_digits (span_digits s).0 ≡ true
unfolding span_digits
span_digits-all_digits [] = refl
span_digits-all_digits (c ∷ s) = elim (Bool-cases (is_digit c)) [
  | inl t ↦ rw (t, t) (span_digits-all_digits s)
  | inr f ↦ rw f
]

pub span_digits-append :
    (d rest : Text) → all_digits d ≡ true → Stops rest → span_digits (d ++ rest) ≡ (d, rest)
unfolding span_digits
span_digits-append [] [] h stop = refl
span_digits-append [] (c ∷ rest) h stop = rw stop
span_digits-append (c ∷ d) rest h stop = ground (arith, span_digits-append d rest)

pub nonempty-span_digits :
    (d rest : Text) → IsNumber d → Stops rest → nonempty (span_digits (d ++ rest)) ≡ some (d, rest)
nonempty-span_digits [] rest n stop = absurd (n.some_digit refl)
nonempty-span_digits (c ∷ d) rest n stop = rw (span_digits-append (c ∷ d) rest n.digits stop)

nonempty-eq-some :
    (t : Text × Text) (d rest : Text) → nonempty t ≡ some (d, rest) → (d ≢ []) × (t ≡ (d, rest))
nonempty-eq-some ([], q) d rest h = cc
nonempty-eq-some (c ∷ s, q) d rest h = (λ e. ground arith, ground arith)

-- What a run of digits at the front is.
IsNumber-of_span :
    (s d rest : Text) → nonempty (span_digits s) ≡ some (d, rest) → IsNumber d × (s ≡ d ++ rest)
IsNumber-of_span s d rest h =
    let (ne, e) = nonempty-eq-some (span_digits s) d rest h in
    (
      record {
        some_digit = ne;
        digits = ap (λ (t : Text × Text). all_digits t.0) (sym e) ∙ span_digits-all_digits s;
      },
      sym (span_digits_split s) ∙ ap (λ (t : Text × Text). t.0 ++ t.1) e,
    )

record EndSound (b c v s : Text) (r : Groups × Text) : Type 0 where
  end_ : IsEnd r.0.end_s
  book : r.0.book ≡ b
  chapter : r.0.chapter_s ≡ c
  start : r.0.start_s ≡ v
  text : s ≡ write_end r.0.end_s ++ r.1

match_end_sound : (b c v s : Text) → EndSound b c v s (match_end b c v s)
match_end_sound b c v [] = record {
  end_ = tt;
  book = refl;
  chapter = refl;
  start = refl;
  text = refl;
}
match_end_sound b c v (h ∷ s) = elim (Bool-cases (h == b'-')) [
  | inr f ↦ rw f (record { end_ = tt; book = refl; chapter = refl; start = refl; text = refl })
  | inl t ↦ elim (Option-cases (nonempty (span_digits s))) [
    | inl n ↦
        rw (t, n) (record { end_ = tt; book = refl; chapter = refl; start = refl; text = refl })
    | inr ((e, rest), p) ↦
        let (number, split) = IsNumber-of_span s e rest p in
        rw (t, p)
          (record {
            end_ = number;
            book = refl;
            chapter = refl;
            start = refl;
            text = ground (arith, split);
          })
  ]
]

-- The prefix matches a reference, and the rest of the text stays.
pub record PrefixSound (s : Text) (g : Groups) (rest : Text) : Type 0 where
  pub reference : IsReference g
  pub text : s ≡ write_groups g ++ rest

pub write_groups-append :
    (g : Groups) (rest : Text)
    → write_groups g ++ rest
      ≡ g.book ++ (b' ' ∷ (g.chapter_s ++ (b':' ∷ (g.start_s ++ (write_end g.end_s ++ rest)))))
write_groups-append g rest = simp append_assoc

module _ (x y z : ℕ) (c : Text) (book : IsBook (x ∷ y ∷ z ∷ [])) (n : IsNumber c) where
  abbrev front : Text
  front = x ∷ y ∷ z ∷ []

  from_end :
      (v s : Text) (r : Groups × Text)
      → IsNumber v
      → EndSound front c v s r
      → PrefixSound (front ++ (b' ' ∷ (c ++ (b':' ∷ (v ++ s))))) r.0 r.1
  from_end v s r m e = record {
    reference = record {
      book = rw e.book book;
      chapter = rw e.chapter n;
      start = rw e.start m;
      end_ = e.end_;
    };
    text = rw (write_groups-append r.0 r.1, e.book, e.chapter, e.start, ← e.text);
  }

  match_verses_sound :
      (s rest : Text) (g : Groups)
      → match_verses front c s ≡ some (g, rest)
      → PrefixSound (front ++ (b' ' ∷ (c ++ s))) g rest
  match_verses_sound [] rest g e = cc
  match_verses_sound (k ∷ s) rest g e = elim (Bool-cases (k == b':')) [
    | inr f ↦ cc (rw f at e)
    | inl t ↦ elim (Option-cases (nonempty (span_digits s))) [
      | inl q ↦ cc (rw (t, q) at e)
      | inr ((v, more), q) ↦
          let (m, split) = IsNumber-of_span s v more q in
          let found : match_end front c v more ≡ (g, rest) = some_inj (rw (t, q) at e) in
          let colon : k ≡ b':' = ground arith in
          rw (colon, split)
            (subst
              (λ (r : Groups × Text).
                PrefixSound (front ++ (b' ' ∷ (c ++ (b':' ∷ (v ++ more))))) r.0 r.1)
              found (from_end v more (match_end front c v more) m (match_end_sound front c v more)))
    ]
  ]

pub match_prefix_sound :
    (s rest : Text) (g : Groups) → match_prefix s ≡ some (g, rest) → PrefixSound s g rest
unfolding match_prefix
match_prefix_sound [] rest g e = cc
match_prefix_sound (x ∷ []) rest g e = cc
match_prefix_sound (x ∷ y ∷ []) rest g e = cc
match_prefix_sound (x ∷ y ∷ z ∷ []) rest g e = cc
match_prefix_sound (x ∷ y ∷ z ∷ h ∷ s) rest g e =
    elim (Bool-cases (is_book_char x && is_book_char y && is_book_char z && h == b' ')) [
      | inr f ↦ cc (rw f at e)
      | inl t ↦ elim (Option-cases (nonempty (span_digits s))) [
        | inl q ↦ cc (rw (t, q) at e)
        | inr ((c, more), q) ↦
            let (n, split) = IsNumber-of_span s c more q in
            let space : h ≡ b' ' = ground arith in
            rw (space, split)
              (match_verses_sound x y z c (ground arith) n more rest g (rw (t, q) at e))
      ]
    ]

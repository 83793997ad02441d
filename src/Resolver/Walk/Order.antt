-- ===== src/Resolver/Walk/Order.antt =====
-- `sort_verses` of frvt/resolver/walk.py, and the order in which Python reads a set.
use versification_tool.Prelude.{◌≡◌, ◌≢◌, refl, ap, Option, none, some, [], ◌∷◌, List, arith}
use mathlib.Core.List.{Memᴰ}
use versification_tool.Prelude.Compare.{nat_ord, list_ord, pair_ord}
use versification_tool.Prelude.Sorting.{
  IsAscending, KeysDiffer, sorted_set_unique, sorted_set-IsAscending,
}
use versification_tool.Prelude.Texts.{Text}
use versification_tool.Resolver.Types.{VerseId, verse_eq}
use versification_tool.Resolver.Walk.{part_or_empty, verse_key, sort_verses}

-- No verse of the list has the empty text as its part.
abbrev pub HasNoEmptyPart : List VerseId → Type 0
HasNoEmptyPart vs = (v : VerseId) → Memᴰ v vs → v.part ≢ some []

same_part :
    (p q : Option Text) → p ≢ some [] → q ≢ some [] → part_or_empty p ≡ part_or_empty q → p ≡ q
same_part none none h k e = refl
same_part none (some []) h k e = absurd (k refl)
same_part none (some (c ∷ s)) h k e = cc
same_part (some []) q h k e = absurd (h refl)
same_part (some (c ∷ s)) none h k e = cc
same_part (some (c ∷ s)) (some t) h k e = ap some e

-- Such verses are told apart by their sort keys.
keys_differ : (vs : List VerseId) → HasNoEmptyPart vs → KeysDiffer verse_key vs
keys_differ vs h a b m n e = ground (arith, same_part a.part b.part (h a m) (h b n), e)

-- Two lists with the same verses, none with an empty part, sort to the same list.
pub sort_verses_unique :
    (xs ys : List VerseId)
    → HasNoEmptyPart xs
    → ((v : VerseId) → Memᴰ v xs → Memᴰ v ys)
    → ((v : VerseId) → Memᴰ v ys → Memᴰ v xs)
    → sort_verses xs ≡ sort_verses ys
unfolding sort_verses
sort_verses_unique xs ys h f b = sorted_set_unique verse_key xs ys (keys_differ xs h) f b

-- The sorted verses ascend strictly.
pub sort_verses-IsAscending :
    (xs : List VerseId) → HasNoEmptyPart xs → IsAscending verse_key (sort_verses xs)
unfolding sort_verses
sort_verses-IsAscending xs h = sorted_set-IsAscending verse_key xs (keys_differ xs h)

-- ===== src/Prelude/Distinct.antt =====
-- Lists without repeats, by the Boolean membership test, and the pigeonhole principle for them.
use versification_tool.Prelude.Tests.{if◌then◌else◌, Bool-cases}
use versification_tool.Prelude.Lists.{length}
use versification_tool.Prelude.Equality.{Eq, ◌==◌, contains}
use Prim.Native.Nat.{suc, ◌≤◌}
use mathlib.Core.Path.{◌≡◌, refl}
use mathlib.Core.Path.{subst}
use mathlib.Core.Logic.{inl, inr}
use mathlib.Core.Bool.{true, false}
use mathlib.Core.List.{List, [], ◌∷◌, ◌++◌}
use native.Mathlib.Omega.{arith}

module _ {ℓ} {A : Type ℓ} ⦃e : Eq A⦄ where
  abbrev pub IsDistinct : List A → Type 0
  IsDistinct [] = Unit {0}
  IsDistinct (x ∷ xs) = (contains x xs ≡ false) × IsDistinct xs

  -- The list without the first occurrence of an element.
  erase : A → List A → List A
  erase a [] = []
  erase a (x ∷ xs) = let rest = erase a xs in if x == a then xs else x ∷ rest

  length-erase :
      (a : A) (xs : List A) → contains a xs ≡ true → suc (length (erase a xs)) ≡ length xs
  unfolding erase contains
  length-erase a [] h = cc
  length-erase a (x ∷ xs) h = elim (Bool-cases (x == a)) [
    | inl t ↦ rw t
    | inr f ↦ rw f (ground (arith, length-erase a xs, e.beq_iff a x, e.beq_iff x a))
  ]

  contains-erase :
      (a b : A) (xs : List A)
      → contains b xs ≡ true
      → (a == b) ≡ false
      → contains b (erase a xs) ≡ true
  unfolding erase contains
  contains-erase a b [] h n = cc
  contains-erase a b (x ∷ xs) h n = elim (Bool-cases (x == a)) [
    | inl t ↦ rw t (ground (arith, e.beq_iff x a, e.beq_iff b x, e.beq_iff a b))
    | inr f ↦ rw f (ground (arith, contains-erase a b xs))
  ]

  eq-false_of_contains :
      (x a : A) (xs : List A) → contains x xs ≡ false → contains a xs ≡ true → (x == a) ≡ false
  eq-false_of_contains x a xs f t = elim (Bool-cases (x == a)) [
    | inl same ↦ let u = subst (λ (y : A). contains y xs ≡ false) ((e.beq_iff x a).0 same) f in cc
    | inr other ↦ other
  ]

  -- A list without repeats whose elements stand in another is no longer than it.
  pub length-le_of_distinct :
      (xs ys : List A)
      → IsDistinct xs
      → ((a : A) → contains a xs ≡ true → contains a ys ≡ true)
      → length xs ≤ length ys
  unfolding contains
  length-le_of_distinct [] ys d h = omega arith
  length-le_of_distinct (x ∷ xs) ys d h =
      let here : contains x ys ≡ true = h x (ground (arith, e.beq_iff x x)) in
      let fewer : length xs ≤ length (erase x ys) =
        length-le_of_distinct xs (erase x ys) d.1 (λ a m.
          contains-erase x a ys (h a (ground (arith, m))) (eq-false_of_contains x a xs d.0 m)) in
      omega (arith, length-erase x ys here)

  contains-append_one :
      (a x : A) (xs : List A)
      → contains a xs ≡ false
      → (a == x) ≡ false
      → contains a (xs ++ (x ∷ [])) ≡ false
  unfolding contains
  contains-append_one a x [] h n = ground (arith, n)
  contains-append_one a x (y ∷ xs) h n = ground (arith, contains-append_one a x xs, h, n)

  pub IsDistinct-append_one :
      (x : A) (xs : List A) → contains x xs ≡ false → IsDistinct xs → IsDistinct (xs ++ (x ∷ []))
  unfolding contains
  IsDistinct-append_one x [] h d = (refl, tt)
  IsDistinct-append_one x (y ∷ xs) h d = (
    contains-append_one y x xs d.0 (ground (arith, e.beq_iff x y, e.beq_iff y x, h)),
    IsDistinct-append_one x xs (ground (arith, h)) d.1,
  )

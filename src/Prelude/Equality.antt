-- ===== src/Prelude/Equality.antt =====
-- Python's `==` as an interface with its law, `in` on lists, and a set as a list without repeats.
use versification_tool.Prelude.Tests.{nat_beq, nat_beq_iff, if◌then◌else◌, Bool-cases}
use Prim.Native.Nat.{ℕ}
use mathlib.Core.Path.{◌≡◌}
use mathlib.Core.Logic.{◌↔◌, inl, inr, ⊎_elim}
use mathlib.Core.Bool.{Bool, true, false, ◌&&◌, ◌||◌}
use mathlib.Core.Option.{Option, none, some}
use mathlib.Core.List.{List, [], ◌∷◌, Memᴰ}
use mathlib.Core.List.Memᴰ
use native.Mathlib.Omega.{arith}

-- A type whose values Python compares by value.
pub record Eq {κ} (K : Type κ) : Type κ where
  pub beq : K → K → Bool
  pub beq_iff : (x y : K) → (beq x y ≡ true) ↔ (x ≡ y)

instance abbrev pub nat_eq : Eq ℕ
nat_eq = record { beq = nat_beq; beq_iff = nat_beq_iff }

infix 50 ◌==◌
abbrev pub ◌==◌ {κ} : {K : Type κ} ⦃by : Eq K⦄ → K → K → Bool
◌==◌ ⦃by⦄ x y = by.beq x y

module _ {ℓ} {A : Type ℓ} ⦃e : Eq A⦄ where
  abbrev pub list_beq : List A → List A → Bool
  list_beq [] [] = true
  list_beq (x ∷ xs) (y ∷ ys) = x == y && list_beq xs ys
  list_beq _ _ = false

  pub list_beq_iff : (xs ys : List A) → (list_beq xs ys ≡ true) ↔ (xs ≡ ys)
  list_beq_iff [] [] = ground arith
  list_beq_iff [] (y ∷ ys) = ground arith
  list_beq_iff (x ∷ xs) [] = ground arith
  list_beq_iff (x ∷ xs) (y ∷ ys) = ground (arith, list_beq_iff xs ys, e.beq_iff x y)

  abbrev pub option_beq : Option A → Option A → Bool
  option_beq none none = true
  option_beq (some x) (some y) = x == y
  option_beq _ _ = false

  pub option_beq_iff : (x y : Option A) → (option_beq x y ≡ true) ↔ (x ≡ y)
  option_beq_iff none none = ground arith
  option_beq_iff none (some y) = ground arith
  option_beq_iff (some x) none = ground arith
  option_beq_iff (some x) (some y) = ground (arith, e.beq_iff x y)

  instance abbrev pub option_eq : Eq (Option A)
  option_eq = record { beq = option_beq; beq_iff = option_beq_iff }

  unfoldable pub contains : A → List A → Bool
  contains a [] = false
  contains a (x ∷ xs) = a == x || contains a xs

  pub contains→Memᴰ : (a : A) (xs : List A) → contains a xs ≡ true → Memᴰ a xs
  unfolding contains
  contains→Memᴰ a [] h = cc
  contains→Memᴰ a (x ∷ xs) h = elim (Bool-cases (a == x)) [
    | inl t ↦ Memᴰ.head ((e.beq_iff a x).0 t)
    | inr f ↦ Memᴰ.tail (contains→Memᴰ a xs (ground arith))
  ]

  pub Memᴰ→contains : {a : A} {xs : List A} → Memᴰ a xs → contains a xs ≡ true
  unfolding contains
  Memᴰ→contains {a} (Memᴰ.head {x} p) = rw ((e.beq_iff a x).1 p)
  Memᴰ→contains {a} (Memᴰ.tail m) = ground (arith, Memᴰ→contains m)

  pub contains_iff : (a : A) (xs : List A) → (contains a xs ≡ true) ↔ Memᴰ a xs
  contains_iff a xs = (contains→Memᴰ a xs, Memᴰ→contains)

  -- `set(xs)`: each element once
  unfoldable pub dedup : List A → List A
  unfolding contains
  dedup [] = []
  dedup (x ∷ xs) = let rest = dedup xs in if contains x rest then rest else x ∷ rest

  pub Memᴰ→Memᴰ-dedup : {a : A} {xs : List A} → Memᴰ a xs → Memᴰ a (dedup xs)
  unfolding dedup
  Memᴰ→Memᴰ-dedup {a} (Memᴰ.head {x} {xs} p) = elim (Bool-cases (contains x (dedup xs))) [
    | inl t ↦ rw (t, p) (contains→Memᴰ x (dedup xs) t)
    | inr f ↦ rw f (Memᴰ.head p)
  ]
  Memᴰ→Memᴰ-dedup {a} (Memᴰ.tail {x} {xs} m) = elim (Bool-cases (contains x (dedup xs))) [
    | inl t ↦ rw t (Memᴰ→Memᴰ-dedup m)
    | inr f ↦ rw f (Memᴰ.tail (Memᴰ→Memᴰ-dedup m))
  ]

  pub Memᴰ-dedup→Memᴰ : {a : A} (xs : List A) → Memᴰ a (dedup xs) → Memᴰ a xs
  unfolding dedup
  Memᴰ-dedup→Memᴰ {a} [] m = elim m [ ]
  Memᴰ-dedup→Memᴰ {a} (x ∷ xs) m = elim (Bool-cases (contains x (dedup xs))) [
    | inl t ↦ Memᴰ.tail (Memᴰ-dedup→Memᴰ xs (rw t at m))
    | inr f ↦ ⊎_elim Memᴰ.head (λ k. Memᴰ.tail (Memᴰ-dedup→Memᴰ xs k)) (Memᴰ.cases_cons (rw f at m))
  ]

module _ {ℓ κ} {A : Type ℓ} {B : Type κ} ⦃e : Eq A⦄ ⦃f : Eq B⦄ where
  abbrev pair_beq : A × B → A × B → Bool
  pair_beq (a, b) (c, d) = a == c && b == d

  pub pair_beq_iff : (x y : A × B) → (pair_beq x y ≡ true) ↔ (x ≡ y)
  pair_beq_iff (a, b) (c, d) = ground (arith, e.beq_iff a c, f.beq_iff b d)

  instance abbrev pub pair_eq : Eq (A × B)
  pair_eq = record { beq = pair_beq; beq_iff = pair_beq_iff }

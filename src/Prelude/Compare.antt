-- ===== src/Prelude/Compare.antt =====
-- Three-way comparison as an interface with its laws: numbers, lists and pairs compare as in Python.
use Prim.Native.Nat.{ℕ, compare, Ordering}
use mathlib.Core.Path.{◌≡◌, refl}
use mathlib.Core.List.{List, [], ◌∷◌}
use native.Mathlib.Omega.{arith}

abbrev pub flip : Ordering → Ordering
flip Ordering.lt = Ordering.gt
flip Ordering.eq = Ordering.eq
flip Ordering.gt = Ordering.lt

abbrev pub then_cmp : Ordering → Ordering → Ordering
then_cmp Ordering.lt o = Ordering.lt
then_cmp Ordering.eq o = o
then_cmp Ordering.gt o = Ordering.gt

pub record Ord {ℓ} (A : Type ℓ) : Type ℓ where
  pub cmp : A → A → Ordering
  pub cmp_self : (a : A) → cmp a a ≡ Ordering.eq
  pub eq_of_cmp : (a b : A) → cmp a b ≡ Ordering.eq → a ≡ b
  pub cmp_flip : (a b : A) → cmp b a ≡ flip (cmp a b)
  pub lt_trans : (a b c : A) → cmp a b ≡ Ordering.lt → cmp b c ≡ Ordering.lt → cmp a c ≡ Ordering.lt

pub nat_self : (a : ℕ) → compare a a ≡ Ordering.eq
nat_self a = ground arith

pub nat_eq_of_cmp : (a b : ℕ) → compare a b ≡ Ordering.eq → a ≡ b
nat_eq_of_cmp a b h = ground arith

pub nat_flip : (a b : ℕ) → compare b a ≡ flip (compare a b)
nat_flip a b = ground arith

pub nat_lt_trans :
    (a b c : ℕ) → compare a b ≡ Ordering.lt → compare b c ≡ Ordering.lt → compare a c ≡ Ordering.lt
nat_lt_trans a b c h k = ground arith

instance abbrev pub nat_ord : Ord ℕ
nat_ord = record {
  cmp = compare;
  cmp_self = nat_self;
  eq_of_cmp = nat_eq_of_cmp;
  cmp_flip = nat_flip;
  lt_trans = nat_lt_trans;
}

module _ {ℓ} {A : Type ℓ} ⦃o : Ord A⦄ where
  abbrev pub list_cmp : List A → List A → Ordering
  list_cmp [] [] = Ordering.eq
  list_cmp [] (y ∷ ys) = Ordering.lt
  list_cmp (x ∷ xs) [] = Ordering.gt
  list_cmp (x ∷ xs) (y ∷ ys) = then_cmp (o.cmp x y) (list_cmp xs ys)

  pub list_self : (xs : List A) → list_cmp xs xs ≡ Ordering.eq
  list_self [] = refl
  list_self (x ∷ xs) = rw (o.cmp_self x) (list_self xs)

  pub list_eq_of_cmp : (xs ys : List A) → list_cmp xs ys ≡ Ordering.eq → xs ≡ ys
  list_eq_of_cmp [] [] h = refl
  list_eq_of_cmp [] (y ∷ ys) h = cc
  list_eq_of_cmp (x ∷ xs) [] h = cc
  list_eq_of_cmp (x ∷ xs) (y ∷ ys) h = ground (arith, o.eq_of_cmp x y, list_eq_of_cmp xs ys)

  pub list_flip : (xs ys : List A) → list_cmp ys xs ≡ flip (list_cmp xs ys)
  list_flip [] [] = refl
  list_flip [] (y ∷ ys) = refl
  list_flip (x ∷ xs) [] = refl
  list_flip (x ∷ xs) (y ∷ ys) = ground (arith, o.cmp_flip x y, list_flip xs ys)

  pub list_lt_trans :
      (xs ys zs : List A)
      → list_cmp xs ys ≡ Ordering.lt
      → list_cmp ys zs ≡ Ordering.lt
      → list_cmp xs zs ≡ Ordering.lt
  list_lt_trans [] [] zs h k = cc
  list_lt_trans [] (y ∷ ys) [] h k = cc
  list_lt_trans [] (y ∷ ys) (z ∷ zs) h k = refl
  list_lt_trans (x ∷ xs) [] zs h k = cc
  list_lt_trans (x ∷ xs) (y ∷ ys) [] h k = cc
  list_lt_trans (x ∷ xs) (y ∷ ys) (z ∷ zs) h k = ground (
    arith,
    o.eq_of_cmp x y,
    o.eq_of_cmp y z,
    o.cmp_self y,
    o.lt_trans x y z,
    list_lt_trans xs ys zs,
  )

  instance abbrev pub list_ord : Ord (List A)
  list_ord = record {
    cmp = list_cmp;
    cmp_self = list_self;
    eq_of_cmp = list_eq_of_cmp;
    cmp_flip = list_flip;
    lt_trans = list_lt_trans;
  }

module _ {ℓ κ} {A : Type ℓ} {B : Type κ} ⦃o : Ord A⦄ ⦃p : Ord B⦄ where
  abbrev pub pair_cmp : A × B → A × B → Ordering
  pair_cmp (a, b) (c, d) = then_cmp (o.cmp a c) (p.cmp b d)

  pub pair_self : (x : A × B) → pair_cmp x x ≡ Ordering.eq
  pair_self (a, b) = rw (o.cmp_self a) (p.cmp_self b)

  pub pair_eq_of_cmp : (x y : A × B) → pair_cmp x y ≡ Ordering.eq → x ≡ y
  pair_eq_of_cmp (a, b) (c, d) h = ground (arith, o.eq_of_cmp a c, p.eq_of_cmp b d)

  pub pair_flip : (x y : A × B) → pair_cmp y x ≡ flip (pair_cmp x y)
  pair_flip (a, b) (c, d) = ground (arith, o.cmp_flip a c, p.cmp_flip b d)

  pub pair_lt_trans :
      (x y z : A × B)
      → pair_cmp x y ≡ Ordering.lt
      → pair_cmp y z ≡ Ordering.lt
      → pair_cmp x z ≡ Ordering.lt
  pair_lt_trans (a, b) (c, d) (e, f) h k =
      ground
        (arith, o.eq_of_cmp a c, o.eq_of_cmp c e, o.cmp_self c, o.lt_trans a c e, p.lt_trans b d f)

  instance abbrev pub pair_ord : Ord (A × B)
  pair_ord = record {
    cmp = pair_cmp;
    cmp_self = pair_self;
    eq_of_cmp = pair_eq_of_cmp;
    cmp_flip = pair_flip;
    lt_trans = pair_lt_trans;
  }

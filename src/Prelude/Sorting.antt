-- ===== src/Prelude/Sorting.antt =====
-- Python's `sorted(xs, key=k)`: stable insertion by the key, and sets that are sorted by a key.
use Prim.Native.Nat.{Ordering}
use mathlib.Core.Path.{◌≡◌, refl, sym, ap, ap₂, ◌∙◌, subst}
use mathlib.Core.Logic.{◌⊎◌, ◌≢◌, inl, inr, ⊎_elim}
use mathlib.Core.Bool.{Bool, true, false, false≢true}
use mathlib.Core.List.{List, [], ◌∷◌, Memᴰ}
use mathlib.Core.List.Memᴰ
use native.Mathlib.Omega.{arith}
use versification_tool.Prelude.Tests.{if◌then◌else◌, Bool-cases, some_inj}
use versification_tool.Prelude.Lists.{head?}
use mathlib.Core.Option.{some}
use versification_tool.Prelude.Compare.{Ord}
use versification_tool.Prelude.Equality.{
  Eq, contains, Memᴰ→contains, dedup, Memᴰ→Memᴰ-dedup, Memᴰ-dedup→Memᴰ,
}

abbrev pub not_gt : Ordering → Bool
not_gt Ordering.gt = false
not_gt _ = true

Memᴰ-of-head? {ℓ} : {A : Type ℓ} (xs : List A) (x : A) → head? xs ≡ some x → Memᴰ x xs
Memᴰ-of-head? [] x h = cc
Memᴰ-of-head? (y ∷ ys) x h = Memᴰ.head (sym (some_inj h))

module _ {ℓ κ} {A : Type ℓ} {K : Type κ} ⦃o : Ord K⦄ (k : A → K) where
  -- `x` goes before the first element whose key is not smaller
  unfoldable pub insert_by : A → List A → List A
  insert_by x [] = x ∷ []
  insert_by x (y ∷ ys) =
      let later = insert_by x ys in if not_gt (o.cmp (k x) (k y)) then x ∷ y ∷ ys else y ∷ later

  unfoldable pub sorted_by : List A → List A
  unfolding insert_by
  sorted_by [] = []
  sorted_by (x ∷ xs) = insert_by x (sorted_by xs)

  pub Memᴰ-insert_by : (a x : A) (ys : List A) → Memᴰ a (insert_by x ys) → (a ≡ x) ⊎ Memᴰ a ys
  unfolding insert_by
  Memᴰ-insert_by a x [] m = Memᴰ.cases_cons m
  Memᴰ-insert_by a x (y ∷ ys) m = elim (Bool-cases (not_gt (o.cmp (k x) (k y)))) [
    | inl t ↦ Memᴰ.cases_cons (rw t at m)
    | inr f ↦
        ⊎_elim (λ e. inr (Memᴰ.head e))
          (λ r. ⊎_elim inl (λ q. inr (Memᴰ.tail q)) (Memᴰ-insert_by a x ys r))
          (Memᴰ.cases_cons (rw f at m))
  ]

  pub Memᴰ→Memᴰ-insert_by : (a x : A) (ys : List A) → (a ≡ x) ⊎ Memᴰ a ys → Memᴰ a (insert_by x ys)
  unfolding insert_by
  Memᴰ→Memᴰ-insert_by a x [] m = ⊎_elim Memᴰ.head Memᴰ.tail m
  Memᴰ→Memᴰ-insert_by a x (y ∷ ys) m = elim (Bool-cases (not_gt (o.cmp (k x) (k y)))) [
    | inl t ↦ rw t (⊎_elim Memᴰ.head Memᴰ.tail m)
    | inr f ↦ rw f (
        ⊎_elim (λ e. Memᴰ.tail (Memᴰ→Memᴰ-insert_by a x ys (inl e)))
          (λ q.
            ⊎_elim Memᴰ.head (λ r. Memᴰ.tail (Memᴰ→Memᴰ-insert_by a x ys (inr r)))
              (Memᴰ.cases_cons q))
          m)
  ]

  pub Memᴰ-sorted_by→Memᴰ : (a : A) (xs : List A) → Memᴰ a (sorted_by xs) → Memᴰ a xs
  unfolding sorted_by
  Memᴰ-sorted_by→Memᴰ a [] m = m
  Memᴰ-sorted_by→Memᴰ a (x ∷ xs) m =
      ⊎_elim Memᴰ.head (λ q. Memᴰ.tail (Memᴰ-sorted_by→Memᴰ a xs q))
        (Memᴰ-insert_by a x (sorted_by xs) m)

  pub Memᴰ→Memᴰ-sorted_by : (a : A) (xs : List A) → Memᴰ a xs → Memᴰ a (sorted_by xs)
  unfolding sorted_by
  Memᴰ→Memᴰ-sorted_by a [] m = m
  Memᴰ→Memᴰ-sorted_by a (x ∷ xs) m =
      Memᴰ→Memᴰ-insert_by a x (sorted_by xs)
        (⊎_elim inl (λ q. inr (Memᴰ→Memᴰ-sorted_by a xs q)) (Memᴰ.cases_cons m))

  -- Each later key is strictly greater.
  abbrev pub IsAscending : List A → Type (ℓ ⊔ κ)
  IsAscending [] = Unit
  IsAscending (x ∷ xs) = ((y : A) → Memᴰ y xs → o.cmp (k x) (k y) ≡ Ordering.lt) × IsAscending xs

  -- No two keys are equal.
  abbrev pub HasDistinctKeys : List A → Type (ℓ ⊔ κ)
  HasDistinctKeys [] = Unit
  HasDistinctKeys (x ∷ xs) = ((y : A) → Memᴰ y xs → k x ≢ k y) × HasDistinctKeys xs

  insert_by-IsAscending :
      (x : A) (ys : List A)
      → IsAscending ys
      → ((y : A) → Memᴰ y ys → k x ≢ k y)
      → IsAscending (insert_by x ys)
  unfolding insert_by
  insert_by-IsAscending x [] h ne = (λ y m. elim m [ ], tt)
  insert_by-IsAscending x (y ∷ ys) h ne = elim (Bool-cases (not_gt (o.cmp (k x) (k y)))) [
    | inl t ↦
        let first : o.cmp (k x) (k y) ≡ Ordering.lt =
          ground (arith, o.eq_of_cmp (k x) (k y), ne y (Memᴰ.head refl)) in
        rw t (
          λ z m.
              ⊎_elim (λ e. rw e first) (λ q. o.lt_trans (k x) (k y) (k z) first (h.0 z q))
                (Memᴰ.cases_cons m),
          h,
        )
    | inr f ↦
        let first : o.cmp (k y) (k x) ≡ Ordering.lt = ground (arith, o.cmp_flip (k x) (k y)) in
        rw f (
          λ z m. ⊎_elim (λ e. rw e first) (h.0 z) (Memᴰ-insert_by z x ys m),
          insert_by-IsAscending x ys h.1 (λ z q. ne z (Memᴰ.tail q)),
        )
  ]

  pub sorted_by-IsAscending : (xs : List A) → HasDistinctKeys xs → IsAscending (sorted_by xs)
  unfolding sorted_by
  sorted_by-IsAscending [] h = tt
  sorted_by-IsAscending (x ∷ xs) h =
      insert_by-IsAscending x (sorted_by xs) (sorted_by-IsAscending xs h.1)
        (λ y m. h.0 y (Memᴰ-sorted_by→Memᴰ y xs m))

  not_gt_trans :
      (a b c : K)
      → not_gt (o.cmp a b) ≡ true
      → not_gt (o.cmp b c) ≡ true
      → not_gt (o.cmp a c) ≡ true
  not_gt_trans a b c h g =
      ground (arith, o.eq_of_cmp a b, o.eq_of_cmp b c, o.cmp_self a, o.lt_trans a b c)

  not_gt_total : (a b : K) → not_gt (o.cmp a b) ≡ false → not_gt (o.cmp b a) ≡ true
  not_gt_total a b h = ground (arith, o.cmp_flip a b)

  -- No later key is smaller.
  abbrev pub IsOrdered : List A → Type ℓ
  IsOrdered [] = Unit
  IsOrdered (x ∷ xs) = ((y : A) → Memᴰ y xs → not_gt (o.cmp (k x) (k y)) ≡ true) × IsOrdered xs

  insert_by-IsOrdered : (x : A) (ys : List A) → IsOrdered ys → IsOrdered (insert_by x ys)
  unfolding insert_by
  insert_by-IsOrdered x [] h = (λ y m. elim m [ ], tt)
  insert_by-IsOrdered x (y ∷ ys) h = elim (Bool-cases (not_gt (o.cmp (k x) (k y)))) [
    | inl t ↦ rw t (
      λ z m.
          ⊎_elim (λ e. rw e t) (λ q. not_gt_trans (k x) (k y) (k z) t (h.0 z q))
            (Memᴰ.cases_cons m),
      h,
    )
    | inr f ↦ rw f (
      λ z m. ⊎_elim (λ e. rw e (not_gt_total (k x) (k y) f)) (h.0 z) (Memᴰ-insert_by z x ys m),
      insert_by-IsOrdered x ys h.1,
    )
  ]

  pub sorted_by-IsOrdered : (xs : List A) → IsOrdered (sorted_by xs)
  unfolding sorted_by
  sorted_by-IsOrdered [] = tt
  sorted_by-IsOrdered (x ∷ xs) = insert_by-IsOrdered x (sorted_by xs) (sorted_by-IsOrdered xs)

  first_least :
      (xs : List A) (x y : A)
      → IsOrdered xs
      → head? xs ≡ some x
      → Memᴰ y xs
      → not_gt (o.cmp (k x) (k y)) ≡ true
  first_least [] x y h e m = elim m [ ]
  first_least (z ∷ zs) x y h e m = rw (← some_inj e) (
      ⊎_elim
        (λ p. subst (λ (t : A). not_gt (o.cmp (k z) (k t)) ≡ true) (sym p) (rw (o.cmp_self (k z))))
        (h.0 y) (Memᴰ.cases_cons m))

  -- The first element of the sorted list is a member, and no key is smaller than its key.
  pub head?-sorted_by :
      (xs : List A) (x : A)
      → head? (sorted_by xs) ≡ some x
      → Memᴰ x xs × ((y : A) → Memᴰ y xs → not_gt (o.cmp (k x) (k y)) ≡ true)
  head?-sorted_by xs x h = (
    Memᴰ-sorted_by→Memᴰ x xs (Memᴰ-of-head? (sorted_by xs) x h),
    λ y m. first_least (sorted_by xs) x y (sorted_by-IsOrdered xs) h (Memᴰ→Memᴰ-sorted_by y xs m),
  )

  head_unique :
      (x y : A) (xs ys : List A)
      → IsAscending (x ∷ xs)
      → IsAscending (y ∷ ys)
      → Memᴰ x (y ∷ ys)
      → Memᴰ y (x ∷ xs)
      → x ≡ y
  head_unique x y xs ys h g m n =
      ⊎_elim (λ e. e)
        (λ q.
          ⊎_elim (λ e. sym e)
            (λ r. absurd (ground (arith, h.0 y r, g.0 x q, o.cmp_flip (k x) (k y))))
            (Memᴰ.cases_cons n))
        (Memᴰ.cases_cons m)

  tail_member :
      (x y z : A) (xs ys : List A)
      → IsAscending (x ∷ xs)
      → x ≡ y
      → Memᴰ z xs
      → Memᴰ z (y ∷ ys)
      → Memᴰ z ys
  tail_member x y z xs ys h e m n =
      ⊎_elim
        (λ p.
          absurd (cc (h.0 z m, o.cmp_self (k x), ap (λ (t : A). o.cmp (k x) (k t)) (p ∙ sym e))))
        (λ q. q) (Memᴰ.cases_cons n)

  -- Ascending lists with the same members are equal.
  pub IsAscending-unique :
      (xs ys : List A)
      → IsAscending xs
      → IsAscending ys
      → ((a : A) → Memᴰ a xs → Memᴰ a ys)
      → ((a : A) → Memᴰ a ys → Memᴰ a xs)
      → xs ≡ ys
  IsAscending-unique [] [] h g f b = refl
  IsAscending-unique [] (y ∷ ys) h g f b = absurd (Memᴰ.not-nil (b y (Memᴰ.head refl)))
  IsAscending-unique (x ∷ xs) [] h g f b = absurd (Memᴰ.not-nil (f x (Memᴰ.head refl)))
  IsAscending-unique (x ∷ xs) (y ∷ ys) h g f b =
      let e : x ≡ y = head_unique x y xs ys h g (f x (Memᴰ.head refl)) (b y (Memᴰ.head refl)) in
      let rest =
        IsAscending-unique xs ys h.1 g.1 (λ z m. tail_member x y z xs ys h e m (f z (Memᴰ.tail m)))
          (λ z m. tail_member y x z ys xs g (sym e) m (b z (Memᴰ.tail m))) in
      ap₂ ◌∷◌ e rest

module _ {ℓ κ} {A : Type ℓ} {K : Type κ} ⦃o : Ord K⦄ ⦃e : Eq A⦄ (k : A → K) where
  -- The keys tell the members of the list apart.
  abbrev pub KeysDiffer : List A → Type (ℓ ⊔ κ)
  KeysDiffer xs = (a b : A) → Memᴰ a xs → Memᴰ b xs → k a ≡ k b → a ≡ b

  dedup-HasDistinctKeys : (xs : List A) → KeysDiffer xs → HasDistinctKeys k (dedup xs)
  unfolding dedup
  dedup-HasDistinctKeys [] inj = tt
  dedup-HasDistinctKeys (x ∷ xs) inj =
      let rest = dedup-HasDistinctKeys xs (λ a b m n. inj a b (Memᴰ.tail m) (Memᴰ.tail n)) in
      elim (Bool-cases (contains x (dedup xs))) [
        | inl t ↦ rw t rest
        | inr f ↦ rw f (
          λ y m p. false≢true (
              sym f
              ∙ Memᴰ→contains
                  (Memᴰ.cast (inj x y (Memᴰ.head refl) (Memᴰ.tail (Memᴰ-dedup→Memᴰ xs m)) p) m)),
          rest,
        )
      ]

  -- `sorted(set(xs), key=k)`
  unfoldable pub sorted_set : List A → List A
  sorted_set xs = sorted_by k (dedup xs)

  pub Memᴰ→Memᴰ-sorted_set : (a : A) (xs : List A) → Memᴰ a xs → Memᴰ a (sorted_set xs)
  unfolding sorted_set
  Memᴰ→Memᴰ-sorted_set a xs m = Memᴰ→Memᴰ-sorted_by k a (dedup xs) (Memᴰ→Memᴰ-dedup m)

  pub Memᴰ-sorted_set→Memᴰ : (a : A) (xs : List A) → Memᴰ a (sorted_set xs) → Memᴰ a xs
  unfolding sorted_set
  Memᴰ-sorted_set→Memᴰ a xs m = Memᴰ-dedup→Memᴰ xs (Memᴰ-sorted_by→Memᴰ k a (dedup xs) m)

  pub sorted_set-IsAscending : (xs : List A) → KeysDiffer xs → IsAscending k (sorted_set xs)
  unfolding sorted_set
  sorted_set-IsAscending xs inj = sorted_by-IsAscending k (dedup xs) (dedup-HasDistinctKeys xs inj)

  -- The sorted list of a set does not depend on the order in which the set is read.
  pub sorted_set_unique :
      (xs ys : List A)
      → KeysDiffer xs
      → ((a : A) → Memᴰ a xs → Memᴰ a ys)
      → ((a : A) → Memᴰ a ys → Memᴰ a xs)
      → sorted_set xs ≡ sorted_set ys
  sorted_set_unique xs ys inj f b =
      IsAscending-unique k (sorted_set xs) (sorted_set ys) (sorted_set-IsAscending xs inj)
        (sorted_set-IsAscending ys (λ p q m n. inj p q (b p m) (b q n)))
        (λ a m. Memᴰ→Memᴰ-sorted_set a ys (f a (Memᴰ-sorted_set→Memᴰ a xs m)))
        (λ a m. Memᴰ→Memᴰ-sorted_set a xs (b a (Memᴰ-sorted_set→Memᴰ a ys m)))

-- ===== src/Resolver/Walk/Total.antt =====
-- Walks through hops of well-formed rows (frvt/resolver/walk.py).
use versification_tool.Prelude.{
  ◌≡◌, refl, sym, true, false, Bool, Option, List, [], ◌∷◌, ◌++◌, ◌&&◌, inl, inr, Bool-cases,
}
use mathlib.Core.Logic.{⊎_elim}
use mathlib.Core.Path.{subst}
use mathlib.Core.List.{Memᴰ, reverse, reverse-append}
use mathlib.Core.List.Memᴰ
use versification_tool.Prelude.Compare.{nat_ord, list_ord, pair_ord}
use versification_tool.Prelude.Sorting.{Memᴰ-sorted_set→Memᴰ}
use versification_tool.Prelude.Texts.{Text}
use versification_tool.Resolver.Types.{VerseId, RefRange, MappingView, Hop, ok, verse_eq}
use versification_tool.Resolver.Cover.{Projection}
use versification_tool.Resolver.Cover.Total.{IsWellFormed}
use versification_tool.Resolver.Cover.Spans.{
  IsSpanned, IsListed, AllSpanned, project_verse-AllSpanned,
}
use versification_tool.Resolver.Walk.{
  Walk, verse_key, sort_verses, absorb, project_all, is_empty, walk_hop, walk_hops, start_walk,
  apply_hops_forward, apply_hops_downward, reached, up_set, down_set, src_of_pivot, piv_of_target,
}

-- Every row of every hop is well formed, and its ranges and part are among these.
abbrev pub AreGood : List RefRange → List (Option Text) → List Hop → Type 0
AreGood ranges parts hops =
    (hop : Hop)
    → Memᴰ hop hops
    → (row : MappingView) → Memᴰ row hop.mappings
    → IsWellFormed row × IsListed ranges parts row

pub Memᴰ-reverse {ℓ} : {A : Type ℓ} (xs : List A) (a : A) → Memᴰ a (reverse xs) → Memᴰ a xs
Memᴰ-reverse [] a m = m
Memᴰ-reverse (x ∷ xs) a m =
    ⊎_elim (λ q. Memᴰ.tail (Memᴰ-reverse xs a q)) (λ q. Memᴰ.head (Memᴰ.eq_of_singleton q))
      (Memᴰ.append_cases (reverse xs) (subst (Memᴰ a) (reverse-append (x ∷ []) xs) m))

module _ (ranges : List RefRange) (parts : List (Option Text)) where
  abbrev Spanned : List VerseId → Type 0
  Spanned = AllSpanned ranges parts

  Spanned-append : (xs ys : List VerseId) → Spanned xs → Spanned ys → Spanned (xs ++ ys)
  Spanned-append xs ys h k v m = ⊎_elim (h v) (k v) (Memᴰ.append_cases xs m)

  absorb-Spanned :
      (w : Walk) (p : Projection)
      → Spanned w.verses
      → Spanned p.verses
      → Spanned (absorb w p).verses
  unfolding absorb
  absorb-Spanned w p h k = elim (Bool-cases p.excluded) [
    | inl t ↦ rw t h
    | inr f ↦ rw f (Spanned-append w.verses p.verses h k)
  ]

  project_all-Spanned :
      (up : Bool) (rows : List MappingView) (vs : List VerseId) (w : Walk)
      → ((row : MappingView) → Memᴰ row rows → IsWellFormed row × IsListed ranges parts row)
      → Spanned vs
      → Spanned w.verses
      → (w' : Walk) × (project_all up rows vs w ≡ ok w') × Spanned w'.verses
  unfolding project_all
  project_all-Spanned up rows [] w good h k = (w, refl, k)
  project_all-Spanned up rows (v ∷ vs) w good h k =
      let (p, made, inside) =
        project_verse-AllSpanned ranges parts rows up v good (h v (Memᴰ.head refl)) in
      let (w', rest, all) =
        project_all-Spanned up rows vs (absorb w p) good (λ u m. h u (Memᴰ.tail m))
          (absorb-Spanned w p k inside) in
      (w', rw (made, project_all) rest, all)

  sort_verses-Spanned : (vs : List VerseId) → Spanned vs → Spanned (sort_verses vs)
  unfolding sort_verses
  sort_verses-Spanned vs h v m = h v (Memᴰ-sorted_set→Memᴰ verse_key v vs m)

  walk_hop-Spanned :
      (up : Bool) (hop : Hop) (w : Walk)
      → ((row : MappingView) → Memᴰ row hop.mappings → IsWellFormed row × IsListed ranges parts row)
      → Spanned w.verses
      → (w' : Walk) × (walk_hop up hop w ≡ ok w') × Spanned w'.verses
  unfolding walk_hop
  walk_hop-Spanned up hop w good h =
      let (g, made, all) =
        project_all-Spanned up hop.mappings w.verses (record w { verses = [] }) good h
          (λ v m. elim m [ ]) in
      (
        record g { verses = sort_verses g.verses },
        rw (made, walk_hop),
        sort_verses-Spanned g.verses all,
      )

  walk_hops-Spanned :
      (up : Bool) (hops : List Hop) (w : Walk)
      → AreGood ranges parts hops
      → Spanned w.verses
      → (w' : Walk) × (walk_hops up hops w ≡ ok w') × Spanned w'.verses
  unfolding walk_hops
  walk_hops-Spanned up [] w good h = (w, refl, h)
  walk_hops-Spanned up (hop ∷ hops) w good h =
      let (next, made, all) = walk_hop-Spanned up hop w (good hop (Memᴰ.head refl)) h in
      let (last, rest, end_) = walk_hops-Spanned up hops next (λ x m. good x (Memᴰ.tail m)) all in
      elim (Bool-cases (next.excluded && is_empty next.verses)) [
        | inl t ↦ (next, rw (made, walk_hops, t), all)
        | inr f ↦ (last, rw (made, walk_hops, f) rest, end_)
      ]

  reached-Spanned : (w : Walk) → Spanned w.verses → Spanned (reached w)
  reached-Spanned w h = elim (Bool-cases w.excluded) [
    | inl t ↦ rw t (λ v m. elim m [ ])
    | inr f ↦ rw f h
  ]

  one : (v : VerseId) → IsSpanned ranges parts v → Spanned (v ∷ [])
  one v h u m = subst (IsSpanned ranges parts) (sym (Memᴰ.eq_of_singleton m)) h

  pub up_set-Spanned :
      (v : VerseId) (hops : List Hop)
      → AreGood ranges parts hops
      → IsSpanned ranges parts v
      → (vs : List VerseId) × (up_set v hops ≡ ok vs) × Spanned vs
  unfolding up_set apply_hops_forward
  up_set-Spanned v hops good h =
      let (w, made, all) = walk_hops-Spanned true hops (start_walk (v ∷ [])) good (one v h) in
      (reached w, rw (made, apply_hops_forward, up_set), reached-Spanned w all)

  pub down_set-Spanned :
      (v : VerseId) (hops : List Hop)
      → AreGood ranges parts hops
      → IsSpanned ranges parts v
      → (vs : List VerseId) × (down_set v hops ≡ ok vs) × Spanned vs
  unfolding down_set apply_hops_downward
  down_set-Spanned v hops good h =
      let (w, made, all) = walk_hops-Spanned false hops (start_walk (v ∷ [])) good (one v h) in
      (reached w, rw (made, apply_hops_downward, down_set), reached-Spanned w all)

  AreGood-reverse :
      (hops : List Hop) → AreGood ranges parts hops → AreGood ranges parts (reverse hops)
  AreGood-reverse hops good hop m = good hop (Memᴰ-reverse hops hop m)

  pub src_of_pivot-Spanned :
      (v : VerseId) (hops : List Hop)
      → AreGood ranges parts hops
      → IsSpanned ranges parts v
      → (vs : List VerseId) × (src_of_pivot v hops ≡ ok vs) × Spanned vs
  unfolding src_of_pivot
  src_of_pivot-Spanned v hops good h =
      down_set-Spanned v (reverse hops) (AreGood-reverse hops good) h

  pub piv_of_target-Spanned :
      (v : VerseId) (hops : List Hop)
      → AreGood ranges parts hops
      → IsSpanned ranges parts v
      → (vs : List VerseId) × (piv_of_target v hops ≡ ok vs) × Spanned vs
  unfolding piv_of_target
  piv_of_target-Spanned v hops good h =
      up_set-Spanned v (reverse hops) (AreGood-reverse hops good) h

-- ===== src/Api/Limiter/Window.antt =====
-- The sliding window of frvt/api/failed_auth_limiter.py, and what expiry takes from the store.
use versification_tool.Prelude.{
  ℕ, ◌≤◌, ◌≡◌, refl, ap, sym, ◌∙◌, ◌≢◌, true, false, List, [], ◌∷◌, ◌++◌, inl, inr, Bool-cases,
  arith, if◌then◌else◌,
}
use mathlib.Core.Path.{subst}
use versification_tool.Prelude.Equality.{nat_eq, ◌==◌, contains}
use versification_tool.Prelude.Distinct.{IsDistinct}
use versification_tool.Prelude.Texts.{Text, text_eq, text_beq_iff}
use versification_tool.Api.Limiter.{
  Failures, Settings, stamps_of, store, delete, delete_all, expired, in_window, no_stamps,
}
use versification_tool.Api.Limiter.Evict.{keys, IsStored, delete-IsStored}

pub stamps_of-store :
    (ip k : Text) (stamps : List ℕ) (s : Failures)
    → stamps_of k (store ip stamps s) ≡ (if ip == k then stamps else stamps_of k s)
unfolding stamps_of store
stamps_of-store ip k stamps [] = refl
stamps_of-store ip k stamps ((j, old) ∷ s) = elim (Bool-cases (j == ip)) [
  | inl t ↦ rw t (ground (arith, text_beq_iff ip k, text_beq_iff j k, text_beq_iff j ip))
  | inr f ↦ rw f (
      ground (
        arith,
        stamps_of-store ip k stamps s,
        text_beq_iff ip k,
        text_beq_iff j k,
        text_beq_iff j ip,
      ))
]

stamps_of-absent : (k : Text) (s : Failures) → contains k (keys s) ≡ false → stamps_of k s ≡ []
unfolding stamps_of contains
stamps_of-absent k [] h = refl
stamps_of-absent k ((j, old) ∷ s) h =
    ground (arith, stamps_of-absent k s, text_beq_iff k j, text_beq_iff j k, h)

stamps_of-delete :
    (ip k : Text) (s : Failures)
    → IsDistinct (keys s)
    → stamps_of k (delete ip s) ≡ (if ip == k then [] else stamps_of k s)
unfolding stamps_of delete contains
stamps_of-delete ip k [] d = ground arith
stamps_of-delete ip k ((j, old) ∷ s) d = elim (Bool-cases (j == ip)) [
  | inl t ↦ elim (Bool-cases (ip == k)) [
    | inl u ↦
        let same = (text_beq_iff j ip).0 t ∙ (text_beq_iff ip k).0 u in
        rw (t, u)
          (stamps_of-absent k s (subst (λ (x : Text). contains x (keys s) ≡ false) same d.0))
    | inr v ↦
        let other : (j == k) ≡ false =
          subst (λ (x : Text). (x == k) ≡ false) (sym ((text_beq_iff j ip).0 t)) v in
        rw (t, v, other)
  ]
  | inr f ↦ rw f (
      ground (
        arith,
        stamps_of-delete ip k s d.1,
        text_beq_iff ip k,
        text_beq_iff j k,
        text_beq_iff j ip,
      ))
]

module _ (c : Settings) where
  pub in_window-append :
      (now : ℕ) (ts us : List ℕ)
      → in_window c now (ts ++ us) ≡ in_window c now ts ++ in_window c now us
  unfolding in_window
  in_window-append now [] us = refl
  in_window-append now (t ∷ ts) us = ground (arith, in_window-append now ts us)

  -- A window looks no further back later.
  pub in_window-in_window :
      (now later : ℕ) (ts : List ℕ)
      → now ≤ later
      → in_window c later (in_window c now ts) ≡ in_window c later ts
  unfolding in_window
  in_window-in_window now later [] h = refl
  in_window-in_window now later (t ∷ ts) h = ground (arith, in_window-in_window now later ts h)

  pub in_window-empty :
      (now later : ℕ) (ts : List ℕ)
      → now ≤ later
      → in_window c now ts ≡ []
      → in_window c later ts ≡ []
  unfolding in_window
  in_window-empty now later ts h e =
      sym (in_window-in_window now later ts h) ∙ ap (in_window c later) e

  no_stamps→nil : (ts : List ℕ) → no_stamps ts ≡ true → ts ≡ []
  no_stamps→nil [] h = refl
  no_stamps→nil (t ∷ ts) h = cc

  contains-expired :
      (now : ℕ) (k : Text) (s : Failures)
      → contains k (keys s) ≡ false
      → contains k (expired c now s) ≡ false
  unfolding expired contains
  contains-expired now k [] h = refl
  contains-expired now k ((j, stamps) ∷ s) h =
      let rest = contains-expired now k s (ground (arith, h)) in
      elim (Bool-cases (no_stamps (in_window c now stamps))) [
        | inl t ↦ rw (t, expired) (ground (arith, rest, h))
        | inr f ↦ rw (f, expired) rest
      ]

  -- The expired addresses are those with an entry and no failure within the window.
  pub contains-expired_iff :
      (now : ℕ) (k : Text) (s : Failures)
      → IsDistinct (keys s)
      → contains k (expired c now s)
        ≡ (if contains k (keys s) then no_stamps (in_window c now (stamps_of k s)) else false)
  unfolding expired contains stamps_of
  contains-expired_iff now k [] d = refl
  contains-expired_iff now k ((j, stamps) ∷ s) d = elim (Bool-cases (k == j)) [
    | inl t ↦
        let same = (text_beq_iff k j).0 t in
        let absent : contains k (expired c now s) ≡ false =
          contains-expired now k s
            (subst (λ (x : Text). contains x (keys s) ≡ false) (sym same) d.0) in
        let back = (text_beq_iff j k).1 (sym same) in
        elim (Bool-cases (no_stamps (in_window c now stamps))) [
          | inl e ↦ rw (e, t, back) (sym e)
          | inr e ↦ rw (e, t, back, absent) (sym e)
        ]
    | inr f ↦
        let away : (j == k) ≡ false = ground (arith, text_beq_iff j k, text_beq_iff k j, f) in
        elim (Bool-cases (no_stamps (in_window c now stamps))) [
          | inl e ↦ rw (e, f, away) (contains-expired_iff now k s d.1)
          | inr e ↦ rw (e, f, away) (contains-expired_iff now k s d.1)
        ]
  ]

  -- To delete an address without failures in a window changes the window of none.
  delete-window :
      (later : ℕ) (ip k : Text) (s : Failures)
      → IsDistinct (keys s)
      → in_window c later (stamps_of ip s) ≡ []
      → in_window c later (stamps_of k (delete ip s)) ≡ in_window c later (stamps_of k s)
  unfolding in_window
  delete-window later ip k s d e = elim (Bool-cases (ip == k)) [
    | inl t ↦
        let gone =
          subst (λ (x : Text). in_window c later (stamps_of x s) ≡ []) ((text_beq_iff ip k).0 t)
            e in
        rw (stamps_of-delete ip k s d, t) (sym gone)
    | inr f ↦ rw (stamps_of-delete ip k s d, f) refl
  ]

  pub delete_all-window :
      (later : ℕ) (ips : List Text) (k : Text) (s : Failures)
      → IsStored s
      → ((ip : Text) → contains ip ips ≡ true → in_window c later (stamps_of ip s) ≡ [])
      → in_window c later (stamps_of k (delete_all ips s)) ≡ in_window c later (stamps_of k s)
  unfolding delete_all contains
  delete_all-window later [] k s h e = refl
  delete_all-window later (ip ∷ ips) k s h e =
      let first = e ip (ground (arith, text_beq_iff ip ip)) in
      delete_all-window later ips k (delete ip s) (delete-IsStored ip s h)
        (λ j m. delete-window later ip j s h.distinct first ∙ e j (ground (arith, m)))
      ∙ delete-window later ip k s h.distinct first

  contains-keys-delete :
      (ip k : Text) (s : Failures)
      → IsDistinct (keys s)
      → contains k (keys (delete ip s)) ≡ (if ip == k then false else contains k (keys s))
  unfolding delete contains
  contains-keys-delete ip k [] d = ground arith
  contains-keys-delete ip k ((j, old) ∷ s) d = elim (Bool-cases (j == ip)) [
    | inl t ↦
        let same = (text_beq_iff j ip).0 t in
        let absent = subst (λ (x : Text). contains x (keys s) ≡ false) same d.0 in
        elim (Bool-cases (ip == k)) [
          | inl u ↦
              let gone =
                subst (λ (x : Text). contains x (keys s) ≡ false) ((text_beq_iff ip k).0 u)
                  absent in
              rw (t, u, gone)
          | inr v ↦
              let other : (k == j) ≡ false =
                ground (arith, text_beq_iff k j, text_beq_iff ip k, sym same, v) in
              rw (t, v, other)
        ]
    | inr f ↦ elim (Bool-cases (ip == k)) [
      | inl u ↦
          let other : (k == j) ≡ false =
            ground (arith, text_beq_iff k j, text_beq_iff j ip, (text_beq_iff ip k).0 u, f) in
          rw (f, other, contains-keys-delete ip k s d.1, u)
      | inr v ↦ rw (f, contains-keys-delete ip k s d.1, v)
    ]
  ]

  contains-keys-delete_all :
      (ips : List Text) (k : Text) (s : Failures)
      → IsStored s
      → contains k (keys (delete_all ips s))
        ≡ (if contains k ips then false else contains k (keys s))
  unfolding delete_all contains
  contains-keys-delete_all [] k s h = refl
  contains-keys-delete_all (ip ∷ ips) k s h = ground (
    arith,
    contains-keys-delete_all ips k (delete ip s) (delete-IsStored ip s h),
    contains-keys-delete ip k s h.distinct,
    text_beq_iff k ip,
    text_beq_iff ip k,
  )

  -- What is left after expiry has a failure within the window.
  pub delete_all-expired-live :
      (now : ℕ) (k : Text) (s : Failures)
      → IsStored s
      → contains k (keys (delete_all (expired c now s) s)) ≡ true
      → in_window c now (stamps_of k s) ≢ []
  delete_all-expired-live now k s h m e =
      let gone = contains-keys-delete_all (expired c now s) k s h in
      let dead = contains-expired_iff now k s h.distinct in
      let blank : no_stamps (in_window c now (stamps_of k s)) ≡ true = ap no_stamps e in
      elim (Bool-cases (contains k (keys s))) [
        | inl t ↦ let u = rw (t, blank) at dead in let v = rw u at gone in cc
        | inr f ↦ let u = rw f at dead in let v = rw (u, f) at gone in cc
      ]

  -- Expiry changes no window that opens now or later.
  pub delete_all-expired-window :
      (now later : ℕ) (k : Text) (s : Failures)
      → IsStored s
      → now ≤ later
      → in_window c later (stamps_of k (delete_all (expired c now s) s))
        ≡ in_window c later (stamps_of k s)
  delete_all-expired-window now later k s h le =
      delete_all-window later (expired c now s) k s h
        (λ ip m. in_window-empty now later (stamps_of ip s) le (expired-empty ip m))
    where
      expired-empty :
          (ip : Text) → contains ip (expired c now s) ≡ true → in_window c now (stamps_of ip s) ≡ []
      expired-empty ip m =
          let dead = contains-expired_iff now ip s h.distinct in
          no_stamps→nil (in_window c now (stamps_of ip s)) (ground (arith, dead, m))

-- ===== src/Api/Limiter/Evict.antt =====
-- The store of frvt/api/failed_auth_limiter.py: its entries, and how it is brought under its cap.
use versification_tool.Prelude.{
  ℕ, zero, suc, ◌≤◌, ◌<◌, ◌≡◌, refl, ap, ◌≢◌, true, false, Option, none, some, List, [], ◌∷◌, ◌++◌,
  length, leb, leb→le, ltb, inl, inr, ◌⊎◌, Bool-cases, arith, if◌then◌else◌,
}
use versification_tool.Prelude.Equality.{nat_eq, ◌==◌, contains}
use versification_tool.Prelude.Distinct.{IsDistinct}
use versification_tool.Prelude.Texts.{Text, text_eq, text_beq_iff}
use versification_tool.Api.Limiter.{
  Failures, Settings, stamps_of, store, delete, delete_all, last?, oldest_from, oldest, evict_loop,
  evict_if_needed, expired, in_window, enabled, register_failure, verdict,
}

abbrev pub keys : Failures → List Text
keys [] = []
keys ((k, stamps) ∷ s) = k ∷ keys s

abbrev pub AllStamped : Failures → Type 0
AllStamped [] = Unit {0}
AllStamped ((k, stamps) ∷ s) = (stamps ≢ []) × AllStamped s

-- Each address once, and with a failure.
pub record IsStored (s : Failures) : Type 0 where
  pub distinct : IsDistinct (keys s)
  pub stamped : AllStamped s

pub length-keys : (s : Failures) → length (keys s) ≡ length s
length-keys [] = refl
length-keys ((k, stamps) ∷ s) = ap suc (length-keys s)

pub contains-keys-store :
    (ip k : Text) (stamps : List ℕ) (s : Failures)
    → contains k (keys (store ip stamps s)) ≡ (if ip == k then true else contains k (keys s))
unfolding store contains
contains-keys-store ip k stamps [] = ground (arith, text_beq_iff ip k, text_beq_iff k ip)
contains-keys-store ip k stamps ((j, old) ∷ s) = elim (Bool-cases (j == ip)) [
  | inl t ↦ rw t (ground (arith, text_beq_iff ip k, text_beq_iff k j, text_beq_iff j ip))
  | inr f ↦ rw (f, contains-keys-store ip k stamps s) (ground arith)
]

store-IsDistinct :
    (ip : Text) (stamps : List ℕ) (s : Failures)
    → IsDistinct (keys s)
    → IsDistinct (keys (store ip stamps s))
unfolding store contains
store-IsDistinct ip stamps [] d = (refl, tt)
store-IsDistinct ip stamps ((k, old) ∷ s) d = elim (Bool-cases (k == ip)) [
  | inl t ↦ rw t d
  | inr f ↦ rw f (
    ground (arith, contains-keys-store ip k stamps s, text_beq_iff ip k, text_beq_iff k ip, d.0),
    store-IsDistinct ip stamps s d.1,
  )
]

store-AllStamped :
    (ip : Text) (stamps : List ℕ) (s : Failures)
    → stamps ≢ []
    → AllStamped s
    → AllStamped (store ip stamps s)
unfolding store
store-AllStamped ip stamps [] h a = (h, tt)
store-AllStamped ip stamps ((k, old) ∷ s) h a = elim (Bool-cases (k == ip)) [
  | inl t ↦ rw t (h, a.1)
  | inr f ↦ rw f (a.0, store-AllStamped ip stamps s h a.1)
]

contains-keys-delete :
    (ip k : Text) (s : Failures)
    → contains k (keys s) ≡ false
    → contains k (keys (delete ip s)) ≡ false
unfolding delete contains
contains-keys-delete ip k [] h = refl
contains-keys-delete ip k ((j, old) ∷ s) h = elim (Bool-cases (j == ip)) [
  | inl t ↦ rw t (ground (arith, h))
  | inr f ↦ rw f (ground (arith, h, contains-keys-delete ip k s))
]

pub delete-IsStored : (ip : Text) (s : Failures) → IsStored s → IsStored (delete ip s)
unfolding delete contains
delete-IsStored ip [] h = h
delete-IsStored ip ((k, old) ∷ s) h = elim (Bool-cases (k == ip)) [
  | inl t ↦ rw t (record { distinct = h.distinct.1; stamped = h.stamped.1 })
  | inr f ↦
      let rest = delete-IsStored ip s (record { distinct = h.distinct.1; stamped = h.stamped.1 }) in
      rw f (record {
        distinct = (contains-keys-delete ip k s h.distinct.0, rest.distinct);
        stamped = (h.stamped.0, rest.stamped);
      })
]

length-delete :
    (ip : Text) (s : Failures) → contains ip (keys s) ≡ true → suc (length (delete ip s)) ≡ length s
unfolding delete contains
length-delete ip [] h = cc
length-delete ip ((k, old) ∷ s) h = elim (Bool-cases (k == ip)) [
  | inl t ↦ rw t
  | inr f ↦ rw f (ground (arith, length-delete ip s, text_beq_iff ip k, text_beq_iff k ip, h))
]

pub delete_all-IsStored :
    (ips : List Text) (s : Failures) → IsStored s → IsStored (delete_all ips s)
unfolding delete_all
delete_all-IsStored [] s h = h
delete_all-IsStored (ip ∷ ips) s h = delete_all-IsStored ips (delete ip s) (delete-IsStored ip s h)

pub store-IsStored :
    (ip : Text) (stamps : List ℕ) (s : Failures)
    → stamps ≢ []
    → IsStored s
    → IsStored (store ip stamps s)
store-IsStored ip stamps s filled h = record {
  distinct = store-IsDistinct ip stamps s h.distinct;
  stamped = store-AllStamped ip stamps s filled h.stamped;
}

last?-some : (ts : List ℕ) → ts ≢ [] → (t : ℕ) × (last? ts ≡ some t)
unfolding last?
last?-some [] h = absurd (h refl)
last?-some (t ∷ []) h = (t, refl)
last?-some (t ∷ u ∷ ts) h = last?-some (u ∷ ts) (λ e. cc)

oldest_from-some :
    (ip : Text) (t : ℕ) (s : Failures)
    → AllStamped s
    → (v : Text) × (oldest_from ip t s ≡ some v) × ((v ≡ ip) ⊎ (contains v (keys s) ≡ true))
unfolding oldest_from contains
oldest_from-some ip t [] a = (ip, refl, inl refl)
oldest_from-some ip t ((k, stamps) ∷ s) a =
    let (u, e) = last?-some stamps a.0 in
    elim (Bool-cases (ltb u t)) [
      | inl y ↦
          let (v, f, at) = oldest_from-some k u s a.1 in
          (v, rw (e, y, oldest_from) f, inr (ground (arith, at, text_beq_iff v k)))
      | inr n ↦
          let (v, f, at) = oldest_from-some ip t s a.1 in
          (v, rw (e, n, oldest_from) f, ground (arith, at))
    ]

-- A store with an entry has a victim, which is one of its keys.
pub oldest-some :
    (s : Failures)
    → AllStamped s
    → 0 < length s
    → (v : Text) × (oldest s ≡ some v) × (contains v (keys s) ≡ true)
unfolding oldest contains
oldest-some [] a h = absurd (omega arith)
oldest-some ((k, stamps) ∷ s) a h =
    let (t, e) = last?-some stamps a.0 in
    let (v, f, at) = oldest_from-some k t s a.1 in
    (v, rw (e, oldest) f, ground (arith, at, text_beq_iff v k))

pub append-ne_nil : (ts : List ℕ) (t : ℕ) → ts ++ (t ∷ []) ≢ []
append-ne_nil [] t e = cc
append-ne_nil (u ∷ ts) t e = cc

module _ (c : Settings) where
  pub evict_loop-ok :
      (fuel : ℕ) (s : Failures)
      → IsStored s
      → length s ≤ fuel
      → (left : Failures) × (evict_loop c fuel s ≡ some left)
        × IsStored left
        × (length left ≤ c.max_keys)
  unfolding evict_loop
  evict_loop-ok zero s h low =
      let few : leb (length s) c.max_keys ≡ true = ground arith in (s, rw few, h, leb→le _ _ few)
  evict_loop-ok (suc fuel) s h low = elim (Bool-cases (leb (length s) c.max_keys)) [
    | inl few ↦ (s, rw few, h, leb→le _ _ few)
    | inr many ↦
        let (v, found, at) = oldest-some s h.stamped (ground (arith, many)) in
        let (left, e, k, small) =
          evict_loop-ok fuel (delete v s) (delete-IsStored v s h)
            (omega (arith, length-delete v s at)) in
        (left, rw (many, found, evict_loop) e, k, small)
  ]

  pub evict_if_needed-ok :
      (now : ℕ) (s : Failures)
      → IsStored s
      → (left : Failures) × (evict_if_needed c now s ≡ some left)
        × IsStored left
        × (length left ≤ c.max_keys)
  unfolding evict_if_needed
  evict_if_needed-ok now s h = elim (Bool-cases (leb (length s) c.max_keys)) [
    | inl few ↦ (s, rw few, h, leb→le _ _ few)
    | inr many ↦
        let kept = delete_all (expired c now s) s in
        let (left, e, k, small) =
          evict_loop-ok (length kept) kept (delete_all-IsStored (expired c now s) s h)
            (omega arith) in
        (left, rw many e, k, small)
  ]

  -- From a store with each address once, a failure for each, and no more addresses than the cap, a
  -- registered failure raises nothing and leaves such a store: the eviction ends.
  pub register_failure-IsStored :
      (ip : Text) (now : ℕ) (s : Failures)
      → IsStored s
      → length s ≤ c.max_keys
      → (left : Failures) × (answer : Option ℕ) × (register_failure c ip now s
          ≡ some (left, answer))
        × IsStored left
        × (length left ≤ c.max_keys)
  unfolding register_failure
  register_failure-IsStored ip now s h few = elim (Bool-cases (enabled c)) [
    | inl on ↦
        let stamps = in_window c now (stamps_of ip s) ++ (now ∷ []) in
        let (left, e, k, small) =
          evict_if_needed-ok now (store ip stamps s)
            (store-IsStored ip stamps s (append-ne_nil (in_window c now (stamps_of ip s)) now) h) in
        (left, verdict c now stamps, rw (on, e, register_failure), k, small)
    | inr off ↦ (s, none, rw off, h, few)
  ]

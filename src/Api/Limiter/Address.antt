-- ===== src/Api/Limiter/Address.antt =====
-- The address of a client in frvt/api/failed_auth_limiter.py.
use versification_tool.Prelude.{
  ℕ, ◌≡◌, refl, ap, sym, ◌∙◌, ◌≢◌, Bool, true, false, Option, none, some, List, [], ◌∷◌, ◌++◌, inl,
  inr, Bool-cases, Option-cases, arith, List-cases,
}
use versification_tool.Prelude.Equality.{nat_eq, ◌==◌, contains}
use versification_tool.Prelude.Texts.{Text, strip}
use versification_tool.Api.Limiter.{
  prepend, split_commas, nonblank, last_hop, forwarded_hop, client_ip_for_request, host_or_unknown,
  keep_hop,
}

-- A list that another is put before.
split_commas-ne_nil : (s : Text) → (p : Text) × (ps : List Text) × (split_commas s ≡ p ∷ ps)
unfolding split_commas prepend
split_commas-ne_nil [] = ([], [], refl)
split_commas-ne_nil (ch ∷ s) =
    let (p, ps, e) = split_commas-ne_nil s in
    elim (Bool-cases (ch == b',')) [
      | inl t ↦ ([], split_commas s, rw (t, split_commas))
      | inr f ↦ (ch ∷ p, ps, rw (f, e))
    ]

split_commas-plain : (s : Text) → contains b',' s ≡ false → split_commas s ≡ s ∷ []
unfolding split_commas prepend contains
split_commas-plain [] h = refl
split_commas-plain (ch ∷ s) h =
    let rest : contains b',' s ≡ false = ground (arith, h) in
    let other : (ch == b',') ≡ false = ground (arith, h) in rw (other, split_commas-plain s rest)

prepend-append :
    (ch : ℕ) (xs ys : List Text) (x : Text)
    → prepend ch ((x ∷ xs) ++ ys) ≡ prepend ch (x ∷ xs) ++ ys
unfolding prepend
prepend-append ch xs ys x = refl

-- A comma ends the pieces of what stands before it.
split_commas-append :
    (s t : Text) → split_commas (s ++ (b',' ∷ t)) ≡ split_commas s ++ split_commas t
unfolding split_commas prepend
split_commas-append [] t = refl
split_commas-append (ch ∷ s) t =
    let (p, ps, e) = split_commas-ne_nil s in
    elim (Bool-cases (ch == b',')) [
      | inl c ↦ rw c (ap (λ (r : List Text). [] ∷ r) (split_commas-append s t))
      | inr f ↦ rw (f, split_commas-append s t, e)
    ]

keep_hop-append : (h : Text) (xs ys : List Text) → keep_hop h (xs ++ ys) ≡ keep_hop h xs ++ ys
keep_hop-append [] xs ys = refl
keep_hop-append (c ∷ h) xs ys = refl

nonblank-append : (xs ys : List Text) → nonblank (xs ++ ys) ≡ nonblank xs ++ nonblank ys
unfolding nonblank
nonblank-append [] ys = refl
nonblank-append (x ∷ xs) ys =
    ap (keep_hop (strip x)) (nonblank-append xs ys)
    ∙ keep_hop-append (strip x) (nonblank xs) (nonblank ys)

last_hop-append : (xs : List Text) (y : Text) → last_hop (xs ++ (y ∷ [])) ≡ some y
unfolding last_hop
last_hop-append [] y = refl
last_hop-append (x ∷ []) y = refl
last_hop-append (x ∷ x' ∷ xs) y = last_hop-append (x' ∷ xs) y

-- Behind a trusted proxy the address is the hop that the proxy wrote last, without the blanks around
-- it, whatever the client sent before it, if this hop is not blank and holds no comma.
pub client_ip_for_request-last :
    (sent hop : Text) (host : Option Text)
    → contains b',' hop ≡ false
    → strip hop ≢ []
    → client_ip_for_request true (some (sent ++ (b',' ∷ hop))) host ≡ strip hop
unfolding client_ip_for_request forwarded_hop
client_ip_for_request-last sent hop host plain filled = elim (List-cases (strip hop)) [
  | inl e ↦ absurd (filled e)
  | inr (c, r, e) ↦
      let only : nonblank (hop ∷ []) ≡ strip hop ∷ [] =
        unfold nonblank in ap (λ (h : Text). keep_hop h []) e ∙ sym (ap (λ (h : Text). h ∷ []) e) in
      let found : forwarded_hop (some (sent ++ (b',' ∷ hop))) ≡ some (strip hop) =
        rw
          (
            split_commas-append sent hop,
            split_commas-plain hop plain,
            nonblank-append (split_commas sent) (hop ∷ []),
            only,
          )
          (last_hop-append (nonblank (split_commas sent)) (strip hop)) in
      rw (found, client_ip_for_request)
]

-- Every hop that is kept has a character.
abbrev AllFilled : List Text → Type 0
AllFilled [] = Unit {0}
AllFilled (h ∷ hs) = (h ≢ []) × AllFilled hs

keep_hop-AllFilled : (h : Text) (hs : List Text) → AllFilled hs → AllFilled (keep_hop h hs)
keep_hop-AllFilled [] hs a = a
keep_hop-AllFilled (c ∷ h) hs a = ((λ e. cc), a)

nonblank-AllFilled : (xs : List Text) → AllFilled (nonblank xs)
unfolding nonblank
nonblank-AllFilled [] = tt
nonblank-AllFilled (x ∷ xs) = keep_hop-AllFilled (strip x) (nonblank xs) (nonblank-AllFilled xs)

last_hop-filled : (xs : List Text) (h : Text) → AllFilled xs → last_hop xs ≡ some h → h ≢ []
unfolding last_hop
last_hop-filled [] h a e = cc
last_hop-filled (x ∷ []) h a e = λ n. a.0 (cc (e, n))
last_hop-filled (x ∷ y ∷ xs) h a e = last_hop-filled (y ∷ xs) h a.1 e

forwarded_hop-filled : (o : Option Text) (h : Text) → forwarded_hop o ≡ some h → h ≢ []
unfolding forwarded_hop
forwarded_hop-filled none h e = cc
forwarded_hop-filled (some t) h e =
    last_hop-filled (nonblank (split_commas t)) h (nonblank-AllFilled (split_commas t)) e

host_or_unknown-ne : (host : Option Text) → host_or_unknown host ≢ []
host_or_unknown-ne none e = cc
host_or_unknown-ne (some []) e = cc
host_or_unknown-ne (some (c ∷ s)) e = cc

-- Every request has an address that is not empty.
pub client_ip_for_request-ne_nil :
    (trust : Bool) (forwarded host : Option Text) → client_ip_for_request trust forwarded host ≢ []
unfolding client_ip_for_request
client_ip_for_request-ne_nil false forwarded host = host_or_unknown-ne host
client_ip_for_request-ne_nil true forwarded host = elim (Option-cases (forwarded_hop forwarded)) [
  | inl e ↦ rw (e, client_ip_for_request) (host_or_unknown-ne host)
  | inr (hop, e) ↦ rw (e, client_ip_for_request) (forwarded_hop-filled forwarded hop e)
]

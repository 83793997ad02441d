-- ===== src/Api/Limiter.antt =====
-- frvt/api/failed_auth_limiter.py: failed logins per client address, within a sliding window. The
-- dictionary of failures is the list of its entries in the order of insertion. The clock is an
-- argument, in ticks of which a second has `per_second`; a lock makes each call one step, but two
-- calls may take it in another order than they read the clock. A limit or window that is not
-- positive is 0. `none` stands for an exception of Python's.
pub mod Evict
pub mod Window
pub mod Refines
pub mod Address
pub mod Wait
use versification_tool.Prelude.{
  ℕ, zero, suc, ◌+◌, ◌-◌, ◌*◌, ◌/◌, Bool, true, false, ◌&&◌, Option, none, some, List, [], ◌∷◌,
  ◌++◌, length, ltb, leb, if◌then◌else◌,
}
use versification_tool.Prelude.Equality.{nat_eq, ◌==◌}
use versification_tool.Prelude.Texts.{Text, text_eq, codes, strip}

-- The entries of `_failures`.
abbrev pub Failures : Type 0
Failures = List (Text × List ℕ)

pub record Settings : Type 0 where
  pub limit : ℕ
  pub window_seconds : ℕ
  pub per_second : ℕ
  pub max_keys : ℕ

-- The window in ticks.
abbrev pub window : Settings → ℕ
window c = c.window_seconds * c.per_second

-- `failures.get(ip, ())`
unfoldable pub stamps_of : Text → Failures → List ℕ
stamps_of ip [] = []
stamps_of ip ((k, stamps) ∷ s) = let rest = stamps_of ip s in if k == ip then stamps else rest

-- `failures[ip] = stamps`
unfoldable pub store : Text → List ℕ → Failures → Failures
store ip stamps [] = (ip, stamps) ∷ []
store ip stamps ((k, old) ∷ s) =
    let rest = store ip stamps s in if k == ip then (k, stamps) ∷ s else (k, old) ∷ rest

-- `del failures[ip]`, for a key that is there
unfoldable pub delete : Text → Failures → Failures
delete ip [] = []
delete ip ((k, stamps) ∷ s) = let rest = delete ip s in if k == ip then s else (k, stamps) ∷ rest

-- `for ip in expired: del failures[ip]`
unfoldable pub delete_all : List Text → Failures → Failures
unfolding delete
delete_all [] s = s
delete_all (ip ∷ ips) s = delete_all ips (delete ip s)

-- `stamps[-1]`
unfoldable pub last? : List ℕ → Option ℕ
last? [] = none
last? (t ∷ []) = some t
last? (t ∷ u ∷ ts) = last? (u ∷ ts)

-- `min(..., key=...)` over the rest of the entries, where `ip` is the first with the least last
-- failure so far.
unfoldable pub oldest_from : Text → ℕ → Failures → Option Text
unfolding last?
oldest_from ip t [] = some ip
oldest_from ip t ((k, stamps) ∷ s) = elim (last? stamps) [
  | none ↦ none
  | some u ↦ if ltb u t then oldest_from k u s else oldest_from ip t s
]

unfoldable pub oldest : Failures → Option Text
unfolding oldest_from
oldest [] = none
oldest ((k, stamps) ∷ s) = elim (last? stamps) [ none ↦ none | some t ↦ oldest_from k t s ]

-- `not stamps`
abbrev pub no_stamps : List ℕ → Bool
no_stamps [] = true
no_stamps (t ∷ ts) = false

module _ (c : Settings) where
  unfoldable pub enabled : Bool
  enabled = ltb 0 c.limit && ltb 0 c.window_seconds

  -- `now - stamp < window`
  unfoldable pub in_window : ℕ → List ℕ → List ℕ
  in_window now [] = []
  in_window now (t ∷ ts) =
      let rest = in_window now ts in if ltb now (t + window c) then t ∷ rest else rest

  unfoldable pub expired : ℕ → Failures → List Text
  unfolding in_window
  expired now [] = []
  expired now ((k, stamps) ∷ s) =
      let rest = expired now s in if no_stamps (in_window now stamps) then k ∷ rest else rest

  -- The `while` loop: each round deletes an entry, so that as much fuel as there are entries is
  -- enough.
  unfoldable pub evict_loop : ℕ → Failures → Option Failures
  unfolding oldest
  evict_loop zero s = if leb (length s) c.max_keys then some s else none
  evict_loop (suc fuel) s =
      let rest : Option Failures = elim (oldest s) [
        | none ↦ none
        | some victim ↦ evict_loop fuel (delete victim s)
      ] in
      if leb (length s) c.max_keys then some s else rest

  unfoldable pub evict_if_needed : ℕ → Failures → Option Failures
  unfolding evict_loop expired delete_all
  evict_if_needed now s =
      if leb (length s) c.max_keys
      then some s
      else (let left = delete_all (expired now s) s in evict_loop (length left) left)

  -- `math.ceil` of ticks, in seconds
  abbrev pub ceil_seconds : ℕ → ℕ
  ceil_seconds t = (t + c.per_second - 1) / c.per_second

  -- `max(1, math.ceil(oldest + window - now))`, or 0 for a negative number of ticks
  abbrev pub retry_after : ℕ → ℕ → ℕ
  retry_after now first =
      let seconds = ceil_seconds (first + window c - now) in if ltb seconds 1 then 1 else seconds

  -- The end of `register_failure`, from the failures within the window.
  unfoldable pub verdict : ℕ → List ℕ → Option ℕ
  verdict now [] = none
  verdict now (t ∷ ts) = if leb (length (t ∷ ts)) c.limit then none else some (retry_after now t)

  -- The failures afterwards, and the Retry-After seconds of a refusal.
  unfoldable pub register_failure : Text → ℕ → Failures → Option (Failures × Option ℕ)
  unfolding in_window evict_if_needed verdict
  register_failure ip now s =
      if enabled
      then (let stamps = in_window now (stamps_of ip s) ++ (now ∷ []) in
          elim (evict_if_needed now (store ip stamps s)) [
            | none ↦ none
            | some left ↦ some (left, verdict now stamps)
          ])
      else some (s, none)

-- `text.split(",")`
unfoldable pub prepend : ℕ → List Text → List Text
prepend ch [] = (ch ∷ []) ∷ []
prepend ch (piece ∷ pieces) = (ch ∷ piece) ∷ pieces

unfoldable pub split_commas : Text → List Text
unfolding prepend
split_commas [] = [] ∷ []
split_commas (ch ∷ s) =
    let rest = split_commas s in if ch == b',' then [] ∷ rest else prepend ch rest

-- `if hop.strip()`
abbrev pub keep_hop : Text → List Text → List Text
keep_hop [] hops = hops
keep_hop (ch ∷ hop) hops = (ch ∷ hop) ∷ hops

-- `[hop.strip() for hop in pieces if hop.strip()]`
unfoldable pub nonblank : List Text → List Text
nonblank [] = []
nonblank (piece ∷ pieces) = keep_hop (strip piece) (nonblank pieces)

-- `hops[-1]`
unfoldable pub last_hop : List Text → Option Text
last_hop [] = none
last_hop (hop ∷ []) = some hop
last_hop (hop ∷ next ∷ hops) = last_hop (next ∷ hops)

abbrev pub unknown_client_ip : Text
unknown_client_ip = codes "unknown"

-- `host` if there is one that is not empty
abbrev pub host_or_unknown : Option Text → Text
host_or_unknown none = unknown_client_ip
host_or_unknown (some []) = unknown_client_ip
host_or_unknown (some (ch ∷ s)) = ch ∷ s

-- The last hop of a header that is there; an empty header has none.
unfoldable pub forwarded_hop : Option Text → Option Text
unfolding last_hop nonblank split_commas
forwarded_hop none = none
forwarded_hop (some header) = last_hop (nonblank (split_commas header))

-- Of the request only its header X-Forwarded-For and the host of its client are read.
unfoldable pub client_ip_for_request : Bool → Option Text → Option Text → Text
unfolding forwarded_hop
client_ip_for_request false forwarded host = host_or_unknown host
client_ip_for_request true forwarded host = elim (forwarded_hop forwarded) [
  | none ↦ host_or_unknown host
  | some hop ↦ hop
]

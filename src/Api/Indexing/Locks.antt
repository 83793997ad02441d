-- ===== src/Api/Indexing/Locks.antt =====
-- The key of the build lock in frvt/api/indexing/worker.py.
use versification_tool.Prelude.{ℕ, ◌^◌, ◌<◌, ◌≡◌, arith}
use versification_tool.Api.Schemes.{ℤ, pos, negsuc}
use versification_tool.Api.Indexing.Worker.{lock_key_from_oid}

-- A signed 32-bit integer.
abbrev pub IsInt32 : ℤ → Type 0
IsInt32 (pos n) = n < 2 ^ 31
IsInt32 (negsuc n) = n < 2 ^ 31

-- Every object id of 32 bits has a key of 32 bits with a sign, and two such ids never share one.
pub lock_key_from_oid-IsInt32 :
    (a b : ℕ)
    → a < 2 ^ 32
    → b < 2 ^ 32
    → IsInt32 (lock_key_from_oid a) × (lock_key_from_oid a ≡ lock_key_from_oid b → a ≡ b)
unfolding lock_key_from_oid
lock_key_from_oid-IsInt32 a b h k = ground arith

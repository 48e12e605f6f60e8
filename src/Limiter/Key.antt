-- ===== src/Limiter/Key.antt =====
-- The keys under which the limiter, the dispatcher and the rule manager know a user:
-- `formatUserKey` of common/limiter/limiter.go, and the key of the global limit.
use oldxr.Base.{ℕ, ◌*◌, ◌%◌, [], ◌∷◌, ◌++◌}
use oldxr.Base.Int.{ℤ}
use oldxr.Base.Text.{Str, itoa, replace_first}
use Prim.Native.Nat.{bit_xor}

abbrev pub bar : ℕ
bar = b'|'

-- The writes to the builder, in order.
unfoldable pub format_user_key : Str → Str → ℤ → Str
format_user_key tag email uid =
    let key = tag ++ bar ∷ [] in
    let key' = key ++ email in let key'' = key' ++ bar ∷ [] in key'' ++ itoa uid

-- `strings.Replace(email, inboundInfo.Tag, strconv.Itoa(deviceLimit), 1)` in `globalLimit`.
unfoldable pub unique_key : Str → Str → ℤ → Str
unique_key email tag device_limit = replace_first tag (itoa device_limit) email

abbrev pub device_lock_shards : ℕ
device_lock_shards = 64

-- The FNV-1a loop of `deviceLock`, in 32 bits.
unfoldable pub fnv : ℕ → Str → ℕ
fnv hash [] = hash
fnv hash (c ∷ cs) = fnv (bit_xor hash c * 16777619 % 4294967296) cs

-- The index of the user's lock.
unfoldable pub device_lock : Str → ℕ
unfolding fnv
device_lock key = fnv 2166136261 key % device_lock_shards

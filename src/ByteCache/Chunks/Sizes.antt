-- ===== src/ByteCache/Chunks/Sizes.antt =====
-- The bytes that the chunks of one object hold.
use iceberg_db_rs.Base.{ℕ, ◌+◌, ◌≤◌, ◌<◌, ◌%◌, ◌≡◌, ◌∙◌, [], ◌∷◌, arith, length, add32, word32_mod}
use iceberg_db_rs.ByteCache.Range.{Bytes, Range}
use iceberg_db_rs.ByteCache.Chunks.{PathByteCache, replace_or_push, sum_lengths, bytes_used, held}

pub held-replace_or_push :
    (cs : PathByteCache) (range : Range) (b : Bytes)
    → held (replace_or_push cs range b).0 ≤ held cs + length b
unfolding replace_or_push
held-replace_or_push [] range b = omega arith
held-replace_or_push (c ∷ cs) range b = ground (arith, held-replace_or_push cs range b)

sum_lengths_lem :
    (acc : ℕ) (cs : PathByteCache)
    → acc < word32_mod
    → sum_lengths acc cs ≡ (acc + held cs) % word32_mod
unfolding sum_lengths add32
sum_lengths_lem acc [] h = omega arith
sum_lengths_lem acc (c ∷ cs) h =
    omega (arith, sum_lengths_lem ((acc + length c.bytes) % word32_mod) cs (omega arith))

pub bytes_used_lem : (cs : PathByteCache) → bytes_used cs ≡ held cs % word32_mod
unfolding bytes_used
bytes_used_lem cs = sum_lengths_lem 0 cs (omega arith) ∙ omega arith

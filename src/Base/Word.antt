-- ===== src/Base/Word.antt =====
-- int64: an integer in the range, and the wrap-around of Go's arithmetic.
use Prim.Native.Nat.{ℕ, ◌-◌, ◌%◌, ◌^◌, ◌≤◌, ◌<◌}
use mathlib.Core.Path.{◌≡◌}
use native.Mathlib.Omega.{arith}
use ynab_go.Base.Tests.{ltb, if◌then◌else◌}
use ynab_go.Base.Int.{ℤ, pos, negsuc, pos_part, neg_part}

-- The bit pattern of an integer that was reduced to 64 bits.
abbrev to_word : ℤ → ℕ
to_word (pos n) = n % 2 ^ 64
to_word (negsuc n) = 2 ^ 64 - 1 - n % 2 ^ 64

-- The two's complement reading of a bit pattern.
abbrev of_word : ℕ → ℤ
of_word w = if ltb w (2 ^ 63) then pos w else negsuc (2 ^ 64 - 1 - w)

-- What is left of an exact result in an int64.
unfoldable pub wrap : ℤ → ℤ
wrap z = of_word (to_word z)

abbrev pub IsInt64 : ℤ → Type 0
IsInt64 z = (pos_part z < 2 ^ 63) × (neg_part z ≤ 2 ^ 63)

pub wrap_id : (z : ℤ) → IsInt64 z → wrap z ≡ z
unfolding wrap
wrap_id (pos n) h = ground arith
wrap_id (negsuc n) h = ground arith

pub wrap-IsInt64 : (z : ℤ) → IsInt64 (wrap z)
unfolding wrap
wrap-IsInt64 (pos n) = ground arith
wrap-IsInt64 (negsuc n) = ground arith

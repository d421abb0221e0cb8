-- ===== src/Pow2.antt =====
-- src/util.c: the least power of two that is at least a number.
pub mod Fill
pub mod Least
mod Tests
use draugr_repo.Base.{
  ℕ, ◌+◌, ◌-◌, ◌*◌, ◌/◌, ◌^◌, ◌==◌, leb, if◌then◌else◌, Option, none, some, u64, bit_or, ◌<<<◌,
  ◌>>>◌,
}

-- `n |= n >> 1` to `n |= n >> 32`
unfoldable pub fill_down : ℕ → ℕ
fill_down n =
    let n1 = bit_or n (n >>> 1) in
    let n2 = bit_or n1 (n1 >>> 2) in
    let n4 = bit_or n2 (n2 >>> 4) in
    let n8 = bit_or n4 (n4 >>> 8) in let n16 = bit_or n8 (n8 >>> 16) in bit_or n16 (n16 >>> 32)

-- The code behind the built-in, which is all of it where there is none.
unfoldable pub portable_pow2 : ℕ → ℕ
portable_pow2 n = if leb (1 <<< 63) n then n else u64 (fill_down (n - 1) + 1)

-- `clz` is `__builtin_clzl`, where the compiler has it. `size_t` has 64 bits.
unfoldable pub next_pow2 : Option (ℕ → ℕ) → ℕ → ℕ
next_pow2 clz n = if n == 0 then 1 else if leb n 2 then (if n == 1 then 1 else 2) else elim clz [
  | none ↦ portable_pow2 n
  | some count ↦ if leb n (1 <<< 63) then u64 (1 <<< (64 - count (n - 1))) else portable_pow2 n
]

-- ===== src/Rlib/Mem.antt =====
-- src/rlib/mem.rs: memcpy, memset, memcmp and memmove over a byte-addressed memory. A pointer is
-- its address. A vector load reads its 16 bytes before the store that follows writes any.
-- `p & 15` is written `p % 16`.
pub mod Span
pub mod Copy
pub mod Fill
pub mod Move
pub mod Compare
mod Tests
use neutrix.Base.{
  ℕ, zero, suc, ◌+◌, ◌-◌, ◌*◌, ◌/◌, ◌%◌, ◌^◌, Bool, true, false, not, ◌||◌, ◌&&◌, Option, none,
  some, if◌then◌else◌, leb, ltb, ◌==◌, Ram, poke,
}
use neutrix.Base.Int.{ℤ, sub_ℕ}

-- `_mm_storeu_si128(dst, v)` for a register of 16 bytes `v 0` to `v 15`
abbrev pub storeu : Ram → ℕ → (ℕ → ℕ) → Ram
storeu m dst v p = if leb dst p && ltb p (dst + 16) then v (p - dst) else m p

-- `_mm_loadu_si128(src)`
abbrev pub loadu : Ram → ℕ → ℕ → ℕ
loadu m src i = m (src + i)

-- What a copying loop leaves: the memory and the local variables.
pub record Cursor : Type 0 where
  pub ram : Ram
  pub dst : ℕ
  pub src : ℕ
  pub len : ℕ

-- `while (dst.addr() & 15) != 0 && len > 0`
unfoldable pub copy_align : Ram → ℕ → ℕ → ℕ → Cursor
copy_align m dst src zero = record { ram = m; dst = dst; src = src; len = 0 }
copy_align m dst src (suc len) =
    let rest = copy_align (poke m dst (m src)) (dst + 1) (src + 1) len in
    if dst % 16 == 0 then record { ram = m; dst = dst; src = src; len = suc len } else rest

-- `while len >= 64`: four loads, then four stores
unfoldable pub copy_64 : ℕ → Cursor → Cursor
copy_64 zero c = c
copy_64 (suc fuel) c =
    let m1 = storeu c.ram c.dst (loadu c.ram c.src) in
    let m2 = storeu m1 (c.dst + 16) (loadu c.ram (c.src + 16)) in
    let m3 = storeu m2 (c.dst + 32) (loadu c.ram (c.src + 32)) in
    let m4 = storeu m3 (c.dst + 48) (loadu c.ram (c.src + 48)) in
    let rest =
      copy_64 fuel (record { ram = m4; dst = c.dst + 64; src = c.src + 64; len = c.len - 64 }) in
    if leb 64 c.len then rest else c

-- `while len >= 16`
unfoldable pub copy_16 : ℕ → Cursor → Cursor
copy_16 zero c = c
copy_16 (suc fuel) c =
    let rest = copy_16 fuel (record {
      ram = storeu c.ram c.dst (loadu c.ram c.src);
      dst = c.dst + 16;
      src = c.src + 16;
      len = c.len - 16;
    }) in
    if leb 16 c.len then rest else c

-- `while len > 0`
unfoldable pub copy_tail : Ram → ℕ → ℕ → ℕ → Ram
copy_tail m dst src zero = m
copy_tail m dst src (suc len) = copy_tail (poke m dst (m src)) (dst + 1) (src + 1) len

unfoldable pub memcpy : Ram → ℕ → ℕ → ℕ → Ram
memcpy m dst src len =
    let c = copy_16 len (copy_64 len (copy_align m dst src len)) in
    if len == 0 then m else copy_tail c.ram c.dst c.src c.len

unfoldable pub fill_align : Ram → ℕ → ℕ → ℕ → Cursor
fill_align m dst value zero = record { ram = m; dst = dst; src = 0; len = 0 }
fill_align m dst value (suc len) =
    let rest = fill_align (poke m dst value) (dst + 1) value len in
    if dst % 16 == 0 then record { ram = m; dst = dst; src = 0; len = suc len } else rest

unfoldable pub fill_64 : ℕ → ℕ → Cursor → Cursor
fill_64 value zero c = c
fill_64 value (suc fuel) c =
    let fill = λ (i : ℕ). value in
    let m1 = storeu c.ram c.dst fill in
    let m2 = storeu m1 (c.dst + 16) fill in
    let m3 = storeu m2 (c.dst + 32) fill in
    let m4 = storeu m3 (c.dst + 48) fill in
    let rest = fill_64 value fuel (record c { ram = m4; dst = c.dst + 64; len = c.len - 64 }) in
    if leb 64 c.len then rest else c

unfoldable pub fill_16 : ℕ → ℕ → Cursor → Cursor
fill_16 value zero c = c
fill_16 value (suc fuel) c =
    let fill = λ (i : ℕ). value in
    let rest =
      fill_16 value fuel
        (record c { ram = storeu c.ram c.dst fill; dst = c.dst + 16; len = c.len - 16 }) in
    if leb 16 c.len then rest else c

unfoldable pub fill_tail : Ram → ℕ → ℕ → ℕ → Ram
fill_tail m dst value zero = m
fill_tail m dst value (suc len) = fill_tail (poke m dst value) (dst + 1) value len

unfoldable pub memset : Ram → ℕ → ℕ → ℕ → Ram
memset m dst value len =
    let c = fill_16 value len (fill_64 value len (fill_align m dst value len)) in
    if len == 0 then m else fill_tail c.ram c.dst value c.len

-- memmove, forward: `while offset < n && (dest.add(offset) & 0xF) != 0`, with `left` bytes to go
unfoldable pub forward_align : Ram → ℕ → ℕ → ℕ → ℕ → Ram × ℕ
forward_align m dest src offset zero = (m, offset)
forward_align m dest src offset (suc left) =
    let moved = poke m (dest + offset) (m (src + offset)) in
    let rest = forward_align moved dest src (offset + 1) left in
    if (dest + offset) % 16 == 0 then (m, offset) else rest

-- `for i in 0..chunks`, from index `i` on
unfoldable pub forward_chunks : Ram → ℕ → ℕ → ℕ → ℕ → ℕ → Ram
forward_chunks m dest src offset i zero = m
forward_chunks m dest src offset i (suc left) =
    forward_chunks (storeu m (dest + (offset + i * 16)) (loadu m (src + (offset + i * 16)))) dest
      src offset (i + 1) left

-- `for i in 0..remainder`, from index `i` on; `base` is `n - remainder`
unfoldable pub forward_rest : Ram → ℕ → ℕ → ℕ → ℕ → ℕ → Ram
forward_rest m dest src base i zero = m
forward_rest m dest src base i (suc left) =
    forward_rest (poke m (dest + (base + i)) (m (src + (base + i)))) dest src base (i + 1) left

-- memmove, backward: `while offset < n && (dest.add(n - offset - 1) & 0xF) != 15`
unfoldable pub backward_align : Ram → ℕ → ℕ → ℕ → ℕ → ℕ → Ram × ℕ
backward_align m dest src n offset zero = (m, offset)
backward_align m dest src n offset (suc left) =
    let at = n - offset - 1 in
    let rest = backward_align (poke m (dest + at) (m (src + at))) dest src n (offset + 1) left in
    if (dest + at) % 16 == 15 then (m, offset) else rest

unfoldable pub backward_chunks : Ram → ℕ → ℕ → ℕ → ℕ → ℕ → Ram
backward_chunks m dest src top i zero = m
backward_chunks m dest src top i (suc left) =
    let at = top - (i + 1) * 16 in
    backward_chunks (storeu m (dest + at) (loadu m (src + at))) dest src top (i + 1) left

unfoldable pub backward_rest : Ram → ℕ → ℕ → ℕ → ℕ → ℕ → Ram
backward_rest m dest src remainder i zero = m
backward_rest m dest src remainder i (suc left) =
    let at = remainder - i - 1 in
    backward_rest (poke m (dest + at) (m (src + at))) dest src remainder (i + 1) left

unfoldable pub move_forward : Ram → ℕ → ℕ → ℕ → Ram
move_forward m dest src n =
    let (m1, offset) = forward_align m dest src 0 n in
    let chunks = (n - offset) / 16 in
    let remainder = (n - offset) % 16 in
    forward_rest (forward_chunks m1 dest src offset 0 chunks) dest src (n - remainder) 0 remainder

unfoldable pub move_backward : Ram → ℕ → ℕ → ℕ → Ram
move_backward m dest src n =
    let (m1, offset) = backward_align m dest src n 0 n in
    let chunks = (n - offset) / 16 in
    let remainder = (n - offset) % 16 in
    backward_rest (backward_chunks m1 dest src (n - offset) 0 chunks) dest src remainder 0 remainder

-- The result is `dest`, as the source returns it, and the memory.
unfoldable pub memmove : Ram → ℕ → ℕ → ℕ → ℕ × Ram
memmove m dest src n =
    if dest == src || n == 0
    then (dest, m)
    else (if ltb dest src
        then (dest, move_forward m dest src n)
        else (dest, move_backward m dest src n))

-- `_mm_movemask_epi8(_mm_cmpeq_epi8(va, vb))` over lanes `i` to `i + n - 1`: bit `i` is set where
-- the bytes at `a + i` and `b + i` are equal. With 16 lanes the `i32` has its upper half zero.
unfoldable pub eq_mask : Ram → ℕ → ℕ → ℕ → ℕ → ℕ
eq_mask m a b i zero = 0
eq_mask m a b i (suc n) = (if m (a + i) == m (b + i) then 2 ^ i else 0) + eq_mask m a b (i + 1) n

-- The bits of the `i32` -1.
abbrev pub minus_one : ℕ
minus_one = 2 ^ 32 - 1

-- `mask == -1` for the mask of the 16 bytes at `a` and `b`
unfoldable pub mask_is_all : Ram → ℕ → ℕ → Bool
mask_is_all m a b = eq_mask m a b 0 16 == minus_one

-- `slow_byte_cmp`, from index `i` on
unfoldable pub slow_byte_cmp_from : Ram → ℕ → ℕ → ℕ → ℕ → ℤ
slow_byte_cmp_from m a b i zero = sub_ℕ 0 0
slow_byte_cmp_from m a b i (suc n) =
    let rest = slow_byte_cmp_from m a b (i + 1) n in
    if m (a + i) == m (b + i) then rest else sub_ℕ (m (a + i)) (m (b + i))

unfoldable pub slow_byte_cmp : Ram → ℕ → ℕ → ℕ → ℤ
unfolding slow_byte_cmp_from
slow_byte_cmp m a b n = slow_byte_cmp_from m a b 0 n

-- `while len > 0`
unfoldable pub compare_tail : Ram → ℕ → ℕ → ℕ → ℤ
compare_tail m a b zero = sub_ℕ 0 0
compare_tail m a b (suc len) =
    let rest = compare_tail m (a + 1) (b + 1) len in if m a == m b then rest else sub_ℕ (m a) (m b)

-- `while len >= 16`, and the tail after it
unfoldable pub compare_16 : Ram → ℕ → ℕ → ℕ → ℕ → ℤ
compare_16 m zero a b len = compare_tail m a b len
compare_16 m (suc fuel) a b len =
    let rest = compare_16 m fuel (a + 16) (b + 16) (len - 16) in
    if not (leb 16 len)
    then compare_tail m a b len
    else (if not (mask_is_all m a b) then slow_byte_cmp m a b 16 else rest)

-- `while len >= 64`, and what comes after it
unfoldable pub compare_64 : Ram → ℕ → ℕ → ℕ → ℕ → ℤ
compare_64 m zero a b len = compare_16 m len a b len
compare_64 m (suc fuel) a b len =
    let rest = compare_64 m fuel (a + 64) (b + 64) (len - 64) in
    if not (leb 64 len)
    then compare_16 m len a b len
    else (if not (mask_is_all m a b)
        then slow_byte_cmp m a b 16
        else (if not (mask_is_all m (a + 16) (b + 16))
            then slow_byte_cmp m (a + 16) (b + 16) 16
            else (if not (mask_is_all m (a + 32) (b + 32))
                then slow_byte_cmp m (a + 32) (b + 32) 16
                else (if not (mask_is_all m (a + 48) (b + 48))
                    then slow_byte_cmp m (a + 48) (b + 48) 16
                    else rest))))

unfoldable pub memcmp : Ram → ℕ → ℕ → ℕ → ℤ
memcmp m a b len = if len == 0 then sub_ℕ 0 0 else compare_64 m len a b len

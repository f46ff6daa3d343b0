-- ===== src/Rlib/Mem/Copy.antt =====
-- src/rlib/mem.rs: memcpy copies a span.
use mathlib.Core.Path.{fun_ext}
use neutrix.Base.{
  ℕ, zero, suc, ◌+◌, ◌-◌, ◌%◌, ◌≤◌, ◌≡◌, refl, sym, ◌∙◌, ap, inl, inr, leb, ◌==◌, Bool-cases, Ram,
  poke, arith,
}
use neutrix.Rlib.Mem.{storeu, loadu, Cursor, copy_align, copy_64, copy_16, copy_tail, memcpy}
use neutrix.Rlib.Mem.Span.{copied, Upwards, copied-zero, copied-one, copied-Upwards}

-- A loop that was entered with `len` bytes to go has copied some of them and stands behind those.
record Copies (m : Ram) (dst src len : ℕ) (c : Cursor) : Type 0 where
  amount : ℕ
  ram : c.ram ≡ copied m dst src amount
  dst_at : c.dst ≡ dst + amount
  src_at : c.src ≡ src + amount
  rest : amount + c.len ≡ len

Copies-none :
    (m : Ram) (dst src len : ℕ)
    → Copies m dst src len (record { ram = m; dst = dst; src = src; len = len })
Copies-none m dst src len = record {
  amount = 0;
  ram = sym (copied-zero m dst src);
  dst_at = omega arith;
  src_at = omega arith;
  rest = omega arith;
}

-- Copying on from where a copy of `a` bytes stopped.
Copies-after :
    {m : Ram} {dst src len : ℕ} {c : Cursor} (a : ℕ)
    → a ≤ len
    → Upwards dst src len
    → Copies (copied m dst src a) (dst + a) (src + a) (len - a) c
    → Copies m dst src len c
Copies-after {m} {dst} {src} {len} a h up k = record {
  amount = a + k.amount;
  ram =
      k.ram
      ∙ copied-Upwards m dst src a k.amount
          (narrow up (a + k.amount) (let e = k.rest in omega arith));
  dst_at = let e = k.dst_at in omega arith;
  src_at = let e = k.src_at in omega arith;
  rest = let e = k.rest in omega arith;
}
  where
    narrow : Upwards dst src len → (x : ℕ) → x ≤ len → Upwards dst src x
    narrow (inl u) x e = inl u
    narrow (inr u) x e = inr (omega arith)

Copies-trans :
    {m : Ram} {dst src len : ℕ} {m' : Ram} {dst' src' len' : ℕ} {c : Cursor}
    → Upwards dst src len
    → Copies m dst src len (record { ram = m'; dst = dst'; src = src'; len = len' })
    → Copies m' dst' src' len' c
    → Copies m dst src len c
Copies-trans {m} {dst} {src} {len} {m'} {dst'} {src'} {len'} up k l =
    let left : len' ≡ len - k.amount = let e = k.rest in omega arith in
    Copies-after k.amount (let e = k.rest in omega arith) up
      (rw (k.ram, k.dst_at, k.src_at, left) at l)

later :
    {dst src len : ℕ} (a : ℕ)
    → a ≤ len
    → Upwards dst src len
    → Upwards (dst + a) (src + a) (len - a)
later a h (inl u) = inl (omega arith)
later a h (inr u) = inr (omega arith)

copy_align-Copies :
    (m : Ram) (dst src len : ℕ)
    → Upwards dst src len
    → Copies m dst src len (copy_align m dst src len)
unfolding copy_align
copy_align-Copies m dst src zero up = Copies-none m dst src 0
copy_align-Copies m dst src (suc len) up = elim (Bool-cases (dst % 16 == 0)) [
  | inl aligned ↦ rw aligned (Copies-none m dst src (suc len))
  | inr no_yet ↦
      let len' : suc len - 1 ≡ len = omega arith in
      let rest =
        copy_align-Copies (poke m dst (m src)) (dst + 1) (src + 1) len
          (rw len' at (later 1 (omega arith) up)) in
      rw no_yet (Copies-after 1 (omega arith) up (rw (len', ← copied-one m dst src) rest))
]

four_stores :
    (m : Ram) (dst src : ℕ)
    → storeu
        (storeu
          (storeu (storeu m dst (loadu m src)) (dst + 16) (loadu m (src + 16)))
          (dst + 32)
          (loadu m (src + 32)))
        (dst + 48)
        (loadu m (src + 48))
      ≡ copied m dst src 64
four_stores m dst src = fun_ext λ p. ground arith

copy_64-Copies :
    (fuel : ℕ) (m : Ram) (dst src len : ℕ)
    → Upwards dst src len
    → Copies m dst src len (copy_64 fuel (record { ram = m; dst = dst; src = src; len = len }))
unfolding copy_64
copy_64-Copies zero m dst src len up = Copies-none m dst src len
copy_64-Copies (suc fuel) m dst src len up = elim (Bool-cases (leb 64 len)) [
  | inr short ↦ rw short (Copies-none m dst src len)
  | inl long ↦
      rw (long, four_stores m dst src)
        (Copies-after 64 (ground arith) up (
          copy_64-Copies fuel (copied m dst src 64) (dst + 64) (src + 64) (len - 64)
            (later 64 (ground arith) up)))
]

copy_16-Copies :
    (fuel : ℕ) (m : Ram) (dst src len : ℕ)
    → Upwards dst src len
    → Copies m dst src len (copy_16 fuel (record { ram = m; dst = dst; src = src; len = len }))
unfolding copy_16
copy_16-Copies zero m dst src len up = Copies-none m dst src len
copy_16-Copies (suc fuel) m dst src len up = elim (Bool-cases (leb 16 len)) [
  | inr short ↦ rw short (Copies-none m dst src len)
  | inl long ↦ rw long (
      Copies-after 16 (ground arith) up (
        copy_16-Copies fuel (copied m dst src 16) (dst + 16) (src + 16) (len - 16)
          (later 16 (ground arith) up)))
]

copy_tail_lem :
    (m : Ram) (dst src len : ℕ)
    → Upwards dst src len
    → copy_tail m dst src len ≡ copied m dst src len
unfolding copy_tail
copy_tail_lem m dst src zero up = sym (copied-zero m dst src)
copy_tail_lem m dst src (suc len) up =
    let less : suc len - 1 ≡ len = omega arith in
    let more : 1 + len ≡ suc len = omega arith in
    rw (copied-one m dst src) (
      copy_tail_lem (copied m dst src 1) (dst + 1) (src + 1) len
        (rw less at (later 1 (omega arith) up))
      ∙ copied-Upwards m dst src 1 len (rw more up)
      ∙ ap (copied m dst src) more)

Copies-Upwards :
    {m : Ram} {dst src len : ℕ} {c : Cursor}
    → Upwards dst src len
    → Copies m dst src len c
    → Upwards c.dst c.src c.len
Copies-Upwards (inl u) k = let d = k.dst_at in let s = k.src_at in inl (omega arith)
Copies-Upwards (inr u) k =
    let d = k.dst_at in let s = k.src_at in let e = k.rest in inr (omega arith)

-- The byte loop at the end copies what the loops before it left.
finish :
    (m : Ram) (dst src len : ℕ) (c : Cursor)
    → Upwards dst src len
    → Copies m dst src len c
    → copy_tail c.ram c.dst c.src c.len ≡ copied m dst src len
finish m dst src len c up k = all.ram ∙ ap (copied m dst src) (let e = all.rest in omega arith)
  where
    last : Cursor
    last = record {
      ram = copy_tail c.ram c.dst c.src c.len;
      dst = c.dst + c.len;
      src = c.src + c.len;
      len = 0;
    }

    all : Copies m dst src len last
    all = Copies-trans up k (record {
      amount = c.len;
      ram = copy_tail_lem c.ram c.dst c.src c.len (Copies-Upwards up k);
      dst_at = refl;
      src_at = refl;
      rest = omega arith;
    })

-- `memcpy` copies `len` bytes and changes no other, if the two spans do not overlap, or overlap
-- with `dst` below `src`.
pub memcpy-eq-copied :
    (m : Ram) (dst src len : ℕ) → Upwards dst src len → memcpy m dst src len ≡ copied m dst src len
unfolding memcpy
memcpy-eq-copied m dst src len up = elim (Bool-cases (len == 0)) [
  | inl e ↦ rw (e, memcpy) (sym (copied-zero m dst src) ∙ ap (copied m dst src) (ground arith))
  | inr ne ↦
      rw (ne, memcpy)
        (finish m dst src len (copy_16 len (copy_64 len c)) up
          (Copies-trans up (Copies-trans up first second) third))
]
  where
    c : Cursor
    c = copy_align m dst src len

    first : Copies m dst src len c
    first = copy_align-Copies m dst src len up

    second : Copies c.ram c.dst c.src c.len (copy_64 len c)
    second = copy_64-Copies len c.ram c.dst c.src c.len (Copies-Upwards up first)

    d : Cursor
    d = copy_64 len c

    third : Copies d.ram d.dst d.src d.len (copy_16 len d)
    third =
        copy_16-Copies len d.ram d.dst d.src d.len
          (Copies-Upwards up (Copies-trans up first second))

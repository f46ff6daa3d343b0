-- ===== src/Rlib/Mem/Fill.antt =====
-- src/rlib/mem.rs: memset fills a span.
use mathlib.Core.Path.{fun_ext}
use neutrix.Base.{
  ℕ, zero, suc, ◌+◌, ◌-◌, ◌%◌, ◌≤◌, ◌≡◌, refl, sym, ◌∙◌, ap, inl, inr, leb, ◌==◌, Bool-cases, Ram,
  poke, arith,
}
use neutrix.Rlib.Mem.{storeu, Cursor, fill_align, fill_64, fill_16, fill_tail, memset}
use neutrix.Rlib.Mem.Span.{filled, filled-zero, filled-one, filled-append}

-- A loop that was entered with `len` bytes to go has set some of them and stands behind those.
record Fills (m : Ram) (dst v len : ℕ) (c : Cursor) : Type 0 where
  amount : ℕ
  ram : c.ram ≡ filled m dst v amount
  dst_at : c.dst ≡ dst + amount
  rest : amount + c.len ≡ len

Fills-none :
    (m : Ram) (dst v len s : ℕ)
    → Fills m dst v len (record { ram = m; dst = dst; src = s; len = len })
Fills-none m dst v len s = record {
  amount = 0;
  ram = sym (filled-zero m dst v);
  dst_at = omega arith;
  rest = omega arith;
}

Fills-after :
    {m : Ram} {dst v len : ℕ} {c : Cursor} (a : ℕ)
    → a ≤ len
    → Fills (filled m dst v a) (dst + a) v (len - a) c
    → Fills m dst v len c
Fills-after {m} {dst} {v} a h k = record {
  amount = a + k.amount;
  ram = k.ram ∙ filled-append m dst v a k.amount;
  dst_at = let e = k.dst_at in omega arith;
  rest = let e = k.rest in omega arith;
}

Fills-trans :
    {m : Ram} {dst v len : ℕ} {m' : Ram} {dst' s' len' : ℕ} {c : Cursor}
    → Fills m dst v len (record { ram = m'; dst = dst'; src = s'; len = len' })
    → Fills m' dst' v len' c
    → Fills m dst v len c
Fills-trans {m} {dst} {v} {len} {m'} {dst'} {s'} {len'} k l =
    let left : len' ≡ len - k.amount = let e = k.rest in omega arith in
    Fills-after k.amount (let e = k.rest in omega arith) (rw (k.ram, k.dst_at, left) at l)

fill_align-Fills : (m : Ram) (dst v len : ℕ) → Fills m dst v len (fill_align m dst v len)
unfolding fill_align
fill_align-Fills m dst v zero = Fills-none m dst v 0 0
fill_align-Fills m dst v (suc len) = elim (Bool-cases (dst % 16 == 0)) [
  | inl aligned ↦ rw aligned (Fills-none m dst v (suc len) 0)
  | inr no_yet ↦
      let less : suc len - 1 ≡ len = omega arith in
      rw no_yet (
        Fills-after 1 (omega arith)
          (rw (less, ← filled-one m dst v) (fill_align-Fills (poke m dst v) (dst + 1) v len)))
]

four_stores :
    (m : Ram) (dst v : ℕ)
    → storeu
        (storeu (storeu (storeu m dst (λ i. v)) (dst + 16) (λ i. v)) (dst + 32) (λ i. v))
        (dst + 48)
        (λ i. v)
      ≡ filled m dst v 64
four_stores m dst v = fun_ext λ p. ground arith

fill_64-Fills :
    (fuel : ℕ) (m : Ram) (dst v len s : ℕ)
    → Fills m dst v len (fill_64 v fuel (record { ram = m; dst = dst; src = s; len = len }))
unfolding fill_64
fill_64-Fills zero m dst v len s = Fills-none m dst v len s
fill_64-Fills (suc fuel) m dst v len s = elim (Bool-cases (leb 64 len)) [
  | inr short ↦ rw short (Fills-none m dst v len s)
  | inl long ↦
      rw (long, four_stores m dst v)
        (Fills-after 64 (ground arith)
          (fill_64-Fills fuel (filled m dst v 64) (dst + 64) v (len - 64) s))
]

fill_16-Fills :
    (fuel : ℕ) (m : Ram) (dst v len s : ℕ)
    → Fills m dst v len (fill_16 v fuel (record { ram = m; dst = dst; src = s; len = len }))
unfolding fill_16
fill_16-Fills zero m dst v len s = Fills-none m dst v len s
fill_16-Fills (suc fuel) m dst v len s = elim (Bool-cases (leb 16 len)) [
  | inr short ↦ rw short (Fills-none m dst v len s)
  | inl long ↦ rw long (
      Fills-after 16 (ground arith)
        (fill_16-Fills fuel (filled m dst v 16) (dst + 16) v (len - 16) s))
]

fill_tail_lem : (m : Ram) (dst v len : ℕ) → fill_tail m dst v len ≡ filled m dst v len
unfolding fill_tail
fill_tail_lem m dst v zero = sym (filled-zero m dst v)
fill_tail_lem m dst v (suc len) =
    let more : 1 + len ≡ suc len = omega arith in
    rw (filled-one m dst v) (
      fill_tail_lem (filled m dst v 1) (dst + 1) v len
      ∙ filled-append m dst v 1 len
      ∙ ap (filled m dst v) more)

finish :
    (m : Ram) (dst v len : ℕ) (c : Cursor)
    → Fills m dst v len c
    → fill_tail c.ram c.dst v c.len ≡ filled m dst v len
finish m dst v len c k = all.ram ∙ ap (filled m dst v) (let e = all.rest in omega arith)
  where
    last : Cursor
    last = record { ram = fill_tail c.ram c.dst v c.len; dst = c.dst + c.len; src = 0; len = 0 }

    all : Fills m dst v len last
    all = Fills-trans k (record {
      amount = c.len;
      ram = fill_tail_lem c.ram c.dst v c.len;
      dst_at = refl;
      rest = omega arith;
    })

-- `memset` sets `len` bytes to the value and changes no other.
pub memset-eq-filled : (m : Ram) (dst v len : ℕ) → memset m dst v len ≡ filled m dst v len
unfolding memset
memset-eq-filled m dst v len = elim (Bool-cases (len == 0)) [
  | inl e ↦ rw (e, memset) (sym (filled-zero m dst v) ∙ ap (filled m dst v) (ground arith))
  | inr ne ↦
      rw (ne, memset)
        (finish m dst v len (fill_16 v len (fill_64 v len c))
          (Fills-trans (Fills-trans (fill_align-Fills m dst v len) second) third))
]
  where
    c : Cursor
    c = fill_align m dst v len

    second : Fills c.ram c.dst v c.len (fill_64 v len c)
    second = fill_64-Fills len c.ram c.dst v c.len c.src

    d : Cursor
    d = fill_64 v len c

    third : Fills d.ram d.dst v d.len (fill_16 v len d)
    third = fill_16-Fills len d.ram d.dst v d.len d.src

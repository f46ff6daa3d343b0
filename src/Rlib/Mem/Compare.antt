-- ===== src/Rlib/Mem/Compare.antt =====
-- src/rlib/mem.rs: memcmp. The mask of sixteen equal lanes is 0xFFFF, and is tested against -1.
use native.Mathlib.Nat.{pow-suc}
use native.Mathlib.Decide.{ℕ_discrete}
use neutrix.Base.{
  ℕ, zero, suc, ◌+◌, ◌*◌, ◌^◌, ◌≤◌, ◌<◌, min, ◌≡◌, ◌≢◌, refl, sym, ◌∙◌, inl, inr, true, false, leb,
  ◌==◌, Bool-cases, Ram, arith,
}
use neutrix.Base.Int.{ℤ, pos, sub_ℕ}
use neutrix.Rlib.Mem.{
  eq_mask, mask_is_all, slow_byte_cmp, slow_byte_cmp_from, compare_tail, compare_16, compare_64,
  memcmp,
}

abbrev pub Agree : Ram → ℕ → ℕ → ℕ → Type 0
Agree m a b n = (i : ℕ) → i < n → m (a + i) ≡ m (b + i)

-- `r` is the comparison of `n` bytes: 0 if they agree, or the difference at the first that do not.
pub data Compared (m : Ram) (a b n : ℕ) (r : ℤ) : Type 0 where
  equal : Agree m a b n → r ≡ pos 0 → Compared m a b n r
  differs :
      (i : ℕ)
      → i < n
      → Agree m a b i
      → m (a + i) ≢ m (b + i)
      → r ≡ sub_ℕ (m (a + i)) (m (b + i))
      → Compared m a b n r

eq_mask_bound : (m : Ram) (a b i n : ℕ) → eq_mask m a b i n + 2 ^ i ≤ 2 ^ (i + n)
unfolding eq_mask
eq_mask_bound m a b i zero = let e : i + 0 ≡ i = omega arith in rw e (omega arith)
eq_mask_bound m a b i (suc n) =
    let e : i + suc n ≡ i + 1 + n = omega arith in
    let next = eq_mask_bound m a b (i + 1) n in
    let double : 2 ^ (i + 1) ≡ 2 ^ i * 2 =
      (let s : i + 1 ≡ suc i = omega arith in rw (s, pow-suc) refl) in
    rw e (ground arith)

-- The test of a block never finds its bytes all equal.
pub mask_is_all-false : (m : Ram) (a b : ℕ) → mask_is_all m a b ≡ false
unfolding mask_is_all
mask_is_all-false m a b = let bound = eq_mask_bound m a b 0 16 in ground arith

-- The loop of `slow_byte_cmp` that has passed `i` equal bytes.
slow_from-Compared :
    (m : Ram) (a b i n : ℕ) → Agree m a b i → Compared m a b (i + n) (slow_byte_cmp_from m a b i n)
unfolding slow_byte_cmp_from
slow_from-Compared m a b i zero ok = equal (λ j h. ok j (omega arith)) refl
slow_from-Compared m a b i (suc n) ok = elim (ℕ_discrete (m (a + i)) (m (b + i))) [
  | yes e ↦
      let count : i + suc n ≡ i + 1 + n = omega arith in
      let hit : (m (a + i) == m (b + i)) ≡ true = ground arith in
      rw (count, hit)
        (slow_from-Compared m a b (i + 1) n
          λ j h. elim (ℕ_discrete j i) [ yes same ↦ rw same e | no other ↦ ok j (omega arith) ])
  | no ne ↦
      let miss : (m (a + i) == m (b + i)) ≡ false = ground arith in
      rw miss (differs i (omega arith) ok ne refl)
]

-- `slow_byte_cmp` compares all of its `n` bytes: 0 if they agree, or else the difference of the
-- first two that do not.
pub slow_byte_cmp-Compared : (m : Ram) (a b n : ℕ) → Compared m a b n (slow_byte_cmp m a b n)
unfolding slow_byte_cmp
slow_byte_cmp-Compared m a b n =
    let count : 0 + n ≡ n = omega arith in
    rw count at (slow_from-Compared m a b 0 n λ j h. absurd (omega arith))

-- The tail loop moves its pointers where `slow_byte_cmp` moves an index.
tail-eq-slow :
    (m : Ram) (a b i n : ℕ) → compare_tail m (a + i) (b + i) n ≡ slow_byte_cmp_from m a b i n
unfolding compare_tail slow_byte_cmp_from
tail-eq-slow m a b i zero = refl
tail-eq-slow m a b i (suc n) =
    let x : a + i + 1 ≡ a + (i + 1) = omega arith in
    let y : b + i + 1 ≡ b + (i + 1) = omega arith in rw (x, y, tail-eq-slow m a b (i + 1) n) refl

compare_tail-eq-slow : (m : Ram) (a b n : ℕ) → compare_tail m a b n ≡ slow_byte_cmp m a b n
unfolding slow_byte_cmp
compare_tail-eq-slow m a b n =
    let x : a + 0 ≡ a = omega arith in
    let y : b + 0 ≡ b = omega arith in rw (x, y) at (tail-eq-slow m a b 0 n)

compare_16_lem :
    (m : Ram) (fuel a b len : ℕ)
    → len ≤ fuel
    → compare_16 m fuel a b len ≡ slow_byte_cmp m a b (min len 16)
unfolding compare_16
compare_16_lem m zero a b len h =
    let e : min len 16 ≡ len = omega arith in rw e (compare_tail-eq-slow m a b len)
compare_16_lem m (suc fuel) a b len h = elim (Bool-cases (leb 16 len)) [
  | inl long ↦ let e : min len 16 ≡ 16 = ground arith in rw (long, mask_is_all-false, e) refl
  | inr short ↦
      let e : min len 16 ≡ len = ground arith in rw (short, e) (compare_tail-eq-slow m a b len)
]

compare_64_lem :
    (m : Ram) (fuel a b len : ℕ)
    → len ≤ fuel
    → compare_64 m fuel a b len ≡ slow_byte_cmp m a b (min len 16)
unfolding compare_64
compare_64_lem m zero a b len h = compare_16_lem m len a b len (omega arith)
compare_64_lem m (suc fuel) a b len h = elim (Bool-cases (leb 64 len)) [
  | inl long ↦ let e : min len 16 ≡ 16 = ground arith in rw (long, mask_is_all-false, e) refl
  | inr short ↦ rw short (compare_16_lem m len a b len (omega arith))
]

-- `memcmp` compares the first 16 bytes at most: its result is the comparison of `min len 16` bytes.
pub memcmp-Compared : (m : Ram) (a b len : ℕ) → Compared m a b (min len 16) (memcmp m a b len)
unfolding memcmp
memcmp-Compared m a b len = elim (Bool-cases (len == 0)) [
  | inl none_left ↦
      let e : min len 16 ≡ 0 = ground arith in
      rw (none_left, memcmp, e) (equal (λ j h. absurd (omega arith)) refl)
  | inr some_left ↦
      rw (some_left, memcmp, compare_64_lem m len a b len (omega arith))
        (slow_byte_cmp-Compared m a b (min len 16))
]

Compared-Agree : {m : Ram} {a b n : ℕ} {r : ℤ} → Compared m a b n r → Agree m a b n → r ≡ pos 0
Compared-Agree (equal _ e) all = e
Compared-Agree (differs i h _ ne _) all = absurd (ne (all i h))

difference-ne-zero : (x y : ℕ) → x ≢ y → sub_ℕ x y ≢ pos 0
difference-ne-zero x y ne e = ground arith

Compared-differs :
    {m : Ram} {a b n : ℕ} {r : ℤ} (i : ℕ)
    → i < n
    → m (a + i) ≢ m (b + i)
    → Compared m a b n r
    → r ≢ pos 0
Compared-differs i h ne (equal all _) z = ne (all i h)
Compared-differs i h ne (differs j _ _ other e) z = difference-ne-zero _ _ other (sym e ∙ z)

-- Two spans that agree in 16 bytes and differ at a later one below `len` compare as equal under
-- `memcmp`, and that is not the comparison of `len` bytes.
pub memcmp_misses :
    (m : Ram) (a b len i : ℕ)
    → Agree m a b 16
    → i < len
    → m (a + i) ≢ m (b + i)
    → (memcmp m a b len ≡ pos 0) × ¬ (Compared m a b len (memcmp m a b len))
memcmp_misses m a b len i ok h ne =
    let zero_result = Compared-Agree (memcmp-Compared m a b len) (λ j l. ok j (omega arith)) in
    (zero_result, λ c. Compared-differs i h ne c zero_result)

-- ===== src/DriverFramework/Drivers/VbeVga/Restore.antt =====
-- src/driver_framework/drivers/vbe_vga.rs and ps2mouse.rs: writing a rectangle's old pixels back.
use native.Mathlib.Decide.{ℕ_discrete}
use mathlib.Core.Path.{subst}
use neutrix.Base.{
  ℕ, zero, suc, ◌+◌, ◌*◌, ◌/◌, ◌%◌, ◌^◌, ◌≤◌, ◌<◌, ◌≡◌, ◌∙◌, sym, ◌⊎◌, inl, inr, true, ltb,
  Bool-cases, Ram, IsBytes, load32, store32, store32_other, arith,
}
use neutrix.DriverFramework.Drivers.VbeVga.Paint.{paint_cols, paint_rows}

four_bytes :
    (a b c d : ℕ)
    → a < 256
    → b < 256
    → c < 256
    → d < 256
    → let v = a + b * 2 ^ 8 + (c + d * 2 ^ 8) * 2 ^ 16 in
      (v % 256 ≡ a) × (v / 2 ^ 8 % 256 ≡ b) × (v / 2 ^ 16 % 256 ≡ c) × (v / 2 ^ 24 % 256 ≡ d)
four_bytes a b c d ha hb hc hd = (omega arith, omega arith, omega arith, omega arith)

stored_bytes :
    (m : Ram) (p v : ℕ)
    → (store32 m p v p ≡ v % 256)
      × (store32 m p v (p + 1) ≡ v / 2 ^ 8 % 256)
      × (store32 m p v (p + 2) ≡ v / 2 ^ 16 % 256)
      × (store32 m p v (p + 2 + 1) ≡ v / 2 ^ 24 % 256)
stored_bytes m p v = (ground arith, ground arith, ground arith, ground arith)

module _ (clean : Ram) (cells : IsBytes clean) where
  -- Writing back the four bytes at `p` makes them `clean`'s.
  store32-back :
      (m : Ram) (p q : ℕ)
      → (m q ≡ clean q) ⊎ ((p ≤ q) × (q < p + 4))
      → store32 m p (load32 clean p) q ≡ clean q
  store32-back m p q h =
      let v = load32 clean p in
      let old =
        four_bytes (clean p) (clean (p + 1)) (clean (p + 2)) (clean (p + 2 + 1)) (cells p)
          (cells (p + 1)) (cells (p + 2)) (cells (p + 2 + 1)) in
      let new = stored_bytes m p v in
      elim (ℕ_discrete p q) [
        | yes e ↦ subst (λ s. store32 m p v s ≡ clean s) e (new.0 ∙ old.0)
        | no n0 ↦ elim (ℕ_discrete (p + 1) q) [
          | yes e ↦ subst (λ s. store32 m p v s ≡ clean s) e (new.1 ∙ old.1)
          | no n1 ↦ elim (ℕ_discrete (p + 2) q) [
            | yes e ↦ subst (λ s. store32 m p v s ≡ clean s) e (new.2 ∙ old.2)
            | no n2 ↦ elim (ℕ_discrete (p + 2 + 1) q) [
              | yes e ↦ subst (λ s. store32 m p v s ≡ clean s) e (new.3 ∙ old.3)
              | no n3 ↦ store32_other m p v q (ground arith) ∙ kept q h n0 n1 n2 n3
            ]
          ]
        ]
      ]
    where
      kept :
          (q : ℕ)
          → (m q ≡ clean q) ⊎ ((p ≤ q) × (q < p + 4))
          → ¬ (p ≡ q)
          → ¬ (p + 1 ≡ q)
          → ¬ (p + 2 ≡ q)
          → ¬ (p + 2 + 1 ≡ q)
          → m q ≡ clean q
      kept q (inl e) n0 n1 n2 n3 = e
      kept q (inr h) n0 n1 n2 n3 = absurd (ground arith)

  paint_cols-back :
      (row x : ℕ) (color : ℕ → ℕ) (n c : ℕ) (m : Ram) (q : ℕ)
      → ((k : ℕ) → c ≤ k → k < c + n → color k ≡ load32 clean (row + (x + k) * 4))
      → (m q ≡ clean q) ⊎ ((row + (x + c) * 4 ≤ q) × (q < row + (x + c + n) * 4))
      → paint_cols (λ _. true) row x color n c m q ≡ clean q
  unfolding paint_cols
  paint_cols-back row x color zero c m q old (inl e) = e
  paint_cols-back row x color zero c m q old (inr h) = absurd (omega (arith, h.0, h.1))
  paint_cols-back row x color (suc n) c m q old h =
      let p = row + (x + c) * 4 in
      let first : color c ≡ load32 clean p = old c (omega arith) (omega arith) in
      let back = store32-back m p q in
      paint_cols-back row x color n (c + 1) (store32 m p (color c)) q
        (λ k a b. old k (omega (arith, a)) (omega (arith, b))) (rw first (next h (λ g. back g)))
    where
      next :
          (m q ≡ clean q) ⊎ ((row + (x + c) * 4 ≤ q) × (q < row + (x + c + suc n) * 4))
          → ((m q ≡ clean q) ⊎ ((row + (x + c) * 4 ≤ q) × (q < row + (x + c) * 4 + 4))
              → store32 m (row + (x + c) * 4) (load32 clean (row + (x + c) * 4)) q ≡ clean q)
          → (store32 m (row + (x + c) * 4) (load32 clean (row + (x + c) * 4)) q ≡ clean q)
            ⊎ ((row + (x + (c + 1)) * 4 ≤ q) × (q < row + (x + (c + 1) + n) * 4))
      next (inl e) back = inl (back (inl e))
      next (inr h) back = elim (Bool-cases (ltb q (row + (x + c) * 4 + 4))) [
        | inl near ↦ inl (back (inr (h.0, ground arith)))
        | inr far ↦ inr (ground arith, omega (arith, h.1))
      ]

  -- A byte that is already `clean`'s, or that one of the rows covers, is `clean`'s once the rows
  -- are painted with `clean`'s pixels.
  pub paint_rows-back :
      (base pitch x y w : ℕ) (color : ℕ → ℕ → ℕ) (n r : ℕ) (m : Ram) (q : ℕ)
      → ((j k : ℕ)
          → r ≤ j
          → j < r + n
          → k < w
          → color j k ≡ load32 clean (base + (y + j) * pitch + (x + k) * 4))
      → (m q ≡ clean q)
        ⊎ ((j : ℕ) × (r ≤ j)
            × (j < r + n)
            × (base + (y + j) * pitch + x * 4 ≤ q)
            × (q < base + (y + j) * pitch + (x + w) * 4))
      → paint_rows (λ _ _. true) base pitch x y w color n r m q ≡ clean q
  unfolding paint_rows
  paint_rows-back base pitch x y w color zero r m q old (inl e) = e
  paint_rows-back base pitch x y w color zero r m q old (inr (j, a, b, low, high)) =
      absurd (omega (arith, a, b))
  paint_rows-back base pitch x y w color (suc n) r m q old h =
      paint_rows-back base pitch x y w color n (r + 1)
        (paint_cols (λ _. true) (base + (y + r) * pitch) x (color r) w 0 m) q
        (λ j k a b. old j k (omega (arith, a)) (omega (arith, b)))
        (next h (
          paint_cols-back (base + (y + r) * pitch) x (color r) w 0 m q
            (λ k _ b. old r k (omega arith) (omega arith) (omega (arith, b)))))
    where
      next :
          (m q ≡ clean q)
            ⊎ ((j : ℕ) × (r ≤ j)
                × (j < r + suc n)
                × (base + (y + j) * pitch + x * 4 ≤ q)
                × (q < base + (y + j) * pitch + (x + w) * 4))
          → ((m q ≡ clean q)
                ⊎ ((base + (y + r) * pitch + (x + 0) * 4 ≤ q)
                    × (q < base + (y + r) * pitch + (x + 0 + w) * 4))
              → paint_cols (λ _. true) (base + (y + r) * pitch) x (color r) w 0 m q ≡ clean q)
          → (paint_cols (λ _. true) (base + (y + r) * pitch) x (color r) w 0 m q ≡ clean q)
            ⊎ ((j : ℕ) × (r + 1 ≤ j)
                × (j < r + 1 + n)
                × (base + (y + j) * pitch + x * 4 ≤ q)
                × (q < base + (y + j) * pitch + (x + w) * 4))
      next (inl e) back = inl (back (inl e))
      next (inr (j, a, b, low, high)) back = elim (ℕ_discrete r j) [
        | yes e ↦
            let low' = subst (λ j. base + (y + j) * pitch + x * 4 ≤ q) (sym e) low in
            let high' = subst (λ j. q < base + (y + j) * pitch + (x + w) * 4) (sym e) high in
            inl (back (inr (omega (arith, low'), omega (arith, high'))))
        | no ne ↦ inr (j, ground arith, omega (arith, b), low, high)
      ]

-- ===== src/Prelude/Buffer.antt =====
-- A byte buffer that is written in place, `data[p..p + n].copy_from_slice(bs)`, and read by ranges.
use Prim.Native.Nat.{ℕ, zero, suc, ◌+◌, ◌≤◌}
use mathlib.Core.Path.{◌≡◌, refl, ap, ap₂, ◌∙◌}
use mathlib.Core.Logic.{◌⊎◌, inl, inr}
use mathlib.Core.List.{List, [], ◌∷◌}
use native.Mathlib.Omega.{arith}
use bvault_app.Prelude.Lists.{length, take, drop, length-take, length-drop}

module _ {ℓ} {A : Type ℓ} where
  -- Rust panics where the range leaves the buffer; here the rest is dropped.
  unfoldable pub write_at : ℕ → List A → List A → List A
  write_at zero [] d = d
  write_at zero (b ∷ bs) [] = []
  write_at zero (b ∷ bs) (x ∷ d) = b ∷ write_at zero bs d
  write_at (suc p) bs [] = []
  write_at (suc p) bs (x ∷ d) = x ∷ write_at p bs d

  -- `data[p..p + n]`
  abbrev pub slice : ℕ → ℕ → List A → List A
  slice p n d = take n (drop p d)

  pub length-write_at : (p : ℕ) (bs d : List A) → length (write_at p bs d) ≡ length d
  unfolding write_at
  length-write_at zero [] d = refl
  length-write_at zero (b ∷ bs) [] = refl
  length-write_at zero (b ∷ bs) (x ∷ d) = ap suc (length-write_at zero bs d)
  length-write_at (suc p) bs [] = refl
  length-write_at (suc p) bs (x ∷ d) = ap suc (length-write_at p bs d)

  pub length-slice : (p n : ℕ) (d : List A) → p + n ≤ length d → length (slice p n d) ≡ n
  length-slice p n d h = omega (arith, length-take n (drop p d), length-drop p d)

  -- What was written is read back.
  pub slice-write_at_same :
      (p n : ℕ) (bs d : List A)
      → n ≡ length bs
      → p + n ≤ length d
      → slice p n (write_at p bs d) ≡ bs
  unfolding write_at
  slice-write_at_same zero zero [] d e h = refl
  slice-write_at_same zero (suc n) [] d e h = absurd (omega arith)
  slice-write_at_same zero zero (b ∷ bs) d e h = absurd (omega arith)
  slice-write_at_same zero (suc n) (b ∷ bs) [] e h = absurd (omega arith)
  slice-write_at_same zero (suc n) (b ∷ bs) (x ∷ d) e h =
      ap (◌∷◌ b) (slice-write_at_same zero n bs d (omega arith) (omega arith))
  slice-write_at_same (suc p) n bs [] e h = absurd (omega arith)
  slice-write_at_same (suc p) n bs (x ∷ d) e h = slice-write_at_same p n bs d e (omega arith)

  -- A range below the write is left alone.
  pub slice-write_at_below :
      (p q n : ℕ) (bs d : List A) → q + n ≤ p → slice q n (write_at p bs d) ≡ slice q n d
  unfolding write_at
  slice-write_at_below p zero zero bs d h = refl
  slice-write_at_below zero zero (suc n) bs d h = absurd (omega arith)
  slice-write_at_below zero (suc q) n bs d h = absurd (omega arith)
  slice-write_at_below (suc p) zero (suc n) bs [] h = refl
  slice-write_at_below (suc p) zero (suc n) bs (x ∷ d) h =
      ap (◌∷◌ x) (slice-write_at_below p zero n bs d (omega arith))
  slice-write_at_below (suc p) (suc q) n bs [] h = refl
  slice-write_at_below (suc p) (suc q) n bs (x ∷ d) h =
      slice-write_at_below p q n bs d (omega arith)

  -- A range above the write is left alone.
  pub slice-write_at_above :
      (p q n : ℕ) (bs d : List A) → p + length bs ≤ q → slice q n (write_at p bs d) ≡ slice q n d
  unfolding write_at
  slice-write_at_above zero q n [] d h = refl
  slice-write_at_above zero zero n (b ∷ bs) d h = absurd (omega arith)
  slice-write_at_above zero (suc q) n (b ∷ bs) [] h = refl
  slice-write_at_above zero (suc q) n (b ∷ bs) (x ∷ d) h =
      slice-write_at_above zero q n bs d (omega arith)
  slice-write_at_above (suc p) zero n bs d h = absurd (omega arith)
  slice-write_at_above (suc p) (suc q) n bs [] h = refl
  slice-write_at_above (suc p) (suc q) n bs (x ∷ d) h =
      slice-write_at_above p q n bs d (omega arith)

  pub slice-write_at_apart :
      (p q n : ℕ) (bs d : List A)
      → (p + length bs ≤ q) ⊎ (q + n ≤ p)
      → slice q n (write_at p bs d) ≡ slice q n d
  slice-write_at_apart p q n bs d (inl h) = slice-write_at_above p q n bs d h
  slice-write_at_apart p q n bs d (inr h) = slice-write_at_below p q n bs d h

  -- A run of writes, in order.
  unfoldable pub write_all : List (ℕ × List A) → List A → List A
  write_all [] d = d
  write_all ((p, bs) ∷ ws) d = write_all ws (write_at p bs d)

  -- Every write lies in the range from `lo` up to `hi`.
  abbrev pub AllIn : ℕ → ℕ → List (ℕ × List A) → Type 0
  AllIn lo hi [] = Unit {0}
  AllIn lo hi ((p, bs) ∷ ws) = (lo ≤ p) × (p + length bs ≤ hi) × AllIn lo hi ws

  pub length-write_all : (ws : List (ℕ × List A)) (d : List A) → length (write_all ws d) ≡ length d
  unfolding write_all
  length-write_all [] d = refl
  length-write_all ((p, bs) ∷ ws) d = length-write_all ws (write_at p bs d) ∙ length-write_at p bs d

  pub slice-write_all_apart :
      (lo hi q n : ℕ) (ws : List (ℕ × List A)) (d : List A)
      → AllIn lo hi ws
      → (hi ≤ q) ⊎ (q + n ≤ lo)
      → slice q n (write_all ws d) ≡ slice q n d
  unfolding write_all
  slice-write_all_apart lo hi q n [] d h s = refl
  slice-write_all_apart lo hi q n ((p, bs) ∷ ws) d h s =
      slice-write_all_apart lo hi q n ws (write_at p bs d) h.2 s
      ∙ slice-write_at_apart p q n bs d (omega arith)

module _ {A : Type 0} where
  -- The write of `bs` at `q` is in the run, and no later one touches it.
  abbrev pub Apart : ℕ → ℕ → List (ℕ × List A) → Type 0
  Apart q n [] = Unit {0}
  Apart q n ((p, bs) ∷ ws) = ((p + length bs ≤ q) ⊎ (q + n ≤ p)) × Apart q n ws

  abbrev pub Writes : ℕ → List A → List (ℕ × List A) → Type 0
  Writes q bs [] = ⊥
  Writes q bs ((p, xs) ∷ ws) = ((p ≡ q) × (xs ≡ bs) × Apart q (length bs) ws) ⊎ Writes q bs ws

  pub slice-write_all-Apart :
      (q n : ℕ) (ws : List (ℕ × List A)) (d : List A)
      → Apart q n ws
      → slice q n (write_all ws d) ≡ slice q n d
  unfolding write_all
  slice-write_all-Apart q n [] d a = refl
  slice-write_all-Apart q n ((p, bs) ∷ ws) d a =
      slice-write_all-Apart q n ws (write_at p bs d) a.1 ∙ slice-write_at_apart p q n bs d a.0

  pub slice-write_all :
      (q : ℕ) (bs : List A) (ws : List (ℕ × List A)) (d : List A)
      → Writes q bs ws
      → q + length bs ≤ length d
      → slice q (length bs) (write_all ws d) ≡ bs
  unfolding write_all
  slice-write_all q bs [] d w h = absurd w
  slice-write_all q bs ((p, xs) ∷ ws) d (inl (here, what, later)) h =
      slice-write_all-Apart q (length bs) ws (write_at p xs d) later
      ∙ ap₂ (λ p' ys. slice q (length bs) (write_at p' ys d)) here what
      ∙ slice-write_at_same q (length bs) bs d refl h
  slice-write_all q bs ((p, xs) ∷ ws) d (inr w) h =
      slice-write_all q bs ws (write_at p xs d) w (omega (arith, length-write_at p xs d))

-- ===== src/Diff/Identical.antt =====
-- diff.rs: two files are called identical exactly if their pages are.
use bvault_app.Prelude.{
  ℕ, zero, suc, ◌+◌, ◌-◌, ◌*◌, ◌/◌, ◌≤◌, ◌<◌, ◌≡◌, ◌≢◌, ◌↔◌, refl, ap, ap₂, sym, subst, ◌∙◌, inl,
  inr, arith, min, Bool, true, false, ◌&&◌, List, [], ◌∷◌, ◌++◌, length, length-slice, take, drop,
  range, slice, ltb, ◌==◌, u32, map, Bool-cases,
}
use bvault_app.Text.{text_equal, text_equal_sound, text_equal_reflexive}
use bvault_app.Page.{page_size}
use bvault_app.Diff.{
  PageDiff, is_empty, is_identical, differs, raw_ranges, turn, diff_page, range_of, page_diff,
  listed, page_diffs, diff_pdb,
}

-- A difference that is still ahead leaves a range.
raw_ranges-found :
    (g m : List ℕ) (fuel i k : ℕ)
    → i ≤ k
    → k < page_size
    → page_size ≤ i + fuel
    → differs g m k ≡ true
    → is_empty (raw_ranges g m fuel i) ≡ false
unfolding raw_ranges is_empty turn
raw_ranges-found g m zero i k low high enough d = absurd (omega arith)
raw_ranges-found g m (suc fuel) i k low high enough d =
    let inside : ltb i page_size ≡ true = ground arith in
    elim (Bool-cases (differs g m i)) [
      | inl here ↦ rw (inside, here) refl
      | inr same ↦
          let further : i ≢ k = λ e. distinct i k e same d in
          rw (inside, same)
            (raw_ranges-found g m fuel (suc i) k (omega (arith, further)) high (omega arith) d)
    ]
  where
    distinct : (i k : ℕ) → i ≡ k → differs g m i ≡ false → differs g m k ≡ true → ⊥
    distinct i k e f t =
        let f' : differs g m k ≡ false = subst (λ n. differs g m n ≡ false) e f in cc

-- Two lists of one length that are not equal differ at some place.
differs_somewhere :
    (g m : List ℕ)
    → length g ≡ length m
    → text_equal g m ≡ false
    → (k : ℕ) × (k < length g) × (differs g m k ≡ true)
unfolding text_equal differs
differs_somewhere [] [] e f = absurd (cc)
differs_somewhere [] (y ∷ m) e f = absurd (omega arith)
differs_somewhere (x ∷ g) [] e f = absurd (omega arith)
differs_somewhere (x ∷ g) (y ∷ m) e f = elim (Bool-cases (x == y)) [
  | inr apart ↦ (0, omega arith, rw apart refl)
  | inl same ↦
      let (k, inside, d) = differs_somewhere g m (omega arith) (ground arith) in
      (suc k, omega arith, d)
]

is_empty-map : {A B : Type 0} (f : A → B) (xs : List A) → is_empty (map f xs) ≡ is_empty xs
unfolding is_empty
is_empty-map f [] = refl
is_empty-map f (x ∷ xs) = refl

is_empty-append : {A : Type 0} (xs ys : List A) → is_empty (xs ++ ys) ≡ is_empty xs && is_empty ys
unfolding is_empty
is_empty-append [] ys = refl
is_empty-append (x ∷ xs) ys = refl

diff_page-found :
    (index : ℕ) (g m : List ℕ) (k : ℕ)
    → k < page_size
    → differs g m k ≡ true
    → is_empty (diff_page index g m) ≡ false
unfolding diff_page
diff_page-found index g m k inside d =
    is_empty-map (range_of index g m) (raw_ranges g m page_size 0)
    ∙ raw_ranges-found g m page_size 0 k (omega arith) inside (omega arith) d

-- A page is passed over exactly if its bytes are equal.
is_empty-listed :
    (same no_ranges : Bool) (d : PageDiff)
    → (same ≡ false → no_ranges ≡ false)
    → is_empty (listed same no_ranges d) ≡ same
unfolding is_empty listed
is_empty-listed true no_ranges d h = refl
is_empty-listed false no_ranges d h = rw (h refl) refl

is_empty-page_diff :
    (idx : ℕ) (g m : List ℕ)
    → length g ≡ page_size
    → length m ≡ page_size
    → is_empty (page_diff idx g m) ≡ text_equal g m
unfolding page_diff
is_empty-page_diff idx g m size size' =
    is_empty-listed (text_equal g m) (is_empty (diff_page (u32 idx) g m)) _ (λ apart.
      let (k, inside, d) = differs_somewhere g m (size ∙ sym size') apart in
      diff_page-found (u32 idx) g m k (omega (arith, inside, size)) d)

-- The slices of the pages before page `n`.
take_page :
    (n : ℕ) (xs : List ℕ)
    → take (suc n * page_size) xs ≡ take (n * page_size) xs ++ slice (n * page_size) page_size xs
take_page n xs =
    ap (λ (k : ℕ). take k xs)
      (let e : suc n * page_size ≡ n * page_size + page_size = omega arith in e)
    ∙ take_plus (n * page_size) page_size xs
  where
    nothing : (b : ℕ) → take {A = ℕ} b [] ≡ []
    nothing zero = refl
    nothing (suc b) = refl

    take_plus : (a b : ℕ) (xs : List ℕ) → take (a + b) xs ≡ take a xs ++ take b (drop a xs)
    take_plus zero b xs = ap (λ (k : ℕ). take k xs) (let e : 0 + b ≡ b = omega arith in e)
    take_plus (suc a) b [] =
        ap (λ (k : ℕ). take k []) (let e : suc a + b ≡ suc (a + b) = omega arith in e)
        ∙ sym (nothing b)
    take_plus (suc a) b (x ∷ xs) =
        ap (λ (k : ℕ). take k (x ∷ xs)) (let e : suc a + b ≡ suc (a + b) = omega arith in e)
        ∙ ap (◌∷◌ x) (take_plus a b xs)

slice-take : (q n k : ℕ) (xs : List ℕ) → q + n ≤ k → slice q n (take k xs) ≡ slice q n xs
slice-take zero zero k xs h = refl
slice-take zero (suc n) zero xs h = absurd (omega arith)
slice-take zero (suc n) (suc k) [] h = refl
slice-take zero (suc n) (suc k) (x ∷ xs) h = ap (◌∷◌ x) (slice-take zero n k xs (omega arith))
slice-take (suc q) n zero xs h = absurd (omega arith)
slice-take (suc q) n (suc k) [] h = refl
slice-take (suc q) n (suc k) (x ∷ xs) h = slice-take q n k xs (omega arith)

both_true : (a b : Bool) → a && b ≡ true → (a ≡ true) × (b ≡ true)
both_true true b e = (refl, e)
both_true false b e = cc

equal_true : (g m : List ℕ) → g ≡ m → text_equal g m ≡ true
equal_true g m e = subst (λ x. text_equal g x ≡ true) e (text_equal_reflexive g)

-- Where the pages before `idx` are equal, those from `idx` on are passed over exactly if all the
-- pages are equal.
is_empty-page_diffs :
    (left idx : ℕ) (g m : List ℕ)
    → (idx + left) * page_size ≤ length g
    → (idx + left) * page_size ≤ length m
    → take (idx * page_size) g ≡ take (idx * page_size) m
    → (is_empty (page_diffs left idx g m) ≡ true)
      ↔ (take ((idx + left) * page_size) g ≡ take ((idx + left) * page_size) m)
unfolding page_diffs
is_empty-page_diffs zero idx g m room room' before =
    let e : idx + 0 ≡ idx = omega arith in
    (
      (λ h. subst (λ (n : ℕ). take (n * page_size) g ≡ take (n * page_size) m) (sym e) before),
      (λ h. unfold is_empty in refl),
    )
is_empty-page_diffs (suc left) idx g m room room' before =
    let e : suc idx + left ≡ idx + suc left = omega arith in
    let g' = slice (idx * page_size) page_size g in
    let m' = slice (idx * page_size) page_size m in
    let size : length g' ≡ page_size = length-slice (idx * page_size) page_size g (omega arith) in
    let size' : length m' ≡ page_size = length-slice (idx * page_size) page_size m (omega arith) in
    let parts : is_empty (page_diff idx g' m' ++ page_diffs left (suc idx) g m)
        ≡ text_equal g' m' && is_empty (page_diffs left (suc idx) g m) =
      is_empty-append (page_diff idx g' m') (page_diffs left (suc idx) g m)
      ∙ ap (λ a. a && is_empty (page_diffs left (suc idx) g m))
          (is_empty-page_diff idx g' m' size size') in
    let extended : g' ≡ m' → take (suc idx * page_size) g ≡ take (suc idx * page_size) m =
      λ same. take_page idx g ∙ ap₂ ◌++◌ before same ∙ sym (take_page idx m) in
    let rest = λ (same : g' ≡ m').
      is_empty-page_diffs left (suc idx) g m (omega arith) (omega arith) (extended same) in
    (
      (λ h.
          let (here, later) = both_true _ _ (sym parts ∙ h) in
          subst (λ (n : ℕ). take (n * page_size) g ≡ take (n * page_size) m) e
            ((rest (text_equal_sound g' m' here)).0 later)),
      (λ h.
          let same : g' ≡ m' =
            sym (
              slice-take (idx * page_size) page_size ((idx + suc left) * page_size) g (omega arith))
            ∙ ap (slice (idx * page_size) page_size) h
            ∙ slice-take (idx * page_size) page_size ((idx + suc left) * page_size) m
                (omega arith) in
          let later : is_empty (page_diffs left (suc idx) g m) ≡ true =
            (rest same).1
              (subst (λ (n : ℕ). take (n * page_size) g ≡ take (n * page_size) m) (sym e) h) in
          parts ∙ ap₂ ◌&&◌ (equal_true g' m' same) later),
    )

is_empty-range : (first count : ℕ) → is_empty (map (λ i. u32 i) (range first count)) ≡ (count == 0)
unfolding range is_empty
is_empty-range first zero = refl
is_empty-range first (suc count) = ground arith

-- Two files are called identical exactly if they have the same number of whole pages and agree on
-- all of these. What stands behind the last whole page is not looked at.
pub diff_pdb-is_identical :
    (golden mine : List ℕ)
    → (is_identical (diff_pdb golden mine) ≡ true) ↔ (
        (length golden / page_size ≡ length mine / page_size)
        × (take (length golden / page_size * page_size) golden
            ≡ take (length golden / page_size * page_size) mine))
unfolding is_identical diff_pdb
diff_pdb-is_identical golden mine =
    let gp = length golden / page_size in
    let mp = length mine / page_size in
    let n = min gp mp in
    let pages = is_empty-page_diffs n 0 golden mine (omega arith) (omega arith) refl in
    let only = is_empty-range n (gp - n) in
    let only' = is_empty-range n (mp - n) in
    let whole : gp ≡ mp → 0 + n ≡ gp = λ e. omega (arith, e) in
    (
      (λ h.
          let (same, alone) = both_true _ _ h in
          let (ours, theirs) = both_true _ _ alone in
          let equal : gp ≡ mp = ground (arith, sym only ∙ ours, sym only' ∙ theirs) in
          (
            equal,
            subst (λ (k : ℕ). take (k * page_size) golden ≡ take (k * page_size) mine) (whole equal)
                (pages.0 same),
          )),
      (λ h.
          let same = pages.1 (
            subst (λ (k : ℕ). take (k * page_size) golden ≡ take (k * page_size) mine)
              (sym (whole h.0)) h.1) in
          let zero_left : (gp - n == 0) ≡ true = ground (arith, h.0) in
          let zero_left' : (mp - n == 0) ≡ true = ground (arith, h.0) in
          ap₂ ◌&&◌ same (ap₂ ◌&&◌ (only ∙ zero_left) (only' ∙ zero_left'))),
    )

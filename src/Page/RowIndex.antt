-- ===== src/Page/RowIndex.antt =====
-- `write_row_index`: row `k` has its offset in the slot that readers of the format look it up in.
use bvault_app.Prelude.{
  ℕ, zero, suc, ◌+◌, ◌-◌, ◌*◌, ◌/◌, ◌%◌, ◌≤◌, ◌<◌, ◌≡◌, refl, ap, ◌∙◌, ◌⊎◌, arith, List, length,
  get_or, le16, slice, length-write_at, slice-write_at_same, slice-write_at_apart,
}
use native.Mathlib.Decide.{dec_lt}
use bvault_app.Page.{
  write_offsets, write_group, write_groups, write_row_index, rows_in_group, presence_flags,
  num_groups_of, page_size, row_group_size, rows_per_group,
}

length-write_offsets :
    (left i gs first : ℕ) (offsets d : List ℕ)
    → length (write_offsets left i gs first offsets d) ≡ length d
unfolding write_offsets
length-write_offsets zero i gs first offsets d = refl
length-write_offsets (suc left) i gs first offsets d =
    length-write_offsets left (suc i) gs first offsets _ ∙ length-write_at _ _ d

-- Rows `i` to `i + left` fill the slots from `16 - (i + left)` up to `16 - i` of the group.
write_offsets_apart :
    (left i gs first : ℕ) (offsets d : List ℕ) (q n : ℕ)
    → i + left ≤ 16
    → (gs + (16 - i) * 2 ≤ q) ⊎ (q + n ≤ gs + (16 - (i + left)) * 2)
    → slice q n (write_offsets left i gs first offsets d) ≡ slice q n d
unfolding write_offsets
write_offsets_apart zero i gs first offsets d q n h s = refl
write_offsets_apart (suc left) i gs first offsets d q n h s =
    write_offsets_apart left (suc i) gs first offsets _ q n (omega arith) (omega arith)
    ∙ slice-write_at_apart (gs + (15 - i) * 2) q n _ d (omega arith)

write_offsets_slot :
    (left i gs first : ℕ) (offsets d : List ℕ) (k : ℕ)
    → i + left ≤ 16
    → i ≤ k
    → k < i + left
    → gs + 32 ≤ length d
    → slice (gs + (15 - k) * 2) 2 (write_offsets left i gs first offsets d)
      ≡ le16 (get_or offsets (first + k) 0)
unfolding write_offsets
write_offsets_slot zero i gs first offsets d k h lo hi size = absurd (omega arith)
write_offsets_slot (suc left) i gs first offsets d k h lo hi size = elim (dec_lt i k) [
  | yes later ↦
      write_offsets_slot left (suc i) gs first offsets _ k (omega arith) later (omega arith)
        (omega (arith, length-write_at (gs + (15 - i) * 2) (le16 (get_or offsets (first + i) 0)) d))
  | no here ↦
      let e : i ≡ k = omega arith in
      rw (← e) (
        write_offsets_apart left (suc i) gs first offsets _ (gs + (15 - i) * 2) 2 (omega arith)
          (omega arith)
        ∙ slice-write_at_same (gs + (15 - i) * 2) 2 _ d refl (omega arith))
]

-- The start of a group, counted back from the end of the page.
abbrev pub group_start_of : ℕ → ℕ
group_start_of g = page_size - (g + 1) * row_group_size

length-write_group : (g : ℕ) (offsets d : List ℕ) → length (write_group g offsets d) ≡ length d
unfolding write_group
length-write_group g offsets d =
    length-write_at _ _ _
    ∙ length-write_at _ _ _
    ∙ length-write_offsets (rows_in_group (g * rows_per_group) (length offsets)) 0
        (group_start_of g) (g * rows_per_group) offsets d

rows_in_group-le : (first total : ℕ) → rows_in_group first total ≤ 16
unfolding rows_in_group
rows_in_group-le first total = ground arith

write_group_apart :
    (g : ℕ) (offsets d : List ℕ) (q n : ℕ)
    → (group_start_of g + row_group_size ≤ q) ⊎ (q + n ≤ group_start_of g)
    → slice q n (write_group g offsets d) ≡ slice q n d
unfolding write_group
write_group_apart g offsets d q n s =
    let gs : ℕ = group_start_of g in
    slice-write_at_apart (gs + 34) q n _ _ (omega arith)
    ∙ slice-write_at_apart (gs + 32) q n _ _ (omega arith)
    ∙ write_offsets_apart (rows_in_group (g * rows_per_group) (length offsets)) 0 gs _ offsets d q n
        (omega (arith, rows_in_group-le (g * rows_per_group) (length offsets)))
        (omega (arith, rows_in_group-le (g * rows_per_group) (length offsets)))

write_group_slot :
    (g : ℕ) (offsets d : List ℕ) (i : ℕ)
    → i < 16
    → g * 16 + i < length offsets
    → group_start_of g + row_group_size ≤ length d
    → slice (group_start_of g + (15 - i) * 2) 2 (write_group g offsets d)
      ≡ le16 (get_or offsets (g * 16 + i) 0)
unfolding write_group
write_group_slot g offsets d i hi hk size =
    let gs : ℕ = group_start_of g in
    let rows : ℕ = rows_in_group (g * rows_per_group) (length offsets) in
    let many : i < rows = (unfold rows_in_group in ground arith) in
    slice-write_at_apart (gs + 34) (gs + (15 - i) * 2) 2 _ _ (omega arith)
    ∙ slice-write_at_apart (gs + 32) (gs + (15 - i) * 2) 2 _ _ (omega arith)
    ∙ write_offsets_slot rows 0 gs (g * 16) offsets d i
        (omega (arith, rows_in_group-le (g * rows_per_group) (length offsets))) (omega arith)
        (omega (arith, many)) (omega arith)

length-write_groups :
    (left g : ℕ) (offsets d : List ℕ) → length (write_groups left g offsets d) ≡ length d
unfolding write_groups
length-write_groups zero g offsets d = refl
length-write_groups (suc left) g offsets d =
    length-write_groups left (suc g) offsets _ ∙ length-write_group g offsets d

-- Groups `g` to `g + left` touch only the bytes between their starts.
write_groups_apart :
    (left g : ℕ) (offsets d : List ℕ) (q n : ℕ)
    → (g + left) * row_group_size ≤ page_size
    → (page_size - g * row_group_size ≤ q) ⊎ (q + n ≤ page_size - (g + left) * row_group_size)
    → slice q n (write_groups left g offsets d) ≡ slice q n d
unfolding write_groups
write_groups_apart zero g offsets d q n h s = refl
write_groups_apart (suc left) g offsets d q n h s =
    write_groups_apart left (suc g) offsets _ q n (omega arith) (omega arith)
    ∙ write_group_apart g offsets d q n (omega arith)

-- What a range inside group `k` holds is what the round for that group wrote.
write_groups_inside :
    (left g : ℕ) (offsets d : List ℕ) (k q n : ℕ)
    → (g + left) * row_group_size ≤ page_size
    → g ≤ k
    → k < g + left
    → group_start_of k ≤ q
    → q + n ≤ group_start_of k + row_group_size
    → (d' : List ℕ) × (length d' ≡ length d)
      × (slice q n (write_groups left g offsets d) ≡ slice q n (write_group k offsets d'))
unfolding write_groups
write_groups_inside zero g offsets d k q n h lo hi from to = absurd (omega arith)
write_groups_inside (suc left) g offsets d k q n h lo hi from to = elim (dec_lt g k) [
  | yes later ↦
      let (d', size, here) =
        write_groups_inside left (suc g) offsets (write_group g offsets d) k q n (omega arith) later
          (omega arith) from to in
      (d', size ∙ length-write_group g offsets d, here)
  | no now ↦
      let e : g ≡ k = omega arith in
      (
        d,
        refl,
        write_groups_apart left (suc g) offsets (write_group g offsets d) q n (omega arith)
              (omega arith)
            ∙ ap (λ (j : ℕ). slice q n (write_group j offsets d)) e,
      )
]

pub length-write_row_index : (offsets d : List ℕ) → length (write_row_index offsets d) ≡ length d
unfolding write_row_index
length-write_row_index offsets d = length-write_groups (num_groups_of (length offsets)) 0 offsets d

num_groups_of-le : (n : ℕ) → num_groups_of n ≤ n / 16 + 1
unfolding num_groups_of
num_groups_of-le n = ground arith

num_groups_of-lt : (n k : ℕ) → k < n → k / 16 < num_groups_of n
unfolding num_groups_of
num_groups_of-lt n k h = ground arith

-- Below the row groups the index changes nothing.
pub write_row_index_below :
    (offsets d : List ℕ) (q n : ℕ)
    → q + n + (length offsets / 16 + 1) * row_group_size ≤ page_size
    → slice q n (write_row_index offsets d) ≡ slice q n d
unfolding write_row_index
write_row_index_below offsets d q n h =
    let bound = num_groups_of-le (length offsets) in
    write_groups_apart (num_groups_of (length offsets)) 0 offsets d q n (omega arith) (omega arith)

-- Row `k` has its offset in slot `15 - k % 16` of group `k / 16`.
pub write_row_index_slot :
    (offsets d : List ℕ) (k : ℕ)
    → (length offsets / 16 + 1) * row_group_size ≤ page_size
    → page_size ≤ length d
    → k < length offsets
    → slice (group_start_of (k / 16) + (15 - k % 16) * 2) 2 (write_row_index offsets d)
      ≡ le16 (get_or offsets k 0)
unfolding write_row_index
write_row_index_slot offsets d k room size h =
    let bound = num_groups_of-le (length offsets) in
    let whole : k / 16 * 16 + k % 16 ≡ k = omega arith in
    let (d', same, here) =
      write_groups_inside (num_groups_of (length offsets)) 0 offsets d (k / 16)
        (group_start_of (k / 16) + (15 - k % 16) * 2) 2 (omega arith) (omega arith)
        (omega (arith, num_groups_of-lt (length offsets) k h)) (omega arith) (omega arith) in
    here
    ∙ write_group_slot (k / 16) offsets d' (k % 16) (omega arith) (omega arith) (omega arith)
    ∙ rw whole

write_group_flags :
    (g : ℕ) (offsets d : List ℕ)
    → group_start_of g + row_group_size ≤ length d
    → slice (group_start_of g + 32) 2 (write_group g offsets d)
      ≡ le16 (presence_flags (rows_in_group (g * rows_per_group) (length offsets)))
unfolding write_group
write_group_flags g offsets d size =
    let gs : ℕ = group_start_of g in
    let rows : ℕ = rows_in_group (g * rows_per_group) (length offsets) in
    slice-write_at_apart (gs + 34) (gs + 32) 2 _ _ (omega arith)
    ∙ slice-write_at_same (gs + 32) 2 _ _ refl
        (omega (arith, length-write_offsets rows 0 gs (g * rows_per_group) offsets d))

-- Each written group has the flags of the rows that it holds.
pub write_row_index_flags :
    (offsets d : List ℕ) (g : ℕ)
    → (length offsets / 16 + 1) * row_group_size ≤ page_size
    → page_size ≤ length d
    → g < num_groups_of (length offsets)
    → slice (group_start_of g + 32) 2 (write_row_index offsets d)
      ≡ le16 (presence_flags (rows_in_group (g * rows_per_group) (length offsets)))
unfolding write_row_index
write_row_index_flags offsets d g room size h =
    let bound = num_groups_of-le (length offsets) in
    let (d', same, here) =
      write_groups_inside (num_groups_of (length offsets)) 0 offsets d g (group_start_of g + 32) 2
        (omega arith) (omega arith) (omega arith) (omega arith) (omega arith) in
    here ∙ write_group_flags g offsets d' (omega arith)

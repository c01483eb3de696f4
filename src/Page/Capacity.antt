-- ===== src/Page/Capacity.antt =====
-- The data page builder never lets the heap grow into the row index, and keeps every row's bytes
-- where its offset says.
use bvault_app.Prelude.{
  Bool-cases, leb, false, ◌⊎◌, inl, inr, ℕ, ◌-◌, u16, ◌+◌, ◌*◌, ◌/◌, ◌≤◌, ◌≡◌, refl, ap, sym, ◌∙◌,
  arith, List, [], ◌∷◌, ◌++◌, length, length-append, length-replicate, slice, write_at,
  length-write_at, slice-write_at_same, slice-write_at_below,
}
use bvault_app.Page.{
  PageBuilder, PageType, ok, page_overflow, new, would_overflow, write_heap, add_row, pad_row,
  write_row, available_space, page_overflow, add_row, pad_row, write_heap, page_size, heap_start,
  row_group_size,
}

-- Row `r` stands at `heap_start + o`, below `hp`, for each offset and row in turn.
abbrev pub Stored : List ℕ → ℕ → List ℕ → List (List ℕ) → Type 0
Stored d hp [] [] = Unit {0}
Stored d hp [] (r ∷ rs) = ⊥
Stored d hp (o ∷ os) [] = ⊥
Stored d hp (o ∷ os) (r ∷ rs) =
    (o + heap_start + length r ≤ hp) × (slice (o + heap_start) (length r) d ≡ r) × Stored d hp os rs

-- The page holds exactly `rows`, and the heap ends below the row groups that they need.
pub record IsValid (p : PageBuilder) (rows : List (List ℕ)) : Type 0 where
  pub size : length p.bytes ≡ page_size
  pub counted : p.row_count ≡ length p.row_offsets
  pub low : heap_start ≤ p.heap_pos
  pub room : p.heap_pos + (p.row_count / 16 + 1) * row_group_size ≤ page_size
  pub stored : Stored p.bytes p.heap_pos p.row_offsets rows

pub new-IsValid : (page_index : ℕ) (page_type : PageType) → IsValid (new page_index page_type) []
unfolding new
new-IsValid page_index page_type = record {
  size = length-replicate {A = ℕ} page_size 0;
  counted = refl;
  low = omega arith;
  room = omega arith;
  stored = tt;
}

Stored-mono :
    (d : List ℕ) (hp hp' : ℕ) (os : List ℕ) (rs : List (List ℕ))
    → hp ≤ hp'
    → Stored d hp os rs
    → Stored d hp' os rs
Stored-mono d hp hp' [] [] h s = tt
Stored-mono d hp hp' [] (r ∷ rs) h s = s
Stored-mono d hp hp' (o ∷ os) [] h s = s
Stored-mono d hp hp' (o ∷ os) (r ∷ rs) h s = (omega arith, s.1, Stored-mono d hp hp' os rs h s.2)

-- A write at the heap's end stores one more row.
Stored-write_at :
    (d : List ℕ) (o : ℕ) (row : List ℕ) (os : List ℕ) (rs : List (List ℕ))
    → o + heap_start + length row ≤ length d
    → Stored d (o + heap_start) os rs
    → Stored
        (write_at (o + heap_start) row d)
        (o + heap_start + length row)
        (os ++ o ∷ [])
        (rs ++ row ∷ [])
Stored-write_at d o row [] [] h s =
    (omega arith, slice-write_at_same (o + heap_start) (length row) row d refl h, tt)
Stored-write_at d o row [] (r ∷ rs) h s = absurd s
Stored-write_at d o row (o' ∷ os) [] h s = absurd s
Stored-write_at d o row (o' ∷ os) (r ∷ rs) h s = (
  omega arith,
  slice-write_at_below (o + heap_start) (o' + heap_start) (length r) row d (omega arith) ∙ s.1,
  Stored-write_at d o row os rs h s.2,
)

-- What a row write that succeeds has done.
pub record Written (p : PageBuilder) (row : List ℕ) (q : PageBuilder) (offset : ℕ) : Type 0 where
  pub at_end : offset + heap_start ≡ p.heap_pos
  pub wrote : q.bytes ≡ write_at p.heap_pos row p.bytes
  pub grown : p.heap_pos + length row ≤ q.heap_pos
  pub one_more : q.row_count ≡ p.row_count + 1
  pub recorded : q.row_offsets ≡ p.row_offsets ++ offset ∷ []
  pub fits : q.heap_pos + (q.row_count / 16 + 1) * row_group_size ≤ page_size

pub write_row-Written :
    (p q : PageBuilder) (row : List ℕ) (offset : ℕ)
    → heap_start ≤ p.heap_pos
    → p.heap_pos ≤ page_size
    → write_row p row ≡ ok (q, offset)
    → Written p row q offset
unfolding write_row would_overflow
write_row-Written p q row offset low high e = ground arith

-- A row write that succeeds keeps the page valid, with that row last.
pub write_row-IsValid :
    (p q : PageBuilder) (rows : List (List ℕ)) (row : List ℕ) (offset : ℕ)
    → IsValid p rows
    → write_row p row ≡ ok (q, offset)
    → IsValid q (rows ++ row ∷ [])
write_row-IsValid p q rows row offset v e =
    let w = write_row-Written p q row offset v.low (omega (arith, v.room)) e in
    let ends : p.heap_pos ≡ offset + heap_start = sym w.at_end in
    record {
      size = ap length w.wrote ∙ length-write_at p.heap_pos row p.bytes ∙ v.size;
      counted = omega (
        arith,
        w.one_more,
        v.counted,
        ap length w.recorded,
        length-append p.row_offsets (offset ∷ []),
      );
      low = omega (arith, w.grown, v.low);
      room = w.fits;
      stored =
          rw (w.wrote, w.recorded)
            (Stored-mono _ (offset + heap_start + length row) q.heap_pos _ _
              (omega (arith, w.grown, w.at_end))
              (rw ends (
                Stored-write_at p.bytes offset row p.row_offsets rows
                  (omega (arith, w.at_end, w.grown, w.fits, v.size)) (rw (w.at_end) v.stored))));
    }

-- The free bytes that a row may take: the heap must end below the groups of one more row.
abbrev pub Fits : PageBuilder → List ℕ → Type 0
Fits p row = p.heap_pos + length row + ((p.row_count + 1) / 16 + 1) * row_group_size ≤ page_size

written_page : PageBuilder → List ℕ → PageBuilder
unfolding write_heap add_row pad_row
written_page p row = pad_row (
    add_row
      (record p { bytes = write_at p.heap_pos row p.bytes; heap_pos = p.heap_pos + length row })
      (u16 (p.heap_pos - heap_start)))

-- On a valid page, a row that fits is written, and one that does not is refused with its length
-- and the space that there is.
pub write_row_cases :
    (p : PageBuilder) (rows : List (List ℕ)) (row : List ℕ)
    → IsValid p rows
    → (Fits p row × ((q : PageBuilder) × (offset : ℕ) × (write_row p row ≡ ok (q, offset))))
      ⊎ (¬ Fits p row × (write_row p row ≡ page_overflow (length row) (available_space p)))
unfolding write_row would_overflow written_page
write_row_cases p rows row v =
    elim (Bool-cases
      (leb (p.heap_pos + length row + ((p.row_count + 1) / 16 + 1) * row_group_size) page_size)) [
        | inl t ↦ inl (
          ground arith,
          (written_page p row, u16 (p.heap_pos - heap_start), ground (arith, v.low)),
        )
        | inr f ↦ inr ((λ h. ground arith), ground (arith, v.low))
      ]

-- The test for room is the condition under which the row is written.
pub would_overflow-Fits :
    (p : PageBuilder) (row : List ℕ)
    → heap_start ≤ p.heap_pos
    → would_overflow p (length row) ≡ false
    → Fits p row
unfolding would_overflow
would_overflow-Fits p row low e = ground arith

pub write_row-page_index :
    (p q : PageBuilder) (row : List ℕ) (offset : ℕ)
    → write_row p row ≡ ok (q, offset)
    → q.page_index ≡ p.page_index
unfolding write_row would_overflow
write_row-page_index p q row offset e = ground arith

-- A row takes its bytes and at most three of padding.
pub write_row-heap_pos :
    (p q : PageBuilder) (row : List ℕ) (offset : ℕ)
    → heap_start ≤ p.heap_pos
    → p.heap_pos ≤ page_size
    → write_row p row ≡ ok (q, offset)
    → (q.heap_pos ≤ p.heap_pos + length row + 3) × (q.row_count ≡ p.row_count + 1)
unfolding write_row would_overflow
write_row-heap_pos p q row offset low high e =
    (ground arith, (write_row-Written p q row offset low high e).one_more)

-- ===== src/Pdb/Paging/Totality.antt =====
-- When a table can be built.
use bvault_app.Prelude.{
  ℕ, ◌+◌, ◌≤◌, ◌≡◌, ◌↔◌, refl, inl, inr, arith, List, [], ◌∷◌, ◌++◌, length, All, u32, false,
  Bool-cases,
}
use bvault_app.Page.{
  PageBuilder, PageType, PageResult, ok, page_overflow, >>=-eq-ok, ◌>>=◌, new, would_overflow,
  finalize, write_row,
}
use bvault_app.Page.Capacity.{
  IsValid, new-IsValid, write_row-IsValid, write_row_cases, would_overflow-Fits,
}
use bvault_app.Pdb.Paging.{write_pages, write_pages-round, table_pages, with_data}

abbrev pub Succeeds {ℓ} : {A : Type ℓ} → PageResult A → Type 0
Succeeds (ok a) = Unit {0}
Succeeds (page_overflow wanted available) = ⊥

pub Succeeds-eq-ok : {A : Type 0} (m : PageResult A) → Succeeds m → (a : A) × (m ≡ ok a)
Succeeds-eq-ok (ok a) s = (a, refl)
Succeeds-eq-ok (page_overflow w n) s = absurd s

-- The bytes of a page between its header and one row group.
abbrev pub longest_row : ℕ
longest_row = 4020

abbrev pub IsShort : List ℕ → Type 0
IsShort row = length row ≤ longest_row

fresh_row :
    (t : PageType) (next : ℕ) (row : List ℕ)
    → IsShort row
    → (q : PageBuilder) × (offset : ℕ) × (write_row (new next t) row ≡ ok (q, offset))
fresh_row t next row h = elim (write_row_cases (new next t) [] row (new-IsValid next t)) [
  | inl (fits, written) ↦ written
  | inr (tight, e) ↦ absurd (tight (unfold new in omega arith))
]

room_row :
    (p : PageBuilder) (old : List (List ℕ)) (row : List ℕ)
    → IsValid p old
    → would_overflow p (length row) ≡ false
    → (q : PageBuilder) × (offset : ℕ) × (write_row p row ≡ ok (q, offset))
room_row p old row v f = elim (write_row_cases p old row v) [
  | inl (fits, written) ↦ written
  | inr (tight, e) ↦ absurd (tight (would_overflow-Fits p row v.low f))
]

write_pages-Succeeds :
    (t : PageType) (p : PageBuilder) (next : ℕ) (old rows : List (List ℕ))
    → IsValid p old
    → All IsShort rows
    → Succeeds (write_pages t p next rows)
unfolding write_pages
write_pages-Succeeds t p next old [] v h = tt
write_pages-Succeeds t p next old (row ∷ rows) v h =
    elim (Bool-cases (would_overflow p (length row))) [
      | inl full ↦
          let (q, offset, e) = fresh_row t next row h.0 in
          rw full (
            rw e (
              chained (finalize p next ∷ []) _ (
                write_pages-Succeeds t q (u32 (next + 1)) (row ∷ []) rows
                  (write_row-IsValid (new next t) q [] row offset (new-IsValid next t) e) h.1)))
      | inr room ↦
          let (q, offset, e) = room_row p old row v room in
          rw room (
            rw e (
              chained [] _ (
                write_pages-Succeeds t q next (old ++ row ∷ []) rows
                  (write_row-IsValid p q old row offset v e) h.1)))
    ]
  where
    chained :
        (finished : List (List ℕ)) (m : PageResult (List (List ℕ) × ℕ))
        → Succeeds m
        → Succeeds {A = List (List ℕ) × ℕ} (do (pages, last) ← m; ok (finished ++ pages, last))
    chained finished (ok a) s = tt
    chained finished (page_overflow w n) s = s

row_IsShort :
    (p q : PageBuilder) (old : List (List ℕ)) (row : List ℕ) (offset : ℕ)
    → IsValid p old
    → write_row p row ≡ ok (q, offset)
    → IsShort row
row_IsShort p q old row offset v e = elim (write_row_cases p old row v) [
  | inl (fits, written) ↦ omega (arith, fits, v.low)
  | inr (tight, refused) ↦ absurd (cc)
]

write_pages-IsShort :
    (t : PageType) (p : PageBuilder) (next : ℕ) (old rows pages : List (List ℕ)) (last : ℕ)
    → IsValid p old
    → write_pages t p next rows ≡ ok (pages, last)
    → All IsShort rows
write_pages-IsShort t p next old [] pages last v e = tt
write_pages-IsShort t p next old (row ∷ rows) pages last v e =
    elim (write_pages-round t p next row rows pages last e) [
      | inl r ↦
          let fresh = new-IsValid next t in
          (
            row_IsShort (new next t) r.page [] row r.offset fresh r.wrote,
            write_pages-IsShort t r.page (u32 (next + 1)) (row ∷ []) rows r.rest last
                (write_row-IsValid (new next t) r.page [] row r.offset fresh r.wrote) r.went,
          )
      | inr r ↦ (
        row_IsShort p r.page old row r.offset v r.wrote,
        write_pages-IsShort t r.page next (old ++ row ∷ []) rows pages last
            (write_row-IsValid p r.page old row r.offset v r.wrote) r.went,
      )
    ]

-- The pages of a table are built exactly when no row is longer than 4,020 bytes: the loop never
-- overflows a page by the number of rows.
pub table_pages-Succeeds :
    (t : PageType) (next : ℕ) (rows : List (List ℕ))
    → Succeeds (table_pages t next rows) ↔ All IsShort rows
unfolding table_pages
table_pages-Succeeds t next [] = ((λ s. tt), (λ h. tt))
table_pages-Succeeds t next (row ∷ rows) = (
  (λ s.
      let (built, e) = Succeeds-eq-ok (table_pages t next (row ∷ rows)) s in
      let ((pages, last), wrote, made) =
        >>=-eq-ok {A = List (List ℕ) × ℕ} (write_pages t (new next t) (u32 (next + 1)) (row ∷ rows))
          _ e in
      write_pages-IsShort t (new next t) (u32 (next + 1)) [] (row ∷ rows) pages last
        (new-IsValid next t) wrote),
  (λ h. framed _ (
      write_pages-Succeeds t (new next t) (u32 (next + 1)) [] (row ∷ rows) (new-IsValid next t) h)),
)
  where
    framed :
        (m : PageResult (List (List ℕ) × ℕ))
        → Succeeds m
        → Succeeds (do written ← m; ok (with_data written))
    framed (ok a) s = tt
    framed (page_overflow w n) s = s

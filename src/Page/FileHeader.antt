-- ===== src/Page/FileHeader.antt =====
-- page.rs: the table pointers and the file's header page, which are read back field by field.
pub mod Fields
use bvault_app.Prelude.{
  ℕ, zero, suc, ◌+◌, ◌*◌, ◌^◌, ◌≤◌, ◌<◌, ◌≡◌, refl, ap, ◌∙◌, inl, inr, arith, Option, some, none,
  List, [], ◌∷◌, ◌++◌, leb, if◌then◌else◌, length, length-replicate, get_elem?, subst, replicate,
  slice, write_all, Writes, Apart, slice-write_all, le32, of_le, of_le-le32, u32,
}
use bvault_app.Page.{PageType, type_code, page_size}

pub record TablePointer : Type 0 where
  pub first : ℕ
  pub empty : ℕ
  pub last : ℕ
  pub table_type : ℕ

unfoldable pub pointer : PageType → ℕ → ℕ → ℕ → TablePointer
pointer table_type first index_page data_page = record {
  first = first;
  empty = index_page;
  last = data_page;
  table_type = type_code table_type;
}

unfoldable pub pointer_bytes : TablePointer → List ℕ
pointer_bytes t = le32 t.table_type ++ le32 t.first ++ le32 t.empty ++ le32 t.last

pub record FileHeader : Type 0 where
  pub header_page_size : ℕ
  pub num_tables : ℕ
  pub next_unused_page : ℕ
  pub track_count : ℕ
  pub sequence : ℕ
  pub tables : List TablePointer

unfoldable pub new_header : FileHeader
new_header = record {
  header_page_size = page_size;
  num_tables = 0;
  next_unused_page = 1;
  track_count = 0;
  sequence = 0;
  tables = [];
}

unfoldable pub add_table : TablePointer → FileHeader → FileHeader
add_table pointer h = record h {
  tables = h.tables ++ pointer ∷ [];
  num_tables = u32 (length (h.tables ++ pointer ∷ []));
}

-- The loop over the pointers, from `offset` on.
pointer_writes : ℕ → List TablePointer → List (ℕ × List ℕ)
pointer_writes offset [] = []
pointer_writes offset (t ∷ ts) = (offset, pointer_bytes t) ∷ pointer_writes (offset + 16) ts

page_writes : FileHeader → List (ℕ × List ℕ)
unfolding pointer_writes
page_writes h =
    (4, le32 h.header_page_size)
    ∷ (8, le32 h.num_tables)
    ∷ (12, le32 h.next_unused_page)
    ∷ (0x10, le32 h.track_count)
    ∷ (0x14, le32 h.sequence)
    ∷ pointer_writes 0x1C h.tables

-- `none` is the panic of a write beyond the page.
unfoldable pub to_page : FileHeader → Option (List ℕ)
unfolding page_writes
to_page h =
    if leb (0x1C + length h.tables * 16) page_size
    then some (write_all (page_writes h) (replicate page_size 0))
    else none

-- Pointers behind a range leave it alone.
pointer_writes-Apart :
    (offset q n : ℕ) (ts : List TablePointer)
    → q + n ≤ offset
    → Apart q n (pointer_writes offset ts)
unfolding pointer_writes
pointer_writes-Apart offset q n [] h = tt
pointer_writes-Apart offset q n (t ∷ ts) h =
    (inr h, pointer_writes-Apart (offset + 16) q n ts (omega arith))

pointer_writes-Writes :
    (offset i : ℕ) (ts : List TablePointer) (t : TablePointer)
    → get_elem? ts i ≡ some t
    → Writes (offset + i * 16) (pointer_bytes t) (pointer_writes offset ts)
unfolding pointer_writes
pointer_writes-Writes offset i [] t e = absurd (ground arith)
pointer_writes-Writes offset zero (x ∷ ts) t e = inl (
  omega arith,
  ap pointer_bytes (ground arith),
  pointer_writes-Apart (offset + 16) (offset + 0 * 16) (length (pointer_bytes t)) ts
      (unfold pointer_bytes in omega arith),
)
pointer_writes-Writes offset (suc i) (x ∷ ts) t e = inr (
    subst (λ q. Writes q (pointer_bytes t) (pointer_writes (offset + 16) ts))
      (let e : offset + 16 + i * 16 ≡ offset + suc i * 16 = omega arith in e)
      (pointer_writes-Writes (offset + 16) i ts t e))

-- The pointer that stands at byte 28 + 16 i, as the players and the validator read it: its type,
-- the empty candidate, the first page and the last page.
pub read_pointer : List ℕ → ℕ → TablePointer
read_pointer page i =
    let at = slice (0x1C + i * 16) 16 page in
    record {
      table_type = of_le (slice 0 4 at);
      first = of_le (slice 4 4 at);
      empty = of_le (slice 8 4 at);
      last = of_le (slice 12 4 at);
    }

-- The numbers of a pointer fit 32 bits.
pub record IsPointer (t : TablePointer) : Type 0 where
  pub firsts : t.first < 2 ^ 32
  pub empties : t.empty < 2 ^ 32
  pub lasts : t.last < 2 ^ 32
  pub types : t.table_type < 2 ^ 32

pointer_read :
    (t : TablePointer) (page : List ℕ) (i : ℕ)
    → IsPointer t
    → slice (0x1C + i * 16) 16 page ≡ pointer_bytes t
    → read_pointer page i ≡ t
unfolding read_pointer pointer_bytes
pointer_read t page i v e = rw e (
    ground (
      arith,
      of_le-le32 t.first v.firsts,
      of_le-le32 t.empty v.empties,
      of_le-le32 t.last v.lasts,
      of_le-le32 t.table_type v.types,
    ))

-- Where the header page is made, each of its table pointers is read back from it, under its
-- number, and so is the next unused page.
pub read_pointer-to_page :
    (h : FileHeader) (page : List ℕ) (i : ℕ) (t : TablePointer)
    → to_page h ≡ some page
    → get_elem? h.tables i ≡ some t
    → IsPointer t
    → h.next_unused_page < 2 ^ 32
    → (read_pointer page i ≡ t) × (of_le (slice 12 4 page) ≡ h.next_unused_page)
unfolding to_page
read_pointer-to_page h page i t made found v small =
    let inside : i < length h.tables = within h.tables i t found in
    let made' : (0x1C + length h.tables * 16 ≤ 4096)
        × (write_all (page_writes h) (replicate page_size 0) ≡ page) =
      ground (arith) in
    let blank : List ℕ = replicate page_size 0 in
    let size : length blank ≡ 4096 = length-replicate {A = ℕ} page_size 0 in
    let listed : Writes (0x1C + i * 16) (pointer_bytes t) (page_writes h) =
      unfold page_writes in
      inr (inr (inr (inr (inr (pointer_writes-Writes 0x1C i h.tables t found))))) in
    (
      pointer_read t page i v (
          subst (λ d. slice (0x1C + i * 16) 16 d ≡ pointer_bytes t) made'.1
            (unfold pointer_bytes in
              slice-write_all (0x1C + i * 16) (pointer_bytes t) (page_writes h) blank listed
                (omega (arith, size)))),
      ap of_le (
            subst (λ d. slice 12 4 d ≡ le32 h.next_unused_page) made'.1
              (slice-write_all 12 (le32 h.next_unused_page) (page_writes h) blank
                (unfold page_writes in
                  inr (
                    inr (
                      inl (
                        refl,
                        refl,
                        (
                          inr (omega arith),
                          (
                            inr (omega arith),
                            pointer_writes-Apart 0x1C 12 4 h.tables (omega arith),
                          ),
                        ),
                      ))))
                (omega (arith, size))))
          ∙ of_le-le32 h.next_unused_page small,
    )
  where
    within :
        (ts : List TablePointer) (i : ℕ) (t : TablePointer)
        → get_elem? ts i ≡ some t
        → i < length ts
    within [] i t e = absurd (ground arith)
    within (x ∷ ts) zero t e = omega arith
    within (x ∷ ts) (suc i) t e = omega (arith, within ts i t e)

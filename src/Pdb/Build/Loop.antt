-- ===== src/Pdb/Build/Loop.antt =====
-- pdb.rs: what the loop over the tables keeps.
use bvault_app.Prelude.{
  ℕ, suc, ◌+◌, ◌-◌, ◌^◌, ◌≤◌, ◌<◌, ◌≡◌, refl, ap, subst, ◌∙◌, ◌⊎◌, inl, inr, arith, Bool, true,
  false, not, List, [], ◌∷◌, ◌++◌, All, All-append, length, length-append, length-replicate,
  length-write_at, write_at, u32, le32, get_or, ltb, ◌==◌, if◌then◌else◌, Bool-cases,
}
use bvault_app.Page.{PageType, page_size}
use bvault_app.Page.Index.{new_index, length-finalize_index}
use bvault_app.Pdb.{PdbBuilder}
use bvault_app.Pdb.Paging.{DataPages}
use bvault_app.Pdb.Paging.Layout.{IsPage}
use bvault_app.Pdb.Tables.{done, build_data_pages}
use bvault_app.Pdb.Build.{
  TableInfo, Progress, patch_sequence, finish_table, push_table, build_tables,
  build_table_with_sequence, last_of, started,
}
use bvault_app.Pdb.Build.Pages.{>>=-eq-done, always_data, added_rows, build_data_pages-IsLaidOut}

-- The sequence numbers change no page's size.
patch_sequence-kept :
    (sequence : ℕ) (pages : List (List ℕ))
    → All IsPage pages
    → All IsPage (patch_sequence sequence pages).0
      × (length (patch_sequence sequence pages).0 ≡ length pages)
unfolding patch_sequence
patch_sequence-kept sequence [] full = (tt, refl)
patch_sequence-kept sequence (page ∷ pages) full =
    let used = not (get_or page 0x1B 0 == 0) in
    let (rest, size) =
      patch_sequence-kept (if used then u32 (sequence + 1) else sequence) pages full.1 in
    ((patched used, rest), ap suc size)
  where
    patched : (used : Bool) → IsPage (if used then write_at 0x10 (le32 sequence) page else page)
    patched true = length-write_at 0x10 (le32 sequence) page ∙ full.0
    patched false = full.0

-- 1 for a table that has data.
abbrev pub has_data_count : TableInfo → ℕ
has_data_count info = if ltb info.index_page_idx info.last_data_page then 1 else 0

abbrev pub data_tables : List TableInfo → ℕ
data_tables [] = 0
data_tables (info ∷ infos) = has_data_count info + data_tables infos

data_tables-append :
    (infos : List TableInfo) (info : TableInfo)
    → data_tables (infos ++ info ∷ []) ≡ data_tables infos + has_data_count info
data_tables-append [] info = omega arith
data_tables-append (x ∷ infos) info = omega (arith, data_tables-append infos info)

abbrev pub always_count : List PageType → ℕ
always_count [] = 0
always_count (t ∷ types) = always_data t + always_count types

-- The pages so far, each of full size, and the number of the next.
pub record IsCounted (s : Progress) : Type 0 where
  pub full : All IsPage s.all_pages
  pub counted : s.next_page_index ≡ u32 (length s.all_pages)

pub started-IsCounted : IsCounted started
unfolding started
started-IsCounted = record { full = (length-replicate {A = ℕ} page_size 0, tt); counted = refl }

last_of-data :
    (pages : List (List ℕ)) (d i : ℕ)
    → 0 < length pages
    → last_of true pages d i ≡ u32 (d + u32 (length pages) + (2 ^ 32 - 1))
unfolding last_of
last_of-data [] d i h = absurd (omega arith)
last_of-data (page ∷ pages) d i h = refl

-- What one table has done to the variables of the loop.
pub record Pushed (rows : ℕ) (t : PageType) (s s' : Progress) : Type 0 where
  pub valid : IsCounted s'
  pub grown : length s.all_pages + 2 ≤ length s'.all_pages
  pub few : length s'.all_pages ≤ length s.all_pages + 2 + rows
  pub info : TableInfo
  pub one_more : s'.table_infos ≡ s.table_infos ++ info ∷ []
  pub below : info.last_data_page < length s'.all_pages
  pub filled :
      (2 ^ 32 ≤ length s'.all_pages)
      ⊎ (data_tables s.table_infos + always_data t ≤ data_tables s'.table_infos)

always_data-le : (t : PageType) → always_data t ≤ 1
unfolding always_data
always_data-le t = ground arith

has_data_count_true :
    (info : TableInfo) → info.index_page_idx < info.last_data_page → has_data_count info ≡ 1
has_data_count_true info h = ground arith

-- A table of data has its last page behind its index page, below 2^32.
last_of-lt :
    (pages : List (List ℕ)) (i n : ℕ)
    → i ≡ u32 n
    → n + 1 + length pages < 2 ^ 32
    → 0 < length pages
    → i < last_of true pages (u32 (i + 1)) i
last_of-lt pages i n e small h = omega (arith, last_of-data pages (u32 (i + 1)) i h)

last_of-le :
    (has_data : Bool) (pages : List (List ℕ)) (i n : ℕ)
    → i ≡ u32 n
    → last_of has_data pages (u32 (i + 1)) i ≤ n + length pages
unfolding last_of
last_of-le true [] i n e = omega arith
last_of-le false [] i n e = omega arith
last_of-le true (page ∷ pages) i n e = omega arith
last_of-le false (page ∷ pages) i n e = omega arith

module _ {F : Type 0} (tempo_of seconds_of : F → ℕ) (b : PdbBuilder F) where
  pub push_table-Pushed :
      (t : PageType) (s : Progress) (built : DataPages)
      → IsCounted s
      → build_data_pages tempo_of seconds_of b t (u32 (s.next_page_index + 1)) ≡ done built
      → Pushed
          (added_rows b t)
          t
          s
          (push_table t (finish_table t s.next_page_index s.sequence built) s)
  unfolding push_table finish_table
  push_table-Pushed t s built v e =
      let (laid, always) =
        build_data_pages-IsLaidOut tempo_of seconds_of b t (u32 (s.next_page_index + 1)) built e in
      let r = finish_table t s.next_page_index s.sequence built in
      let s' = push_table t r s in
      let info : TableInfo = record {
        page_type = t;
        index_page_idx = r.index_page_idx;
        last_data_page = r.last_data_page_idx;
      } in
      let (full, size) = patch_sequence-kept s.sequence built.pages laid.full in
      let whole : IsPage r.index_page =
        length-finalize_index (new_index s.next_page_index t) _ _ _
        ∙ (unfold new_index in length-replicate {A = ℕ} page_size 0) in
      let total : length s'.all_pages ≡ length s.all_pages + suc (length built.pages) =
        omega (arith, length-append s.all_pages (r.index_page ∷ r.data_pages), size) in
      let infos : data_tables s'.table_infos ≡ data_tables s.table_infos + has_data_count info =
        data_tables-append s.table_infos info in
      record {
        valid = record {
          full = All-append IsPage s.all_pages (r.index_page ∷ r.data_pages) v.full (whole, full);
          counted = omega (arith, v.counted, laid.counted, total);
        };
        grown = omega (arith, laid.some_page, total);
        few = omega (arith, laid.few, total);
        info = info;
        one_more = refl;
        below = omega (
          arith,
          total,
          size,
          last_of-le built.has_data r.data_pages s.next_page_index (length s.all_pages) v.counted,
        );
        filled = elim always [
          | inl nil ↦ inr (omega (arith, nil, infos))
          | inr filled ↦
              elim (Bool-cases (ltb (length s.all_pages + 1 + length built.pages) (2 ^ 32))) [
                | inl small ↦
                    let later : r.index_page_idx < r.last_data_page_idx = rw filled (
                      last_of-lt r.data_pages s.next_page_index (length s.all_pages) v.counted
                        (ground (arith, size, small)) (omega (arith, size, laid.some_page))) in
                    inr (omega (arith, infos, always_data-le t, has_data_count_true info later))
                | inr large ↦ inl (ground (arith, large, total))
              ]
        ];
      }

  -- The pages that tables can take.
  abbrev pub page_bound : List PageType → ℕ
  page_bound [] = 0
  page_bound (t ∷ types) = 2 + added_rows b t + page_bound types

  -- Over the tables, the pages stay whole and counted, each table adds an info, and those that
  -- always have data are counted among those with data, as long as the pages stay below 2^32.
  pub build_tables-kept :
      (types : List PageType) (s s' : Progress)
      → IsCounted s
      → build_tables tempo_of seconds_of b types s ≡ done s'
      → IsCounted s'
        × (length s.all_pages ≤ length s'.all_pages)
        × (length s'.all_pages ≤ length s.all_pages + page_bound types)
        × (length s'.table_infos ≡ length s.table_infos + length types)
        × ((2 ^ 32 ≤ length s'.all_pages)
            ⊎ (data_tables s.table_infos + always_count types ≤ data_tables s'.table_infos))
  unfolding build_tables build_table_with_sequence
  build_tables-kept [] s s' v e =
      let same : s ≡ s' = cc in
      subst
        (λ r.
          IsCounted r
          × (length s.all_pages ≤ length r.all_pages)
          × (length r.all_pages ≤ length s.all_pages + 0)
          × (length r.table_infos ≡ length s.table_infos + 0)
          × ((2 ^ 32 ≤ length r.all_pages)
              ⊎ (data_tables s.table_infos + 0 ≤ data_tables r.table_infos)))
        same (v, omega arith, omega arith, omega arith, inr (omega arith))
  build_tables-kept (t ∷ types) s s' v e =
      let (r, made, rest) = >>=-eq-done _ _ e in
      let (built, found, ends) = >>=-eq-done _ _ made in
      let same : finish_table t s.next_page_index s.sequence built ≡ r = cc in
      let p =
        subst (λ x. Pushed (added_rows b t) t s (push_table t x s)) same
          (push_table-Pushed t s built v found) in
      let (v', more, few, infos, filled) =
        build_tables-kept types (push_table t r s) s' p.valid rest in
      (
        v',
        omega (arith, more, p.grown),
        omega (arith, few, p.few),
        omega (arith, infos, ap length p.one_more, length-append s.table_infos (p.info ∷ [])),
        elim filled [
          | inl large ↦ inl large
          | inr rest ↦ elim (p.filled) [
            | inl large ↦ inl (omega (arith, large, more))
            | inr first ↦ inr (omega (arith, rest, first))
          ]
        ],
      )

-- ===== src/Pdb/Build/Returns.antt =====
-- pdb.rs: the loop over the tables and the assembly of the file return.
use bvault_app.Prelude.{
  ℕ, zero, suc, ◌+◌, ◌<◌, ◌≡◌, refl, ap, sym, subst, ◌∙◌, arith, Bool, true, false, some, List, [],
  ◌∷◌, All, All-append, All-map, length, u32, ltb, if◌then◌else◌,
}
use bvault_app.Page.{PageType, all_types}
use bvault_app.Page.FileHeader.{new_header, to_page}
use bvault_app.Page.FileHeader.Fields.{to_page-some}
use bvault_app.Pdb.{PdbBuilder}
use bvault_app.Pdb.Tables.{Outcome, done, ◌>>=◌, of_option}
use bvault_app.Pdb.Build.{
  TableInfo, Progress, Pointers, started, finish_table, push_table, build_tables,
  build_table_with_sequence, point_to, point_all, patch_next, patch_all, assemble, build,
}
use bvault_app.Pdb.Build.Pages.{>>=-eq-done, added_rows}
use bvault_app.Pdb.Build.Loop.{
  IsCounted, Pushed, started-IsCounted, push_table-Pushed, build_tables-kept,
}
use bvault_app.Pdb.Build.Header.{point_all-Pointed}
use bvault_app.Pdb.Build.Totality.{
  Returns, Returns-eq-done, IsShortBuilder, build_data_pages-Returns,
}

module _ {ℓ} {A B : Type ℓ} where
  >>=-done :
      (m : Outcome A) (next : A → Outcome B) (a : A) {b : B}
      → m ≡ done a
      → next a ≡ done b
      → (m >>= next) ≡ done b
  >>=-done m next a e h = ap (λ r. r >>= next) e ∙ h

-- The last page of a table is among the pages.
abbrev IsBelow : ℕ → TableInfo → Type 0
IsBelow n info = info.last_data_page < n

-- Every patch is for a page below `n`.
abbrev AllBelow : ℕ → List (ℕ × ℕ) → Type 0
AllBelow n targets = All (λ (i, c). i < n) targets

point_all-AllBelow :
    (n : ℕ) (infos : List TableInfo) (s : Pointers)
    → All (IsBelow n) infos
    → AllBelow n s.patch_targets
    → AllBelow n (point_all infos s).patch_targets
unfolding point_all
point_all-AllBelow n [] s h old = old
point_all-AllBelow n (info ∷ infos) s h old = point_all-AllBelow n infos (point_to info s) h.1 (
    unfold point_to in
    All-append (λ (i, c). i < n) s.patch_targets _ old
      (one (ltb info.index_page_idx info.last_data_page) _))
  where
    one :
        (has_data : Bool) (c : ℕ)
        → AllBelow n (if has_data then (info.last_data_page, c) ∷ [] else [])
    one true c = (h.0, tt)
    one false c = tt

patch_next-some :
    (i c : ℕ) (pages : List (List ℕ))
    → i < length pages
    → (patched : List (List ℕ)) × (patch_next i c pages ≡ some patched)
      × (length patched ≡ length pages)
unfolding patch_next
patch_next-some i c [] h = absurd (omega arith)
patch_next-some zero c (page ∷ pages) h = (_, refl, refl)
patch_next-some (suc i) c (page ∷ pages) h =
    let (rest, found, size) = patch_next-some i c pages (omega arith) in
    (page ∷ rest, rw found refl, ap suc size)

patch_all-some :
    (targets : List (ℕ × ℕ)) (pages : List (List ℕ))
    → AllBelow (length pages) targets
    → (patched : List (List ℕ)) × (patch_all targets pages ≡ some patched)
unfolding patch_all
patch_all-some [] pages h = (pages, refl)
patch_all-some ((i, c) ∷ targets) pages h =
    let (rest, found, size) = patch_next-some i c pages h.0 in
    let (patched, all) =
      patch_all-some targets rest (subst (λ n. AllBelow n targets) (sym size) h.1) in
    (patched, rw (found, patch_all) all)

module _ {F : Type 0} (tempo_of seconds_of : F → ℕ) (b : PdbBuilder F) where
  -- The last pages stay among the pages, table by table.
  build_tables-IsBelow :
      (types : List PageType) (s s' : Progress)
      → IsCounted s
      → All (IsBelow (length s.all_pages)) s.table_infos
      → build_tables tempo_of seconds_of b types s ≡ done s'
      → All (IsBelow (length s'.all_pages)) s'.table_infos
  unfolding build_tables build_table_with_sequence
  build_tables-IsBelow [] s s' v h e =
      let same : s ≡ s' = cc in subst (λ r. All (IsBelow (length r.all_pages)) r.table_infos) same h
  build_tables-IsBelow (t ∷ types) s s' v h e =
      let (r, made, rest) = >>=-eq-done _ _ e in
      let (built, found, ends) = >>=-eq-done _ _ made in
      let same : finish_table t s.next_page_index s.sequence built ≡ r = cc in
      let p =
        subst (λ x. Pushed (added_rows b t) t s (push_table t x s)) same
          (push_table-Pushed tempo_of seconds_of b t s built v found) in
      build_tables-IsBelow types (push_table t r s) s' p.valid
        (subst (All (IsBelow (length (push_table t r s).all_pages))) (sym p.one_more) (
          All-append _ s.table_infos _
            (All-map _ _ s.table_infos (λ info below. omega (arith, below, p.grown)) h)
            (p.below, tt)))
        rest

  build_tables-Returns :
      (types : List PageType) (s : Progress)
      → IsShortBuilder tempo_of seconds_of b
      → Returns (build_tables tempo_of seconds_of b types s)
  unfolding build_tables build_table_with_sequence
  build_tables-Returns [] s h = tt
  build_tables-Returns (t ∷ types) s h =
      let (built, found) =
        Returns-eq-done _
          (build_data_pages-Returns tempo_of seconds_of b t (u32 (s.next_page_index + 1)) h) in
      rw found (build_tables-Returns types _ h)

  assemble-Returns :
      (s : Progress)
      → IsCounted s
      → length s.table_infos ≡ 20
      → All (IsBelow (length s.all_pages)) s.table_infos
      → (bytes : List ℕ) × (assemble tempo_of seconds_of b s ≡ done bytes)
  unfolding assemble
  assemble-Returns s v infos below =
      let start : Pointers = record {
        header = new_header;
        phantom = s.next_page_index;
        patch_targets = [];
      } in
      let pointers = point_all s.table_infos start in
      let (patched, found) =
        patch_all-some pointers.patch_targets s.all_pages
          (point_all-AllBelow (length s.all_pages) s.table_infos start below tt) in
      let p =
        point_all-Pointed s.table_infos start (omega (arith, v.counted))
          (unfold new_header in refl) in
      let empty : length new_header.tables ≡ 0 = unfold new_header in refl in
      let (page, made) =
        to_page-some
          (record (pointers.header) {
            next_unused_page = pointers.phantom;
            sequence = s.sequence;
            track_count = u32 (length b.tracks);
          })
          (omega (arith, p.tables, infos, empty)) in
      (
        _,
        >>=-done (of_option (patch_all pointers.patch_targets s.all_pages)) _ patched
            (ap of_option found) (>>=-done (of_option (to_page _)) _ page (ap of_option made) refl),
      )

  -- A database is built, without an error and without a panic, where every row is at most 4,020
  -- bytes long and the numbers of the keys name keys.
  pub build-Returns :
      IsShortBuilder tempo_of seconds_of b
      → (bytes : List ℕ) × (build tempo_of seconds_of b ≡ done bytes)
  unfolding build
  build-Returns h =
      let (s, ran) = Returns-eq-done _ (build_tables-Returns all_types started h) in
      let (v, more, few, infos, filled) =
        build_tables-kept tempo_of seconds_of b all_types started s started-IsCounted ran in
      let below =
        build_tables-IsBelow all_types started s started-IsCounted (unfold started in tt) ran in
      let none_yet : length started.table_infos ≡ 0 = unfold started in refl in
      let twenty : length all_types ≡ 20 = unfold all_types in refl in
      let (bytes, made) = assemble-Returns s v (omega (arith, infos, none_yet, twenty)) below in
      (bytes, >>=-done (build_tables tempo_of seconds_of b all_types started) _ s ran made)

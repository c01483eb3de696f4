-- ===== src/Validate/Chains.antt =====
-- The walk along a table's pages ends: each step visits a page that was not visited before.
use bvault_app.Prelude.{
  ℕ, zero, suc, ◌+◌, ◌≤◌, ◌<◌, ◌≡◌, refl, inl, inr, arith, false, not, ◌&&◌, Bool-cases, some, List,
  [], ◌∷◌, ltb, ◌==◌, if◌then◌else◌, u32,
}
use bvault_app.Validate.{contains, count_from, count_table_rows, num_rows, page_at, u32_at}

-- The pages below a bound that were not visited.
unvisited : ℕ → List ℕ → ℕ
unvisited zero visited = 0
unvisited (suc n) visited = (if contains n visited then 0 else 1) + unvisited n visited

unvisited-le : (n : ℕ) (visited : List ℕ) → unvisited n visited ≤ n
unfolding unvisited
unvisited-le zero visited = omega arith
unvisited-le (suc n) visited = ground (arith, unvisited-le n visited)

unvisited_shrinks :
    (n c : ℕ) (visited : List ℕ)
    → (unvisited n (c ∷ visited) ≤ unvisited n visited)
      × (contains c visited ≡ false → c < n → unvisited n (c ∷ visited) < unvisited n visited)
unfolding unvisited contains
unvisited_shrinks zero c visited = (omega arith, λ _ h. absurd (omega (arith, h)))
unvisited_shrinks (suc n) c visited =
    let (weak, strict) = unvisited_shrinks n c visited in
    (
      ground (arith, weak),
      λ fresh h. elim (Bool-cases (n == c)) [
        | inl t ↦ ground (arith, weak, fresh, t)
        | inr f ↦ ground (arith, strict, fresh, f, h)
      ],
    )

count_from-total :
    (fuel : ℕ) (bytes : List ℕ) (max_pages : ℕ) (visited : List ℕ) (total current : ℕ)
    → unvisited max_pages visited < fuel
    → (n : ℕ) × (count_from fuel bytes max_pages visited total current ≡ some n)
unfolding count_from
count_from-total zero bytes max_pages visited total current h = absurd (omega arith)
count_from-total (suc fuel) bytes max_pages visited total current h =
    elim (Bool-cases (ltb current max_pages && not (current == 0xFFFF_FFFF))) [
      | inr stop ↦ (total, rw (stop, count_from) refl)
      | inl go ↦ elim (Bool-cases (contains current visited)) [
        | inl again ↦ (total, rw (go, again, count_from) refl)
        | inr fresh ↦
            let inside : current < max_pages = ground (arith, go) in
            let smaller = (unvisited_shrinks max_pages current visited).1 fresh inside in
            let (n, e) =
              count_from-total fuel bytes max_pages (current ∷ visited)
                (u32 (total + num_rows (page_at bytes current))) (u32_at (page_at bytes current) 12)
                (omega (arith, smaller, h)) in
            (n, rw (go, fresh, count_from) e)
      ]
    ]

-- Whatever the bytes are, the pages of a table are counted within one step for each page of the
-- file and one more, also where the links of the pages form a circle.
pub count_table_rows-total :
    (bytes : List ℕ) (first_page max_pages : ℕ)
    → (n : ℕ) × (count_table_rows bytes first_page max_pages ≡ some n)
unfolding count_table_rows
count_table_rows-total bytes first_page max_pages =
    count_from-total (suc max_pages) bytes max_pages [] 0 first_page
      (omega (arith, unvisited-le max_pages []))

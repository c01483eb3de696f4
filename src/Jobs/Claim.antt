-- ===== src/Jobs/Claim.antt =====
-- What a claim serves.
use mathlib.Core.Option
use bvault_app.Prelude.{
  ℕ, ◌≤◌, Bool, true, false, ◌≡◌, refl, ap, subst₂, ◌∙◌, ◌≢◌, inl, inr, Option, some, none, All,
  arith, Option-cases,
}
use bvault_app.Jobs.{
  Job, JobKind, Table, ok, find_first, update_where, has_id, get, oldest, claimable, rival, leased,
  claim,
}
use bvault_app.Jobs.Rows.{
  Distinct, updated, find_first-In, find_first_id, find_first-update_where, oldest-none, IsOldest,
  oldest-IsOldest,
}

-- What a claim that returns a job has done: the job is the row `row`, one of the table's, with the
-- lease written in; no row that could be claimed is older; the job is what the table now holds
-- under its id, and under every other id it holds what it held.
pub record Served (skipped : ℕ → Bool) (kind : JobKind) (lease now : ℕ) (t t' : Table) (j : Job)
    : Type 0 where
  pub row : Job
  pub found : get j.id t ≡ some row
  pub could : claimable skipped kind now row ≡ true
  pub first : All (λ x. claimable skipped kind now x ≡ true → row.created_at ≤ x.created_at) t.rows
  pub is_leased : j ≡ leased lease now row
  pub held : get j.id t' ≡ some j
  pub others : (id : ℕ) → id ≢ j.id → get id t' ≡ get id t

module _ (lease now : ℕ) (r : Job) (t : Table) where
  abbrev with_lease : Table
  with_lease = record t { rows = update_where (has_id r.id) (leased lease now) t.rows }

  get-with_lease :
      (id : ℕ)
      → get id with_lease ≡ Option.map (updated (has_id r.id) (leased lease now)) (get id t)
  unfolding get leased
  get-with_lease id = find_first-update_where (has_id id) (has_id r.id) _ t.rows (λ x. ground arith)

  with_lease-Served :
      (skipped : ℕ → Bool) (kind : JobKind)
      → Distinct t.rows
      → IsOldest (claimable skipped kind now) t.rows r
      → Served skipped kind lease now t with_lease (leased lease now r)
  unfolding leased
  with_lease-Served skipped kind d o =
      let here : get r.id t ≡ some r = (unfold get in find_first_id r t.rows d o.present) in
      record {
        row = r;
        found = here;
        could = o.passes;
        first = o.first;
        is_leased = refl;
        held =
            get-with_lease r.id
            ∙ ap (Option.map (updated (has_id r.id) (leased lease now))) here
            ∙ ground arith;
        others = λ id ne. get-with_lease id ∙ untouched id ne (get id t) refl;
      }
    where
      untouched :
          (id : ℕ)
          → id ≢ r.id
          → (o : Option Job) → get id t ≡ o
          → Option.map (updated (has_id r.id) (leased lease now)) o ≡ o
      untouched id ne none e = refl
      untouched id ne (some x) e =
          let (i, h) = find_first-In (has_id id) t.rows x (unfold get in e) in ground arith

-- A claim that returns a job has leased the oldest job that it could, and changed nothing else.
pub claim-Served :
    (skipped : ℕ → Bool) (kind : JobKind) (lease now : ℕ) (t t' : Table) (j : Job)
    → Distinct t.rows
    → claim skipped kind lease now t ≡ ok (t', some j)
    → Served skipped kind lease now t t' j
unfolding claim
claim-Served skipped kind lease now t t' j d e =
    elim (Option-cases (oldest (claimable skipped kind now) t.rows)) [
      | inl n ↦ absurd (ground arith)
      | inr (r, o) ↦ elim (Option-cases (find_first (rival r) t.rows)) [
        | inl free ↦
            subst₂ (λ u k. Served skipped kind lease now t u k) (ground arith) (ground arith)
              (with_lease-Served lease now r t skipped kind d (oldest-IsOldest _ t.rows r o))
        | inr (s, taken) ↦ absurd (ground arith)
      ]
    ]

-- A claim comes back empty exactly when no row can be claimed, and then leaves the table alone.
pub claim-none :
    (skipped : ℕ → Bool) (kind : JobKind) (lease now : ℕ) (t t' : Table)
    → claim skipped kind lease now t ≡ ok (t', none)
    → (t' ≡ t) × All (λ x. claimable skipped kind now x ≡ false) t.rows
unfolding claim
claim-none skipped kind lease now t t' e =
    elim (Option-cases (oldest (claimable skipped kind now) t.rows)) [
      | inl n ↦ (ground arith, oldest-none _ t.rows n)
      | inr (r, o) ↦ elim (Option-cases (find_first (rival r) t.rows)) [
        | inl free ↦ absurd (ground arith)
        | inr (s, taken) ↦ absurd (ground arith)
      ]
    ]

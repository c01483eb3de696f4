-- ===== src/Jobs/History.antt =====
-- The table after any run of statements.
use Prim.Native.String.{String}
use text.Mathlib.TextEquality.{eq_iff}
use bvault_app.Prelude.{
  ℕ, suc, ◌<◌, Bool, true, false, ◌≡◌, refl, ap, sym, subst, ◌∙◌, ◌≢◌, ◌↔◌, inl, inr, Option, none,
  List, [], ◌∷◌, ◌++◌, All, All-append, All-map, All-zip, arith, Bool-cases, Option-cases,
}
use bvault_app.Jobs.{
  Job, JobKind, Table, DbResult, ok, unique_violation, is_active, same_kind, of_key, active_of,
  find_first, update_where, has_id, new_row, enqueue, oldest, claimable, rival, leased, claim,
  heartbeat, complete, mark_dead, fail,
}
use bvault_app.Jobs.Rows.{
  In, Distinct, updated, All-In, All-update_where, Pairs-update_where, Pairs-zip, Pairs-append,
  find_first-none, oldest-IsOldest,
}
use bvault_app.Jobs.Consistency.{
  NoClash, HasLease, IsConsistent, calm-IsConsistent, heartbeat-IsConsistent, complete-IsConsistent,
  mark_dead-IsConsistent, fail-IsConsistent,
}

pub same_kind_iff : (a b : JobKind) → (same_kind a b ≡ true) ↔ (a ≡ b)
same_kind_iff a b = ground arith

-- The test of kind and key is equality of both.
pub of_key_iff :
    (kind : JobKind) (key : String) (x : Job)
    → (of_key kind key x ≡ true) ↔ ((kind ≡ x.kind) × (key ≡ x.dedup_key))
unfolding of_key
of_key_iff kind key x = ground (arith, same_kind_iff kind x.kind, eq_iff key x.dedup_key)

inactive_apart :
    (kind : JobKind) (key : String) (x : Job)
    → active_of kind key x ≡ false
    → is_active x.status ≡ true
    → kind ≡ x.kind
    → key ≡ x.dedup_key
    → ⊥
unfolding active_of
inactive_apart kind key x h a k d = ground (arith, (of_key_iff kind key x).1 (k, d))

-- A new row clashes with none where no active row has its kind and key.
pub enqueue-IsConsistent :
    (kind : JobKind) (key payload : String) (max_attempts : ℕ) (traceparent : Option String)
    (now : ℕ) (t : Table)
    → IsConsistent t
    → IsConsistent (enqueue kind key payload max_attempts traceparent now t).0
unfolding enqueue
enqueue-IsConsistent kind key payload max_attempts traceparent now t v =
    elim (Option-cases (find_first (active_of kind key) t.rows)) [
      | inl e ↦ rw (e, enqueue) (inserted e)
      | inr (r, e) ↦
          rw (e, enqueue)
            (record {
              fresh = All-map _ _ _ (λ x h. omega arith) (touched r).fresh;
              distinct = (touched r).distinct;
              unique = (touched r).unique;
              leases = (touched r).leases;
            })
    ]
  where
    n : Job
    n = new_row kind key payload max_attempts traceparent now t.next_id

    touched :
        (r : Job)
        → IsConsistent (record t {
          rows = update_where (has_id r.id) (λ x. record x { updated_at = now }) t.rows;
        })
    touched r =
        calm-IsConsistent _ _
          (record {
            same_id = λ x. refl;
            kinds = λ x. refl;
            keys = λ x. refl;
            calm = λ x _ a. a;
            leased_well = λ x h l. l;
          })
          t v

    inserted :
        find_first (active_of kind key) t.rows ≡ none
        → IsConsistent (record { rows = t.rows ++ n ∷ []; next_id = suc t.next_id })
    inserted e = record {
      fresh =
          All-append (λ r. r.id < suc t.next_id) t.rows (n ∷ [])
            (All-map _ _ _ (λ x h. omega arith) v.fresh) (omega arith, tt);
      distinct =
          Pairs-append (λ x y. y.id ≢ x.id) t.rows n v.distinct
            (All-map _ _ _ (λ x h e'. ground arith) v.fresh);
      unique = Pairs-append NoClash t.rows n v.unique (
          All-map _ _ _ (λ x h a _ k d. inactive_apart kind key x h a (sym k) (sym d))
            (find_first-none _ _ e));
      leases = All-append HasLease t.rows (n ∷ []) v.leases (refl, tt);
    }

module _ (r : Job) (lease now : ℕ) where
  -- What a claim knows of each row: it is the picked one if it has its id, and no rival of it.
  abbrev Known : Job → Type 0
  Known x = (x.id ≡ r.id → x ≡ r) × (rival r x ≡ false)

  no_rival_apart :
      (x : Job)
      → rival r x ≡ false
      → x.id ≢ r.id
      → is_active x.status ≡ true
      → r.kind ≡ x.kind
      → r.dedup_key ≡ x.dedup_key
      → ⊥
  unfolding rival
  no_rival_apart x h other a k d = inactive_apart r.kind r.dedup_key x (ground arith) a k d

  leased_pair :
      (x y : Job)
      → Known x
      → Known y
      → (y.id ≢ x.id) × NoClash x y
      → NoClash
          (updated (has_id r.id) (leased lease now) x)
          (updated (has_id r.id) (leased lease now) y)
  unfolding leased
  leased_pair x y kx ky (apart, n) = elim (Bool-cases (has_id r.id x)) [
    | inl ex ↦ elim (Bool-cases (has_id r.id y)) [
      | inl ey ↦ absurd (apart (ground arith))
      | inr ny ↦
          rw (ex, ny)
            (λ _ a k d.
              no_rival_apart y ky.1 (ground arith) a
                (ap (λ (j : Job). j.kind) (sym (kx.0 (ground arith))) ∙ k)
                (ap (λ (j : Job). j.dedup_key) (sym (kx.0 (ground arith))) ∙ d))
    ]
    | inr nx ↦ elim (Bool-cases (has_id r.id y)) [
      | inl ey ↦
          rw (nx, ey)
            (λ a _ k d.
              no_rival_apart x kx.1 (ground arith) a
                (ap (λ (j : Job). j.kind) (sym (ky.0 (ground arith))) ∙ sym k)
                (ap (λ (j : Job). j.dedup_key) (sym (ky.0 (ground arith))) ∙ sym d))
      | inr ny ↦ rw (nx, ny) n
    ]
  ]

  pub only_row : (rs : List Job) → Distinct rs → In r rs → All (λ x. x.id ≡ r.id → x ≡ r) rs
  only_row [] d i = tt
  only_row (x ∷ rs) d (inl e) =
      (λ _. e, All-map _ _ rs (λ y h e'. absurd (h (e' ∙ ap (λ (j : Job). j.id) (sym e)))) d.0)
  only_row (x ∷ rs) d (inr i) =
      (λ e. absurd (All-In (λ y. y.id ≢ x.id) rs d.0 i (sym e)), only_row rs d.1 i)

  leased-IsConsistent :
      (t : Table)
      → IsConsistent t
      → In r t.rows
      → find_first (rival r) t.rows ≡ none
      → IsConsistent (record t { rows = update_where (has_id r.id) (leased lease now) t.rows })
  unfolding leased
  leased-IsConsistent t v i e = record {
    fresh =
        All-update_where _ _ (λ x. x.id < t.next_id) (λ x. x.id < t.next_id) t.rows
          (λ x h. ground arith) v.fresh;
    distinct =
        Pairs-update_where _ _ (λ x. x.id < t.next_id) (λ x y. y.id ≢ x.id) (λ x y. y.id ≢ x.id)
          t.rows (λ x y _ _ h. ground arith) v.fresh v.distinct;
    unique =
        Pairs-update_where _ _ Known (λ x y. (y.id ≢ x.id) × NoClash x y) NoClash t.rows leased_pair
          (All-zip _ _ t.rows (only_row t.rows v.distinct i) (find_first-none (rival r) t.rows e))
          (Pairs-zip _ _ t.rows v.distinct v.unique);
    leases = All-update_where _ _ HasLease HasLease t.rows (λ x h. ground arith) v.leases;
  }

pub claim-IsConsistent :
    (skipped : ℕ → Bool) (kind : JobKind) (lease now : ℕ) (t t' : Table) (j : Option Job)
    → IsConsistent t
    → claim skipped kind lease now t ≡ ok (t', j)
    → IsConsistent t'
unfolding claim
claim-IsConsistent skipped kind lease now t t' j v e =
    elim (Option-cases (oldest (claimable skipped kind now) t.rows)) [
      | inl n ↦ subst IsConsistent (ground arith) v
      | inr (r, o) ↦ elim (Option-cases (find_first (rival r) t.rows)) [
        | inl free ↦
            subst IsConsistent (ground arith)
              (leased-IsConsistent r lease now t v (oldest-IsOldest _ t.rows r o).present free)
        | inr (s, taken) ↦ absurd (ground arith)
      ]
    ]

-- A statement of the queue; a claim comes with the rows that other transactions have locked.
pub data Statement : Type 0 where
  enqueues : JobKind → String → String → ℕ → Option String → Statement
  claims : (ℕ → Bool) → JobKind → ℕ → Statement
  heartbeats : ℕ → ℕ → Statement
  completes : ℕ → Statement
  marks_dead fails : ℕ → String → Statement

-- A statement that the database refuses leaves the table as it was.
abbrev pub after : Table → DbResult (Table × Option Job) → Table
after t (ok (t', j)) = t'
after t unique_violation = t

unfoldable pub execute : ℕ → Statement → Table → Table
execute now (enqueues kind key payload max_attempts tp) t =
    (enqueue kind key payload max_attempts tp now t).0
execute now (claims skipped kind lease) t = after t (claim skipped kind lease now t)
execute now (heartbeats id lease) t = heartbeat id lease now t
execute now (completes id) t = complete id now t
execute now (marks_dead id error) t = mark_dead id error now t
execute now (fails id error) t = fail id error now t

unfoldable pub execute_all : List (ℕ × Statement) → Table → Table
execute_all [] t = t
execute_all ((now, s) ∷ ss) t = execute_all ss (execute now s t)

execute-IsConsistent :
    (now : ℕ) (s : Statement) (t : Table) → IsConsistent t → IsConsistent (execute now s t)
unfolding execute
execute-IsConsistent now (enqueues kind key payload max_attempts tp) t v =
    enqueue-IsConsistent kind key payload max_attempts tp now t v
execute-IsConsistent now (claims skipped kind lease) t v =
    claimed (claim skipped kind lease now t) refl
  where
    claimed :
        (r : DbResult (Table × Option Job))
        → claim skipped kind lease now t ≡ r
        → IsConsistent (after t r)
    claimed (ok (t', j)) e = claim-IsConsistent skipped kind lease now t t' j v e
    claimed unique_violation e = v
execute-IsConsistent now (heartbeats id lease) t v = heartbeat-IsConsistent id lease now t v
execute-IsConsistent now (completes id) t v = complete-IsConsistent id now t v
execute-IsConsistent now (marks_dead id error) t v = mark_dead-IsConsistent id error now t v
execute-IsConsistent now (fails id error) t v = fail-IsConsistent id error now t v

-- Whatever statements run, in whatever order and at whatever times, from a table that is
-- consistent, ids stay distinct and below the next one, no kind and key gets two active rows, and a
-- row has a lease exactly while it is running.
pub execute_all-IsConsistent :
    (ss : List (ℕ × Statement)) (t : Table) → IsConsistent t → IsConsistent (execute_all ss t)
unfolding execute_all
execute_all-IsConsistent [] t v = v
execute_all-IsConsistent ((now, s) ∷ ss) t v =
    execute_all-IsConsistent ss (execute now s t) (execute-IsConsistent now s t v)

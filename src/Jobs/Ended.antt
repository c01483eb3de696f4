-- ===== src/Jobs/Ended.antt =====
-- queue.rs: what the end of a job sets, and that it touches no other row.
use Prim.Native.String.{String}
use bvault_app.Prelude.{
  ℕ, ◌≡◌, ◌≢◌, refl, ap, inl, inr, arith, true, false, some, none, List, [], ◌∷◌, Bool-cases, ◌==◌,
  if◌then◌else◌,
}
use bvault_app.Jobs.{
  Job, succeeded, dead, Table, find_first, update_where, has_id, get, complete, mark_dead, fail,
  failed_row,
}

-- The row as `complete` leaves it, and as `mark_dead` does.
abbrev pub completed_row : ℕ → Job → Job
completed_row now r = record r {
  status = succeeded;
  locked_until = none;
  finished_at = some now;
  updated_at = now;
}

abbrev pub dead_row : String → ℕ → Job → Job
dead_row error now r = record r {
  status = dead;
  last_error = some error;
  locked_until = none;
  finished_at = some now;
  updated_at = now;
}

-- One row has become `f` of what it was, and every other is as it was.
pub record IsChanged (job_id : ℕ) (f : Job → Job) (t t' : Table) : Type 0 where
  pub same : (j : Job) → get job_id t ≡ some j → get job_id t' ≡ some (f j)
  pub others : (i : ℕ) → i ≢ job_id → get i t' ≡ get i t

changed :
    (job_id : ℕ) (f : Job → Job) (rs : List Job) (j : Job)
    → ((j : Job) → (f j).id ≡ j.id)
    → find_first (has_id job_id) rs ≡ some j
    → find_first (has_id job_id) (update_where (has_id job_id) f rs) ≡ some (f j)
unfolding find_first update_where
changed job_id f [] j h e = absurd (cc)
changed job_id f (r ∷ rs) j h e = elim (Bool-cases (r.id == job_id)) [
  | inl here ↦
      let found : some r ≡ some j = rw (here) at e in
      let equal : r ≡ j = cc in
      let still : ((f r).id == job_id) ≡ true = ground (arith, h r) in
      rw (here, still) (ap (λ r. some (f r)) equal)
  | inr later ↦
      let rest : find_first (has_id job_id) rs ≡ some j = rw (later) at e in
      rw (later, later) (changed job_id f rs j h rest)
]

kept :
    (job_id : ℕ) (f : Job → Job) (rs : List Job) (i : ℕ)
    → i ≢ job_id
    → ((j : Job) → (f j).id ≡ j.id)
    → find_first (has_id i) (update_where (has_id job_id) f rs) ≡ find_first (has_id i) rs
unfolding find_first update_where
kept job_id f [] i apart h = refl
kept job_id f (r ∷ rs) i apart h = elim (Bool-cases (r.id == job_id)) [
  | inl hit ↦
      let other : (r.id == i) ≡ false = ground arith in
      rw (hit, h r, other) (kept job_id f rs i apart h)
  | inr miss ↦ rw miss (ap (λ o. if r.id == i then some r else o) (kept job_id f rs i apart h))
]

update-IsChanged :
    (job_id : ℕ) (f : Job → Job) (t : Table)
    → ((j : Job) → (f j).id ≡ j.id)
    → IsChanged job_id f t (record t { rows = update_where (has_id job_id) f t.rows })
unfolding get
update-IsChanged job_id f t h = record {
  same = λ j e. changed job_id f t.rows j h e;
  others = λ i apart. kept job_id f t.rows i apart h;
}

pub complete-IsChanged :
    (job_id now : ℕ) (t : Table) → IsChanged job_id (completed_row now) t (complete job_id now t)
unfolding complete
complete-IsChanged job_id now t = update-IsChanged job_id (completed_row now) t (λ j. refl)

pub mark_dead-IsChanged :
    (job_id : ℕ) (error : String) (now : ℕ) (t : Table)
    → IsChanged job_id (dead_row error now) t (mark_dead job_id error now t)
unfolding mark_dead
mark_dead-IsChanged job_id error now t = update-IsChanged job_id (dead_row error now) t (λ j. refl)

pub fail-IsChanged :
    (job_id : ℕ) (error : String) (now : ℕ) (t : Table)
    → IsChanged job_id (failed_row error now) t (fail job_id error now t)
unfolding fail
fail-IsChanged job_id error now t =
    update-IsChanged job_id (failed_row error now) t (unfold failed_row in λ j. refl)

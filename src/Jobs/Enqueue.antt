-- ===== src/Jobs/Enqueue.antt =====
-- Submitting a job again, and what a failure does to a job that was served.
use Prim.Native.String.{String}
use mathlib.Core.Option
use bvault_app.Prelude.{
  ℕ, suc, ◌+◌, Bool, true, ◌≡◌, refl, ap, sym, subst, ◌∙◌, inl, inr, Option, some, none, List, [],
  ◌∷◌, arith, Option-cases, length, leb, if◌then◌else◌,
}
use bvault_app.Jobs.{
  Job, JobKind, failed, dead, Table, ok, active_of, of_key, find_first, update_where, has_id, get,
  new_row, enqueue, claim, leased, fail, failed_row,
}
use bvault_app.Jobs.Rows.{Distinct, updated, find_first-append, find_first-update_where}
use bvault_app.Jobs.History.{of_key_iff}
use bvault_app.Jobs.Claim.{claim-Served}

length-update_where :
    (q : Job → Bool) (f : Job → Job) (rs : List Job) → length (update_where q f rs) ≡ length rs
unfolding update_where
length-update_where q f [] = refl
length-update_where q f (x ∷ rs) = ap suc (length-update_where q f rs)

module _ (kind : JobKind) (key : String) where
  new_row_active :
      (payload : String) (max_attempts : ℕ) (tp : Option String) (now id : ℕ)
      → active_of kind key (new_row kind key payload max_attempts tp now id) ≡ true
  unfolding active_of new_row
  new_row_active payload max_attempts tp now id =
      (of_key_iff kind key (new_row kind key payload max_attempts tp now id)).1 (refl, refl)

  pub touch_active :
      (q : Job → Bool) (now : ℕ) (x : Job)
      → active_of kind key (updated q (λ y. record y { updated_at = now }) x) ≡ active_of kind key x
  unfolding active_of of_key
  touch_active q now x = ground arith

  -- What an enqueue leaves behind is found by the next: an active row, under the id returned.
  pub enqueue_leaves :
      (payload : String) (max_attempts : ℕ) (tp : Option String) (now : ℕ) (t : Table)
      → (r : Job) × (find_first
            (active_of kind key)
            (enqueue kind key payload max_attempts tp now t).0.rows
          ≡ some r)
        × (r.id ≡ (enqueue kind key payload max_attempts tp now t).1)
  unfolding enqueue
  enqueue_leaves payload max_attempts tp now t =
      elim (Option-cases (find_first (active_of kind key) t.rows)) [
        | inl e ↦
            rw (e, enqueue)
              (
                new_row kind key payload max_attempts tp now t.next_id,
                find_first-append (active_of kind key) t.rows _ e
                    (new_row_active payload max_attempts tp now t.next_id),
                refl,
              )
        | inr (r, e) ↦
            rw (e, enqueue)
              (
                updated (has_id r.id) (λ y. record y { updated_at = now }) r,
                find_first-update_where (active_of kind key) (has_id r.id)
                      (λ y. record y { updated_at = now }) t.rows (touch_active (has_id r.id) now)
                    ∙ ap (Option.map (updated (has_id r.id) (λ y. record y { updated_at = now })))
                        e,
                ground arith,
              )
      ]

  enqueue_finds :
      (payload : String) (max_attempts : ℕ) (tp : Option String) (now : ℕ) (t : Table) (r : Job)
      → find_first (active_of kind key) t.rows ≡ some r
      → ((enqueue kind key payload max_attempts tp now t).1 ≡ r.id)
        × (length (enqueue kind key payload max_attempts tp now t).0.rows ≡ length t.rows)
  unfolding enqueue
  enqueue_finds payload max_attempts tp now t r e =
      rw (e, enqueue)
        (refl, length-update_where (has_id r.id) (λ y. record y { updated_at = now }) t.rows)

  -- Submitting a kind and key again returns the id of the first submission and adds no row,
  -- whatever the payloads, the limits and the times of the two are.
  pub enqueue_again :
      (payload payload' : String) (max_attempts max_attempts' : ℕ) (tp tp' : Option String)
      (now later : ℕ) (t : Table)
      → let first = enqueue kind key payload max_attempts tp now t in
        let second = enqueue kind key payload' max_attempts' tp' later first.0 in
        (second.1 ≡ first.1) × (length second.0.rows ≡ length first.0.rows)
  enqueue_again payload payload' max_attempts max_attempts' tp tp' now later t =
      let (r, found, id) = enqueue_leaves payload max_attempts tp now t in
      let (same, size) = enqueue_finds payload' max_attempts' tp' later _ r found in
      (same ∙ id, size)

get-fail :
    (job_id : ℕ) (error : String) (now : ℕ) (t : Table)
    → get job_id (fail job_id error now t)
      ≡ Option.map (updated (has_id job_id) (failed_row error now)) (get job_id t)
unfolding get fail failed_row
get-fail job_id error now t =
    find_first-update_where (has_id job_id) (has_id job_id) (failed_row error now) t.rows
      (λ x. ground arith)

-- The number of times that a job has been served, and whether it may be served again.
abbrev pub Settled : Job → Job → Type 0
Settled before after =
    (after.attempts ≡ before.attempts + 1)
    × (after.max_attempts ≡ before.max_attempts)
    × (after.locked_until ≡ none)
    × (after.status ≡ (if leb before.max_attempts (before.attempts + 1) then dead else failed))

-- A job that is served and then fails has used one more attempt and holds no lease; it is dead if
-- that was the last attempt it has, and failed, to be served again, if not.
pub fail-claim :
    (skipped : ℕ → Bool) (kind : JobKind) (lease now later : ℕ) (t t' : Table) (j : Job)
    (error : String)
    → Distinct t.rows
    → claim skipped kind lease now t ≡ ok (t', some j)
    → (before : Job) × (after : Job) × (get j.id t ≡ some before)
      × (get j.id (fail j.id error later t') ≡ some after)
      × Settled before after
unfolding leased failed_row
fail-claim skipped kind lease now later t t' j error d e =
    let s = claim-Served skipped kind lease now t t' j d e in
    (
      s.row,
      failed_row error later j,
      s.found,
      get-fail j.id error later t'
          ∙ ap (Option.map (updated (has_id j.id) (failed_row error later))) s.held
          ∙ ground arith,
      subst (λ k. Settled s.row (failed_row error later k)) (sym s.is_leased)
          (refl, refl, refl, refl),
    )

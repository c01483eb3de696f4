-- ===== src/Jobs/Active.antt =====
-- queue.rs: a job that is submitted is waiting or running, and those that were still are.
use Prim.Native.String.{String}
use mathlib.Core.Option
use bvault_app.Prelude.{
  ℕ, ◌≡◌, ap, ◌∙◌, inl, inr, Option, some, List, [], ◌∷◌, ◌++◌, Bool, Option-cases, Bool-cases,
}
use bvault_app.Jobs.{Job, JobKind, Table, active_of, find_first, has_id, enqueue}
use bvault_app.Jobs.Rows.{updated, find_first-update_where}
use bvault_app.Jobs.Enqueue.{touch_active, enqueue_leaves}

-- The table has a pending or running job of the kind and key.
abbrev pub IsActive : JobKind → String → Table → Type 0
IsActive kind key t = (r : Job) × (find_first (active_of kind key) t.rows ≡ some r)

find_first-append_found :
    (p : Job → Bool) (rs : List Job) (x r : Job)
    → find_first p rs ≡ some r
    → find_first p (rs ++ x ∷ []) ≡ some r
unfolding find_first
find_first-append_found p [] x r e = absurd (cc)
find_first-append_found p (y ∷ rs) x r e = elim (Bool-cases (p y)) [
  | inl here ↦ let same : some y ≡ some r = rw (here) at e in rw here same
  | inr later ↦
      let rest : find_first p rs ≡ some r = rw (later) at e in
      rw later (find_first-append_found p rs x r rest)
]

module _ (kind : JobKind) (key payload : String) (max_attempts : ℕ) (tp : Option String) (now : ℕ)
    (t : Table) where
  pub enqueue-IsActive : IsActive kind key (enqueue kind key payload max_attempts tp now t).0
  enqueue-IsActive =
      let (r, found, _) = enqueue_leaves kind key payload max_attempts tp now t in (r, found)

  pub enqueue-keeps-IsActive :
      (kind' : JobKind) (key' : String)
      → IsActive kind' key' t
      → IsActive kind' key' (enqueue kind key payload max_attempts tp now t).0
  unfolding enqueue
  enqueue-keeps-IsActive kind' key' (r, there) =
      elim (Option-cases (find_first (active_of kind key) t.rows)) [
        | inl free ↦
            rw (free, enqueue) (r, find_first-append_found (active_of kind' key') t.rows _ r there)
        | inr (s, found) ↦
            rw (found, enqueue)
              (
                updated (has_id s.id) (λ y. record y { updated_at = now }) r,
                find_first-update_where (active_of kind' key') (has_id s.id)
                      (λ y. record y { updated_at = now }) t.rows
                      (touch_active kind' key' (has_id s.id) now)
                    ∙ ap (Option.map (updated (has_id s.id) (λ y. record y { updated_at = now })))
                        there,
              )
      ]

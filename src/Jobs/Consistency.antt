-- ===== src/Jobs/Consistency.antt =====
-- What every statement keeps: ids are distinct, a kind and key has at most one active row, and a
-- row has a lease exactly while it is running.
use Prim.Native.String.{String}
use bvault_app.Prelude.{
  ℕ, ◌<◌, Bool, true, false, ◌≡◌, refl, ◌≢◌, Option, some, none, [], All, arith,
}
use bvault_app.Jobs.{
  Job, running, Table, is_active, same_status, update_where, heartbeat, complete, mark_dead,
  failed_row, fail,
}
use bvault_app.Jobs.Rows.{Pairs, Distinct, updated, All-update_where, Pairs-update_where}

-- Not both active with one kind and key.
abbrev pub NoClash : Job → Job → Type 0
NoClash x y =
    is_active x.status ≡ true
    → is_active y.status ≡ true
    → x.kind ≡ y.kind
    → x.dedup_key ≡ y.dedup_key
    → ⊥

abbrev pub is_some : Option ℕ → Bool
is_some none = false
is_some (some n) = true

-- A row has a lease exactly while it is running.
abbrev pub HasLease : Job → Type 0
HasLease r = is_some r.locked_until ≡ same_status r.status running

pub record IsConsistent (t : Table) : Type 0 where
  pub fresh : All (λ r. r.id < t.next_id) t.rows
  pub distinct : Distinct t.rows
  pub unique : Pairs NoClash t.rows
  pub leases : All HasLease t.rows

abbrev pub no_jobs : Table
no_jobs = record { rows = []; next_id = 1 }

-- An update that keeps id, kind and key, activates nothing, and keeps leases right.
pub record IsCalm (q : Job → Bool) (f : Job → Job) : Type 0 where
  pub same_id : (x : Job) → (f x).id ≡ x.id
  pub kinds : (x : Job) → (f x).kind ≡ x.kind
  pub keys : (x : Job) → (f x).dedup_key ≡ x.dedup_key
  pub calm : (x : Job) → q x ≡ true → is_active (f x).status ≡ true → is_active x.status ≡ true
  pub leased_well : (x : Job) → q x ≡ true → HasLease x → HasLease (f x)

module _ (q : Job → Bool) (f : Job → Job) (c : IsCalm q f) where
  calm_pair : (x y : Job) → NoClash x y → NoClash (updated q f x) (updated q f y)
  calm_pair x y n = ground (arith, c.kinds x, c.kinds y, c.keys x, c.keys y, c.calm x, c.calm y)

  pub calm-IsConsistent :
      (t : Table) → IsConsistent t → IsConsistent (record t { rows = update_where q f t.rows })
  calm-IsConsistent t v = record {
    fresh =
        All-update_where q f (λ r. r.id < t.next_id) (λ r. r.id < t.next_id) t.rows
          (λ x h. ground (arith, c.same_id x)) v.fresh;
    distinct =
        Pairs-update_where q f (λ r. r.id < t.next_id) (λ x y. y.id ≢ x.id) (λ x y. y.id ≢ x.id)
          t.rows (λ x y _ _ h. ground (arith, c.same_id x, c.same_id y)) v.fresh v.distinct;
    unique =
        Pairs-update_where q f (λ r. r.id < t.next_id) NoClash NoClash t.rows
          (λ x y _ _ n. calm_pair x y n) v.fresh v.unique;
    leases =
        All-update_where q f HasLease HasLease t.rows (λ x h. ground (arith, c.leased_well x))
          v.leases;
  }

pub heartbeat-IsConsistent :
    (job_id lease now : ℕ) (t : Table)
    → IsConsistent t
    → IsConsistent (heartbeat job_id lease now t)
unfolding heartbeat
heartbeat-IsConsistent job_id lease now t v =
    calm-IsConsistent _ _
      (record {
        same_id = λ x. refl;
        kinds = λ x. refl;
        keys = λ x. refl;
        calm = λ x _ a. a;
        leased_well = λ x h l. ground arith;
      })
      t v

pub complete-IsConsistent :
    (job_id now : ℕ) (t : Table) → IsConsistent t → IsConsistent (complete job_id now t)
unfolding complete
complete-IsConsistent job_id now t v =
    calm-IsConsistent _ _
      (record {
        same_id = λ x. refl;
        kinds = λ x. refl;
        keys = λ x. refl;
        calm = λ x _ a. cc;
        leased_well = λ x h l. refl;
      })
      t v

pub mark_dead-IsConsistent :
    (job_id : ℕ) (error : String) (now : ℕ) (t : Table)
    → IsConsistent t
    → IsConsistent (mark_dead job_id error now t)
unfolding mark_dead
mark_dead-IsConsistent job_id error now t v =
    calm-IsConsistent _ _
      (record {
        same_id = λ x. refl;
        kinds = λ x. refl;
        keys = λ x. refl;
        calm = λ x _ a. cc;
        leased_well = λ x h l. refl;
      })
      t v

pub fail-IsConsistent :
    (job_id : ℕ) (error : String) (now : ℕ) (t : Table)
    → IsConsistent t
    → IsConsistent (fail job_id error now t)
unfolding fail failed_row
fail-IsConsistent job_id error now t v =
    calm-IsConsistent _ _
      (record {
        same_id = λ x. refl;
        kinds = λ x. refl;
        keys = λ x. refl;
        calm = λ x _ a. ground arith;
        leased_well = λ x h l. ground arith;
      })
      t v

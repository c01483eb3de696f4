-- ===== src/Store/Retry.antt =====
-- artifact.rs: a `put` with enough calls, and one after another.
use bvault_app.Prelude.{
  ℕ, ◌+◌, ◌-◌, ◌*◌, ◌≤◌, ◌≡◌, refl, sym, subst, inl, inr, arith, true, false, Option, some, List,
  [], ◌∷◌, length, All, Bool-cases, ◌==◌,
}
use bvault_app.Text.{Text}
use bvault_app.Store.{
  join, bundle_dir, Disk, exists, write_file, sync_all, Run, write_files, write_marker, put,
}
use bvault_app.Store.Atomic.{IsStored, AreDistinct, NotMarker, put-IsStored}

-- Three calls for each file are enough for the loop.
write_files-enough :
    (dir : Text) (files : List (Text × List ℕ)) (run : Run) (d : Disk)
    → 3 * length files ≤ run.calls
    → (left : Run) × ((write_files dir files run d).1 ≡ some left)
      × (left.calls ≡ run.calls - 3 * length files)
unfolding write_files
write_files-enough dir [] run d h = (run, refl, omega arith)
write_files-enough dir ((name, bytes) ∷ files) run d h =
    let path = join dir name in
    let less = record run { calls = run.calls - 3 } in
    let (left, whole, count) =
      write_files-enough dir files less (sync_all path bytes (write_file path bytes d))
        (omega arith) in
    let a : (run.calls == 0) ≡ false = ground arith in
    let b : (run.calls == 1) ≡ false = ground arith in
    let c : (run.calls == 2) ≡ false = ground arith in (left, rw (a, b, c) whole, omega arith)

put-done :
    (root hash : Text) (files : List (Text × List ℕ)) (run : Run) (d : Disk)
    → 3 * length files + 3 ≤ run.calls
    → (put root hash files run d).1 ≡ true
unfolding put
put-done root hash files run d enough =
    let dir = bundle_dir root hash in
    let less = record run { calls = run.calls - 1 } in
    let (left, whole, count) = write_files-enough dir files less d (omega arith) in
    let a : (run.calls == 0) ≡ false = ground arith in
    let b : (left.calls == 0) ≡ false = ground arith in
    let c : (left.calls == 1) ≡ false = ground arith in
    elim (Bool-cases (exists root hash d)) [
      | inl there ↦ rw there refl
      | inr absent ↦ rw (absent, a) (last dir (write_files dir files less d) left whole b c)
    ]
  where
    last :
        (dir : Text) (written : Disk × Option Run) (left : Run)
        → written.1 ≡ some left
        → (left.calls == 0) ≡ false
        → (left.calls == 1) ≡ false
        → (write_marker dir written).1 ≡ true
    last dir (d, o) left q b c =
        subst (λ o. (write_marker dir (d, o)).1 ≡ true) (sym q)
          (unfold write_marker in rw (b, c) refl)

-- A job that is run again after its first `put` ended anywhere completes the bundle: the second call
-- returns without an error if its own calls succeed, and then every artifact is stored.
pub put-put :
    (root hash : Text) (files : List (Text × List ℕ)) (run again : Run) (d : Disk)
    → AreDistinct files
    → NotMarker files
    → exists root hash d ≡ false
    → 3 * length files + 3 ≤ again.calls
    → let (e, done) = put root hash files again (put root hash files run d).0 in
      (done ≡ true) × All (IsStored (bundle_dir root hash) e) files
put-put root hash files run again d distinct h absent enough =
    let first = (put root hash files run d).0 in
    let finished = put-done root hash files again first enough in
    (
      finished,
      elim (Bool-cases (exists root hash first)) [
        | inl there ↦
            let stored = (put-IsStored root hash files run d distinct h absent).0 there in
            let unchanged : put root hash files again first ≡ (first, true) =
              unfold put in (rw there refl) in
            subst (λ r. All (IsStored (bundle_dir root hash) r.0) files) (sym unchanged) stored
        | inr missing ↦
            let (stored, made) = put-IsStored root hash files again first distinct h missing in
            stored (made finished)
      ],
    )

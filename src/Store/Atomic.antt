-- ===== src/Store/Atomic.antt =====
-- artifact.rs: what the marker promises, wherever a write of a bundle ends.
use bvault_app.Prelude.{
  ℕ, ◌-◌, ◌≡◌, ◌≢◌, refl, ap, sym, subst, ◌∙◌, inl, inr, true, false, Option, some, none, List, [],
  ◌∷◌, take, All, Bool-cases, ◌==◌,
}
use bvault_app.Text.{Text}
use bvault_app.Transfer.Files.{lookup, lookup-put_other, lookup-put_same}
use bvault_app.Store.{
  join, bundle_dir, marker, Disk, is_some, exists, write_file, sync_all, Run, write_files,
  write_marker, put,
}

-- The file has its bytes, for a reader and on the disk.
abbrev pub IsStored : Text → Disk → Text × List ℕ → Type 0
IsStored dir d (name, bytes) =
    (lookup (join dir name) d.files ≡ some bytes) × (lookup (join dir name) d.synced ≡ some bytes)

abbrev pub AreDistinct : List (Text × List ℕ) → Type 0
AreDistinct [] = Unit {0}
AreDistinct ((name, bytes) ∷ files) = All (λ f. name ≢ f.0) files × AreDistinct files

join-injective : (dir a b : Text) → join dir a ≡ join dir b → a ≡ b
unfolding join
join-injective [] a b e = cc
join-injective (c ∷ dir) a b e =
    let same : join dir a ≡ join dir b = unfold join in cc in join-injective dir a b same

-- A path that is none of the artifacts' is left alone.
write_files_other :
    (dir p : Text) (files : List (Text × List ℕ)) (run : Run) (d : Disk)
    → All (λ f. p ≢ join dir f.0) files
    → (lookup p (write_files dir files run d).0.files ≡ lookup p d.files)
      × (lookup p (write_files dir files run d).0.synced ≡ lookup p d.synced)
unfolding write_files write_file sync_all
write_files_other dir p [] run d h = (refl, refl)
write_files_other dir p ((name, bytes) ∷ files) run d h =
    let path = join dir name in
    let written = write_file path bytes d in
    let kept = λ (b : List ℕ). lookup-put_other path p b d.files h.0 in
    let (files_rest, synced_rest) =
      write_files_other dir p files (record run { calls = run.calls - 3 })
        (sync_all path bytes written) h.1 in
    elim (Bool-cases (run.calls == 0)) [
      | inl zero ↦ rw zero (refl, refl)
      | inr a ↦ elim (Bool-cases (run.calls == 1)) [
        | inl one ↦ rw (a, one) (kept (take run.partial bytes), refl)
        | inr b ↦ elim (Bool-cases (run.calls == 2)) [
          | inl two ↦ rw (a, b, two) (kept bytes, refl)
          | inr c ↦
              rw (a, b, c)
                (files_rest ∙ kept bytes, synced_rest ∙ lookup-put_other path p bytes d.synced h.0)
        ]
      ]
    ]

-- Where the loop comes to its end, every artifact is stored.
write_files-IsStored :
    (dir : Text) (files : List (Text × List ℕ)) (run : Run) (d : Disk) (e : Disk) (left : Run)
    → AreDistinct files
    → write_files dir files run d ≡ (e, some left)
    → All (IsStored dir e) files
unfolding write_files
write_files-IsStored dir [] run d e left h q = tt
write_files-IsStored dir ((name, bytes) ∷ files) run d e left h q =
    let path = join dir name in
    let after = sync_all path bytes (write_file path bytes d) in
    let less = record run { calls = run.calls - 3 } in
    elim (Bool-cases (run.calls == 0)) [
      | inl zero ↦
          let stopped : ◌≡◌ {A = Disk × Option Run} (d, none) (e, some left) = rw (zero) at q in
          absurd (cc)
      | inr a ↦ elim (Bool-cases (run.calls == 1)) [
        | inl one ↦
            let stopped : ◌≡◌ {A = Disk × Option Run}
                (write_file path (take run.partial bytes) d, none) (e, some left) =
              rw (a, one) at q in
            absurd (cc)
        | inr b ↦ elim (Bool-cases (run.calls == 2)) [
          | inl two ↦
              let stopped : ◌≡◌ {A = Disk × Option Run} (write_file path bytes d, none)
                  (e, some left) =
                rw (a, b, two) at q in
              absurd (cc)
          | inr c ↦
              let rest : write_files dir files less after ≡ (e, some left) = rw (a, b, c) at q in
              let apart = All-apart dir name files h.0 in
              let (same_files, same_synced) = write_files_other dir path files less after apart in
              let here : IsStored dir (write_files dir files less after).0 (name, bytes) = (
                same_files ∙ (unfold sync_all write_file in lookup-put_same path bytes d.files),
                same_synced ∙ (unfold sync_all write_file in lookup-put_same path bytes d.synced),
              ) in
              (
                subst (λ r. IsStored dir r.0 (name, bytes)) rest here,
                write_files-IsStored dir files less after e left h.1 rest,
              )
        ]
      ]
    ]
  where
    All-apart :
        (dir name : Text) (files : List (Text × List ℕ))
        → All (λ f. name ≢ f.0) files
        → All (λ f. join dir name ≢ join dir f.0) files
    All-apart dir name [] h = tt
    All-apart dir name (f ∷ files) h =
        ((λ e. h.0 (join-injective dir name f.0 e)), All-apart dir name files h.1)

-- The paths of the artifacts are not the marker's.
abbrev pub NotMarker : List (Text × List ℕ) → Type 0
NotMarker files = All (λ f. f.0 ≢ marker) files

NotMarker-paths :
    (dir : Text) (files : List (Text × List ℕ))
    → NotMarker files
    → All (λ f. join dir marker ≢ join dir f.0) files
NotMarker-paths dir [] h = tt
NotMarker-paths dir (f ∷ files) h =
    ((λ e. h.0 (sym (join-injective dir marker f.0 e))), NotMarker-paths dir files h.1)

-- The marker's own files leave the artifacts alone.
IsStored-marker :
    (dir : Text) (files : List (Text × List ℕ)) (d : Disk)
    → NotMarker files
    → All (IsStored dir d) files
    → All (IsStored dir (write_file (join dir marker) [] d)) files
      × All (IsStored dir (sync_all (join dir marker) [] (write_file (join dir marker) [] d))) files
unfolding write_file sync_all
IsStored-marker dir [] d h s = (tt, tt)
IsStored-marker dir ((name, bytes) ∷ files) d h s =
    let path = join dir marker in
    let apart : join dir name ≢ path = λ e. h.0 (join-injective dir name marker e) in
    let read = lookup-put_other path (join dir name) [] d.files apart ∙ s.0.0 in
    let (created, synced) = IsStored-marker dir files d h.1 s.1 in
    (
      ((read, s.0.1), created),
      ((read, lookup-put_other path (join dir name) [] d.synced apart ∙ s.0.1), synced),
    )

-- What the marker adds: where it is there and was not before, everything is stored.
write_marker-IsStored :
    (dir : Text) (files : List (Text × List ℕ)) (d : Disk) (left : Option Run)
    → NotMarker files
    → is_some (lookup (join dir marker) d.files) ≡ false
    → ((run : Run) → left ≡ some run → All (IsStored dir d) files)
    → is_some (lookup (join dir marker) (write_marker dir (d, left)).0.files) ≡ true
    → All (IsStored dir (write_marker dir (d, left)).0) files
unfolding write_marker
write_marker-IsStored dir files d none h absent s there = absurd (cc)
write_marker-IsStored dir files d (some run) h absent s there =
    let (created, synced) = IsStored-marker dir files d h (s run refl) in
    elim (Bool-cases (run.calls == 0)) [
      | inl zero ↦
          let there' : is_some (lookup (join dir marker) d.files) ≡ true = rw (zero) at there in
          absurd (cc)
      | inr a ↦ elim (Bool-cases (run.calls == 1)) [
        | inl one ↦ rw (a, one) created
        | inr b ↦ rw (a, b) synced
      ]
    ]

write_marker-exists :
    (dir : Text) (d : Disk) (left : Option Run)
    → (write_marker dir (d, left)).1 ≡ true
    → is_some (lookup (join dir marker) (write_marker dir (d, left)).0.files) ≡ true
unfolding write_marker
write_marker-exists dir d none q = cc
write_marker-exists dir d (some run) q =
    let path = join dir marker in
    let there : is_some (lookup path (sync_all path [] (write_file path [] d)).files) ≡ true =
      unfold write_file sync_all is_some in ap is_some (lookup-put_same path [] d.files) in
    elim (Bool-cases (run.calls == 0)) [
      | inl zero ↦ let no : false ≡ true = rw (zero) at q in absurd (cc)
      | inr a ↦ elim (Bool-cases (run.calls == 1)) [
        | inl one ↦ let no : false ≡ true = rw (a, one) at q in absurd (cc)
        | inr b ↦ rw (a, b) there
      ]
    ]

-- A process that ends, or a call that fails, at any place in the middle of a `put` leaves a bundle that
-- is either not called complete or has every artifact, readable and on the disk with its bytes; where
-- `put` returns without an error, the bundle is called complete.
pub put-IsStored :
    (root hash : Text) (files : List (Text × List ℕ)) (run : Run) (d : Disk)
    → AreDistinct files
    → NotMarker files
    → exists root hash d ≡ false
    → let (e, done) = put root hash files run d in
      (exists root hash e ≡ true → All (IsStored (bundle_dir root hash) e) files)
      × (done ≡ true → exists root hash e ≡ true)
unfolding put exists
put-IsStored root hash files run d distinct h absent =
    let dir = bundle_dir root hash in
    let less = record run { calls = run.calls - 1 } in
    let (e, left) = write_files dir files less d in
    let written : write_files dir files less d ≡ (e, left) = refl in
    let (same, _) =
      write_files_other dir (join dir marker) files less d (NotMarker-paths dir files h) in
    rw (absent) (elim (Bool-cases (run.calls == 0)) [
      | inl zero ↦ rw zero ((λ there. absurd (cc)), (λ done. absurd (cc)))
      | inr more ↦ rw more (
        write_marker-IsStored dir files e left h (ap is_some same ∙ absent) (λ run' q.
            write_files-IsStored dir files less d e run' distinct (
              let whole : write_files dir files less d ≡ (e, some run') = ap (λ l. (e, l)) q in
              whole)),
        write_marker-exists dir e left,
      )
    ])

-- ===== src/Store/Arrival.antt =====
-- raw.rs: a store of a temporary file that succeeds.
use bvault_app.Prelude.{
  ap, subst, Option-cases, ℕ, ◌≡◌, ◌≢◌, ◌∙◌, inl, inr, some, List, take, Bool-cases,
}
use bvault_app.Text.{Text}
use bvault_app.Transfer.Files.{
  Drive, lookup, remove, put as set_file, lookup-put_same, lookup-remove_other,
}
use bvault_app.Store.{join}
use bvault_app.Store.Raw.{
  Answers, Stored, stored, failed, panicked, with_tmp, rename, write_at, cleaned_up, move_to,
  store_from_temp, rel_path,
}

write_at-stored :
    (place target rel : Text) (bytes : List ℕ) (a : Answers) (d d' : Drive)
    → write_at place target bytes a d ≡ (d', stored rel)
    → (place ≡ rel) × (lookup target d' ≡ some bytes)
unfolding write_at rename
write_at-stored place target rel bytes a d d' e = elim (Bool-cases a.written) [
  | inr not_done ↦
      let refused : ◌≡◌ {A = Drive × Stored}
          (set_file (with_tmp target) (take a.partial bytes) d, failed) (d', stored rel) =
        rw (not_done) at e in
      absurd (cc)
  | inl written ↦ elim (Bool-cases a.moved) [
    | inr not_done ↦
        let refused : ◌≡◌ {A = Drive × Stored} (set_file (with_tmp target) bytes d, failed)
            (d', stored rel) =
          rw (written, not_done) at e in
        absurd (cc)
    | inl moved ↦
        let before = remove (with_tmp target) (set_file (with_tmp target) bytes d) in
        let made : ◌≡◌ {A = Drive × Stored} (set_file target bytes before, stored place)
            (d', stored rel) =
          rw (written, moved) at e in
        let state : set_file target bytes before ≡ d' = ap (λ (r : Drive × Stored). r.0) made in
        let same : stored place ≡ stored rel = ap (λ (r : Drive × Stored). r.1) made in
        (cc, subst (λ d. lookup target d ≡ some bytes) state (lookup-put_same target bytes before))
  ]
]

cleaned_up-stored :
    (temp target rel : Text) (bytes : List ℕ) (a : Answers) (r : Drive × Stored) (d' : Drive)
    → cleaned_up temp a r ≡ (d', stored rel)
    → target ≢ temp
    → (d : Drive) × (r ≡ (d, stored rel))
      × (lookup target d ≡ some bytes → lookup target d' ≡ some bytes)
unfolding cleaned_up
cleaned_up-stored temp target rel bytes a (d, failed) d' e apart = absurd (cc)
cleaned_up-stored temp target rel bytes a (d, panicked) d' e apart = absurd (cc)
cleaned_up-stored temp target rel bytes a (d, stored place) d' e apart =
    let same : stored place ≡ stored rel = ap (λ (r : Drive × Stored). r.1) e in
    (
      d,
      ap (λ (o : Stored). (d, o)) same,
      λ there. elim (Bool-cases a.cleaned) [
        | inl clean ↦
            let state : remove temp d ≡ d' = rw (clean) at (ap (λ (r : Drive × Stored). r.0) e) in
            subst (λ d. lookup target d ≡ some bytes) state
              (lookup-remove_other temp target d apart ∙ there)
        | inr left ↦
            let state : d ≡ d' = rw (left) at (ap (λ (r : Drive × Stored). r.0) e) in
            subst (λ d. lookup target d ≡ some bytes) state there
      ],
    )

move_to-stored :
    (temp place target rel : Text) (bytes : List ℕ) (a : Answers) (d d' : Drive)
    → target ≢ temp
    → move_to temp place target bytes a d ≡ (d', stored rel)
    → (place ≡ rel) × (lookup target d' ≡ some bytes)
unfolding move_to rename
move_to-stored temp place target rel bytes a d d' apart e = elim (Bool-cases a.renamed) [
  | inl renamed ↦
      let before = remove temp d in
      let made : ◌≡◌ {A = Drive × Stored} (set_file target bytes before, stored place)
          (d', stored rel) =
        rw (renamed) at e in
      let state : set_file target bytes before ≡ d' = ap (λ (r : Drive × Stored). r.0) made in
      let same : stored place ≡ stored rel = ap (λ (r : Drive × Stored). r.1) made in
      (cc, subst (λ d. lookup target d ≡ some bytes) state (lookup-put_same target bytes before))
  | inr copied ↦
      let tidied : cleaned_up temp a (write_at place target bytes a d) ≡ (d', stored rel) =
        rw (copied) at e in
      let (d1, wrote, kept) =
        cleaned_up-stored temp target rel bytes a (write_at place target bytes a d) d' tidied
          apart in
      let (same, there) = write_at-stored place target rel bytes a d d1 wrote in (same, kept there)
]

-- A store that reports success has the file at the place that it reports, if temporary files are not
-- below the root.
pub store_from_temp-stored :
    (root temp hash ext rel : Text) (bytes : List ℕ) (a : Answers) (d d' : Drive)
    → lookup temp d ≡ some bytes
    → ((rel : Text) → join root rel ≢ temp)
    → store_from_temp root temp hash ext a d ≡ (d', stored rel)
    → lookup (join root rel) d' ≡ some bytes
unfolding store_from_temp
store_from_temp-stored root temp hash ext rel bytes a d d' there apart e =
    elim (Option-cases (rel_path hash ext)) [
      | inl missing ↦
          let refused : ◌≡◌ {A = Drive × Stored} (d, panicked) (d', stored rel) =
            rw (missing, store_from_temp) at e in
          absurd (cc)
      | inr (place, found) ↦ elim (Bool-cases a.dir_created) [
        | inr not_done ↦
            let refused : ◌≡◌ {A = Drive × Stored} (d, failed) (d', stored rel) =
              rw (not_done) at (rw (found, store_from_temp) at e) in
            absurd (cc)
        | inl made ↦
            let moved : move_to temp place (join root place) bytes a d ≡ (d', stored rel) =
              rw (there, store_from_temp) at (rw (made) at (rw (found, store_from_temp) at e)) in
            let (same, stands) =
              move_to-stored temp place (join root place) rel bytes a d d' (apart place) moved in
            subst (λ rel. lookup (join root rel) d' ≡ some bytes) same stands
      ]
    ]

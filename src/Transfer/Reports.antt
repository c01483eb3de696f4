-- ===== src/Transfer/Reports.antt =====
-- reconcile.rs: what is reported of the entries.
use bvault_app.Prelude.{
  ℕ, ◌≡◌, refl, ap, sym, subst, ◌∙◌, ◌⊎◌, inl, inr, length, Bool, true, false, Option, some, none,
  List, [], ◌∷◌, ◌++◌, append_assoc, append-nil, Bool-cases,
}
use bvault_app.Text.{Text}
use bvault_app.Hash as Hash
use bvault_app.Hash.{ContentHasher, update}
use bvault_app.Transfer.Files.{Drive}
use bvault_app.Transfer.{
  ManifestEntry, Chunk, chunk, network_error, Answers, Response, no_answer, failure_status, body,
  State, Step, continue, stop, Event, on_start, on_file_start, on_file_progress, on_file_done,
  on_file_skipped, on_error, on_complete, FsWriter, Received, Fault, create, receive, write_all,
  commit, verified, committed, finish, download, fetch, handle_entry, handle_all, reconcile_export,
  completed, total_bytes, note, same_size, file_len, ensure_dir, parent_of,
}

-- The paths that are reported as done, skipped or in error, in order.
unfoldable pub reported : List Event → List Text
reported [] = []
reported (on_file_done p ∷ events) = p ∷ reported events
reported (on_file_skipped p ∷ events) = p ∷ reported events
reported (on_error p fault ∷ events) = p ∷ reported events
reported (on_start n b ∷ events) = reported events
reported (on_file_start p n ∷ events) = reported events
reported (on_file_progress n ∷ events) = reported events
reported (on_complete ∷ events) = reported events

reported-append : (xs ys : List Event) → reported (xs ++ ys) ≡ reported xs ++ reported ys
unfolding reported
reported-append [] ys = refl
reported-append (on_file_done p ∷ xs) ys = ap (◌∷◌ p) (reported-append xs ys)
reported-append (on_file_skipped p ∷ xs) ys = ap (◌∷◌ p) (reported-append xs ys)
reported-append (on_error p fault ∷ xs) ys = ap (◌∷◌ p) (reported-append xs ys)
reported-append (on_start n b ∷ xs) ys = reported-append xs ys
reported-append (on_file_start p n ∷ xs) ys = reported-append xs ys
reported-append (on_file_progress n ∷ xs) ys = reported-append xs ys
reported-append (on_complete ∷ xs) ys = reported-append xs ys

reported-receive :
    (chunks : List Chunk) (w : FsWriter) (h : ContentHasher)
    → reported (receive chunks w h).events ≡ []
unfolding receive reported
reported-receive [] w h = refl
reported-receive (network_error ∷ chunks) w h = refl
reported-receive (chunk bytes false ∷ chunks) w h = refl
reported-receive (chunk bytes true ∷ chunks) w h =
    reported-receive chunks (write_all w bytes) (update h bytes)

note-reported :
    (e : Event) (s : State) → reported (note e s).log ≡ reported s.log ++ reported (e ∷ [])
unfolding note
note-reported e s = reported-append s.log (e ∷ [])

-- One more report.
abbrev Adds : Text → List Event → List Event → Type 0
Adds p log log' = reported log' ≡ reported log ++ p ∷ []

committed-Adds : (p : Text) (r : Drive × Bool) (s : State) → Adds p s.log (committed p r s).log
unfolding committed note
committed-Adds p (d, true) s =
    reported-append s.log (on_file_done p ∷ []) ∙ (unfold reported in refl)
committed-Adds p (d, false) s =
    reported-append s.log (on_error p Fault.commit_error ∷ []) ∙ (unfold reported in refl)

abbrev pub paths : List (ManifestEntry × Answers) → List Text
paths [] = []
paths ((entry, a) ∷ entries) = entry.usb_path ∷ paths entries

Step-cases : (r : Step) → ((s : State) × (r ≡ stop s)) ⊎ ((s : State) × (r ≡ continue s))
Step-cases (stop s) = inl (s, refl)
Step-cases (continue s) = inr (s, refl)

module _ (xxh3_64 : List ℕ → ℕ) where
  finish-Adds :
      (entry : ManifestEntry) (a : Answers) (r : Received) (fault : Option Fault) (s : State)
      → Adds entry.usb_path s.log (finish xxh3_64 entry a r fault s).log
  unfolding finish note
  finish-Adds entry a r (some fault) s =
      reported-append s.log (on_error entry.usb_path fault ∷ []) ∙ (unfold reported in refl)
  finish-Adds entry a r none s = elim (Bool-cases (verified xxh3_64 entry.source r.hasher)) [
    | inl good ↦ rw good (committed-Adds entry.usb_path (commit r.writer a s.drive) s)
    | inr bad ↦ rw bad (
        reported-append s.log (on_error entry.usb_path Fault.hash_mismatch ∷ [])
        ∙ (unfold reported in refl))
  ]

  download-Adds :
      (entry : ManifestEntry) (a : Answers) (chunks : List Chunk) (s : State)
      → Adds entry.usb_path s.log (download xxh3_64 entry a chunks s).log
  unfolding download note
  download-Adds entry a chunks s = elim (Bool-cases a.tmp_created) [
    | inr f ↦ rw f (
        reported-append s.log (on_error entry.usb_path Fault.open_error ∷ [])
        ∙ (unfold reported in refl))
    | inl t ↦
        let c = create entry.usb_path s.drive in
        let r = receive chunks c.1 Hash.new in
        let quiet : reported (s.log ++ r.events) ≡ reported s.log =
          reported-append s.log r.events
          ∙ ap (◌++◌ (reported s.log)) (reported-receive chunks c.1 Hash.new)
          ∙ append-nil (reported s.log) in
        rw t (
          finish-Adds entry a r r.fault (record { drive = c.0; log = s.log ++ r.events })
          ∙ ap (λ l. l ++ entry.usb_path ∷ []) quiet)
  ]

  -- An entry that does not end the transfer is reported once.
  fetch-Adds :
      (entry : ManifestEntry) (a : Answers) (response : Response) (s t : State)
      → fetch xxh3_64 entry a response s ≡ continue t
      → Adds entry.usb_path s.log t.log
  unfolding fetch note
  fetch-Adds entry a no_answer s t e = cc
  fetch-Adds entry a failure_status s t e =
      let same : note (on_error entry.usb_path Fault.http) s ≡ t = unfold note in cc in
      subst (λ u. Adds entry.usb_path s.log u.log) same
        (unfold note in
          reported-append s.log (on_error entry.usb_path Fault.http ∷ [])
          ∙ (unfold reported in refl))
  fetch-Adds entry a (body chunks) s t e =
      let same : download xxh3_64 entry a chunks s ≡ t = cc in
      subst (λ u. Adds entry.usb_path s.log u.log) same (download-Adds entry a chunks s)

  handle_entry-Adds :
      (entry : ManifestEntry) (a : Answers) (s t : State)
      → handle_entry xxh3_64 entry a s ≡ continue t
      → Adds entry.usb_path s.log t.log
  unfolding handle_entry
  handle_entry-Adds entry a s t e =
      elim (Bool-cases (ensure_dir (parent_of entry.usb_path) a.dir_created)) [
        | inr f ↦ let stopped : stop s ≡ continue t = rw (f, handle_entry) at e in cc
        | inl made ↦ elim (Bool-cases a.stat_read) [
          | inr f ↦ let stopped : stop s ≡ continue t = rw (made, f, handle_entry) at e in cc
          | inl read ↦ elim (Bool-cases (same_size (file_len entry.usb_path s.drive) entry.size)) [
            | inl skip ↦
                let went : continue (note (on_file_skipped entry.usb_path) s) ≡ continue t =
                  rw (made, read, skip, handle_entry) at e in
                let same : note (on_file_skipped entry.usb_path) s ≡ t = cc in
                subst (λ u. Adds entry.usb_path s.log u.log) same
                  (unfold note in
                    reported-append s.log (on_file_skipped entry.usb_path ∷ [])
                    ∙ (unfold reported in refl))
            | inr go ↦
                let begun = note (on_file_start entry.usb_path entry.size) s in
                let went : fetch xxh3_64 entry a a.response begun ≡ continue t =
                  rw (made, read, go, handle_entry) at e in
                let quiet : reported begun.log ≡ reported s.log =
                  unfold note in
                  reported-append s.log (on_file_start entry.usb_path entry.size ∷ [])
                  ∙ (unfold reported in append-nil (reported s.log)) in
                fetch-Adds entry a a.response begun t went
                ∙ ap (λ l. l ++ entry.usb_path ∷ []) quiet
          ]
        ]
      ]

  handle_all-reported :
      (entries : List (ManifestEntry × Answers)) (s t : State)
      → handle_all xxh3_64 entries s ≡ continue t
      → reported t.log ≡ reported s.log ++ paths entries
  unfolding handle_all
  handle_all-reported [] s t e =
      let same : s ≡ t = cc in
      ap (λ u. reported u.log) (sym same) ∙ sym (append-nil (reported s.log))
  handle_all-reported ((entry, a) ∷ entries) s t e =
      elim (Step-cases (handle_entry xxh3_64 entry a s)) [
        | inl (u, stopped) ↦ let ended : stop u ≡ continue t = rw (stopped, handle_all) at e in cc
        | inr (u, went) ↦
            let rest : handle_all xxh3_64 entries u ≡ continue t = rw (went, handle_all) at e in
            handle_all-reported entries u t rest
            ∙ ap (λ l. l ++ paths entries) (handle_entry-Adds entry a s u went)
            ∙ append_assoc (reported s.log) (entry.usb_path ∷ []) (paths entries)
      ]

  -- A transfer that comes to its end has reported every entry of the manifest exactly once, as
  -- done, as skipped or with an error, in the manifest's order, and then asks the server to delete
  -- the build, whichever of the three they were; one that stops before does not ask.
  pub reconcile_export-reported :
      (entries : List (ManifestEntry × Answers)) (d : Drive) (step : Step) (asked : Bool)
      → reconcile_export xxh3_64 entries d ≡ (step, asked)
      → ((t : State) × (step ≡ stop t) × (asked ≡ false))
        ⊎ ((t : State) × (step ≡ continue t) × (asked ≡ true) × (reported t.log ≡ paths entries))
  unfolding reconcile_export completed
  reconcile_export-reported entries d step asked e =
      let start : State = record {
        drive = d;
        log = on_start (length entries) (total_bytes entries) ∷ [];
      } in
      elim (Step-cases (handle_all xxh3_64 entries start)) [
        | inl (t, stopped) ↦
            let ended : ◌≡◌ {A = Step × Bool} (stop t, false) (step, asked) =
              ap completed (sym stopped) ∙ e in
            inl (t, ap (λ r. r.0) (sym ended), ap (λ r. r.1) (sym ended))
        | inr (t, went) ↦
            let ended : ◌≡◌ {A = Step × Bool} (continue (note on_complete t), true) (step, asked) =
              ap completed (sym went) ∙ e in
            let last : reported (note on_complete t).log ≡ reported t.log =
              note-reported on_complete t ∙ (unfold reported in append-nil (reported t.log)) in
            let nothing : reported start.log ++ paths entries ≡ paths entries =
              unfold reported in refl in
            inr (
              note on_complete t,
              ap (λ r. r.0) (sym ended),
              ap (λ r. r.1) (sym ended),
              last ∙ handle_all-reported entries start t went ∙ nothing,
            )
      ]

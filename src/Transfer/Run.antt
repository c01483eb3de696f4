-- ===== src/Transfer/Run.antt =====
-- reconcile.rs: what a whole transfer may do to the files of the drive.
use bvault_app.Prelude.{ℕ, ◌≢◌, ◌⊎◌, List, [], ◌∷◌, ◌++◌, All}
use bvault_app.Text.{Text}
use bvault_app.Transfer.Files.{Drive}
use bvault_app.Transfer.{ManifestEntry, Answers, Step, continue, stop, tmp_suffix, handle_all}
use bvault_app.Transfer.Delivery.{Brought}

-- No entry writes its temporary file at `p`.
abbrev pub IsNoTmp : Text → List (ManifestEntry × Answers) → Type 0
IsNoTmp p entries = All (λ (entry, a). p ≢ entry.usb_path ++ tmp_suffix) entries

module _ (xxh3_64 : List ℕ → ℕ) where
  -- One of the entries has brought the file at `p`.
  abbrev pub BroughtByOne : Text → List (ManifestEntry × Answers) → Drive → Type 0
  BroughtByOne p [] d = ⊥
  BroughtByOne p ((entry, a) ∷ entries) d = Brought xxh3_64 p entry d ⊎ BroughtByOne p entries d

  -- The rest of the loop, after the step that an entry has taken.
  rest_of : List (ManifestEntry × Answers) → Step → Step
  unfolding handle_all
  rest_of entries step = elim step [ stop t ↦ stop t | continue t ↦ handle_all xxh3_64 entries t ]

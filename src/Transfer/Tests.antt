-- ===== src/Transfer/Tests.antt =====
-- A rendered file and a raw one, of which the first comes in two chunks and the second with a fault.
use bvault_app.Prelude.{ℕ, ◌≡◌, ◌⊎◌, refl, Bool, true, false, List, [], ◌∷◌, length}
use bvault_app.Text.{Text}
use bvault_app.Transfer.{
  staging, raw, ManifestEntry, chunk, network_error, Answers, body, State, Step, continue, stop,
  reconcile_export,
}
use bvault_app.Transfer.Reports.{reported, paths, reconcile_export-reported}

abbrev any_hash : List ℕ → ℕ
any_hash bytes = length bytes

abbrev path : Text
path = b'P' ∷ b'/' ∷ b'a' ∷ []

abbrev audio : Text
audio = b'C' ∷ b'/' ∷ b'b' ∷ []

abbrev rendered : ManifestEntry
rendered = record { usb_path = path; size = 3; source = staging }

abbrev song : ManifestEntry
song = record { usb_path = audio; size = 9; source = raw (b'0' ∷ b'1' ∷ []) }

abbrev answers : Answers
answers = record {
  dir_created = true;
  stat_read = true;
  response = body (chunk (1 ∷ 2 ∷ []) true ∷ chunk (3 ∷ []) true ∷ []);
  tmp_created = true;
  flushed = true;
  synced = true;
  renamed = true;
}

abbrev entries : List (ManifestEntry × Answers)
entries =
    (rendered, answers)
    ∷ (song, record answers { response = body (chunk (7 ∷ []) true ∷ network_error ∷ []) })
    ∷ []

abbrev result : Step × Bool
result = reconcile_export any_hash entries []

reconcile_export-reported_example :
    ((t : State) × (result.0 ≡ stop t) × (result.1 ≡ false))
    ⊎ ((t : State) × (result.0 ≡ continue t) × (result.1 ≡ true) × (reported t.log ≡ paths entries))
reconcile_export-reported_example =
    reconcile_export-reported any_hash entries [] result.0 result.1 refl

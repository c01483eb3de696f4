-- ===== src/Store/Tests.antt =====
-- One artifact, whose first `put` ends in the middle of the write; and a track brought to its place.
use bvault_app.Prelude.{◌≡◌, ◌≢◌, refl, ap, arith, true, false, some, List, [], ◌∷◌, length, ℕ, All}
use bvault_app.Text.{Text, text_equal, utf8_char}
use bvault_app.Transfer.Files.{Drive, lookup, put as set_file}
use bvault_app.Store.{Disk, Run, bundle_dir, exists, join, put}
use bvault_app.Store.Atomic.{IsStored, AreDistinct, NotMarker, put-IsStored}
use bvault_app.Store.Retry.{put-put}
use bvault_app.Store.Raw.{Answers, rel_path, with_tmp, store_from_temp, stored}
use bvault_app.Store.Delivery.{Delivers, store_from_temp-Delivers}

store : Unit {0}
unfolding put exists lookup set_file bundle_dir join rel_path with_tmp store_from_temp text_equal
    utf8_char
store = tt

abbrev root : Text
root = b'r' ∷ []

abbrev hash : Text
hash = b'0' ∷ b'a' ∷ b'1' ∷ b'b' ∷ b'2' ∷ []

abbrev artifacts : List (Text × List ℕ)
artifacts = (b'D' ∷ [], 1 ∷ 2 ∷ []) ∷ (b'E' ∷ [], 3 ∷ []) ∷ []

abbrev empty : Disk
empty = record { files = []; synced = [] }

abbrev all_calls : Run
all_calls = record { calls = 9; partial = 0 }

-- The process ends in the write of the second artifact.
abbrev cut_off : Run
cut_off = record { calls = 5; partial = 0 }

artifacts-AreDistinct : AreDistinct artifacts
artifacts-AreDistinct =
    (((λ e. let c : ◌≡◌ {A = ℕ} b'D' b'E' = cc in absurd (omega (arith, c))), tt), (tt, tt))

artifacts-NotMarker : NotMarker artifacts
artifacts-NotMarker = ((λ e. omega (arith, ap length e)), ((λ e. omega (arith, ap length e)), tt))

put_tests :
    (exists root hash (put root hash artifacts cut_off empty).0 ≡ false)
    × (exists root hash (put root hash artifacts all_calls empty).0 ≡ true)
    × ((put root hash artifacts all_calls empty).1 ≡ true)
    × (bundle_dir root hash ≡ b'r' ∷ b'/' ∷ b'0' ∷ b'a' ∷ b'/' ∷ b'1' ∷ b'b' ∷ b'/' ∷ hash)
unfolding store
put_tests = (refl, refl, refl, refl)

absent : exists root hash empty ≡ false
unfolding store
absent = refl

put-IsStored_example :
    let (e, done) = put root hash artifacts all_calls empty in
    (exists root hash e ≡ true → All (IsStored (bundle_dir root hash) e) artifacts)
    × (done ≡ true → exists root hash e ≡ true)
put-IsStored_example =
    put-IsStored root hash artifacts all_calls empty artifacts-AreDistinct artifacts-NotMarker
      absent

put-put_example :
    let (e, done) = put root hash artifacts all_calls (put root hash artifacts cut_off empty).0 in
    (done ≡ true) × All (IsStored (bundle_dir root hash) e) artifacts
put-put_example =
    put-put root hash artifacts cut_off all_calls empty artifacts-AreDistinct artifacts-NotMarker
      absent (omega arith)

abbrev temp : Text
temp = b't' ∷ []

abbrev flac : Text
flac = b'.' ∷ b'f' ∷ b'l' ∷ b'a' ∷ b'c' ∷ []

abbrev place : Text
place =
    b'0' ∷ b'a' ∷ b'/' ∷ b'0' ∷ b'a' ∷ b'1' ∷ b'b' ∷ b'2' ∷ b'.' ∷ b'f' ∷ b'l' ∷ b'a' ∷ b'c' ∷ []

-- The renaming fails, as it does between two devices, and the copy is made.
abbrev other_device : Answers
other_device = record {
  dir_created = true;
  renamed = false;
  written = true;
  moved = true;
  cleaned = true;
  partial = 0;
}

abbrev uploads : Drive
uploads = (temp, 5 ∷ 6 ∷ []) ∷ []

store_from_temp_tests :
    (rel_path hash flac ≡ some place)
    × (store_from_temp root temp hash flac other_device uploads
        ≡ ((join root place, 5 ∷ 6 ∷ []) ∷ [], stored place))
unfolding store
store_from_temp_tests = (refl, refl)

uploaded : lookup temp uploads ≡ some (5 ∷ 6 ∷ [])
unfolding store
uploaded = refl

beside : join root place ≢ with_tmp (join root place)
unfolding store
beside = λ e. omega (arith, ap length e)

elsewhere : join root place ≢ temp
unfolding store
elsewhere = λ e. omega (arith, ap length e)

store_from_temp-Delivers_example :
    Delivers temp
      (with_tmp (join root place))
      (join root place)
      (5 ∷ 6 ∷ [])
      uploads
      (store_from_temp root temp hash flac other_device uploads)
store_from_temp-Delivers_example =
    store_from_temp-Delivers root temp hash flac place (5 ∷ 6 ∷ []) other_device uploads
      store_from_temp_tests.0 uploaded beside elsewhere

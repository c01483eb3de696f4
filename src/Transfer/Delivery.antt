-- ===== src/Transfer/Delivery.antt =====
-- reconcile.rs: what a transfer may do to a file of the drive.
use bvault_app.Prelude.{
  ℕ, ◌≡◌, ◌≢◌, refl, ap, sym, subst, ◌∙◌, ◌⊎◌, inl, inr, true, false, Option, some, none, List, [],
  ◌∷◌, ◌++◌, append_assoc, append-nil, Bool-cases,
}
use bvault_app.Text.{Text, text_equal, text_equal_sound, text_equal_reflexive}
use bvault_app.Hash as Hash
use bvault_app.Hash.{ContentHasher, update, update_all, finalize, hash_bytes, hash_hex}
use mathlib.Core.List.{flatten}
use bvault_app.Hash.Streaming.{finalize-update_all}
use bvault_app.Transfer.Files.{
  Drive, lookup, put, remove, lookup-remove_other, lookup-put_other, lookup-put_same,
}
use bvault_app.Transfer.{
  Source, staging, raw, ManifestEntry, Chunk, chunk, network_error, Answers, State, Step, continue,
  stop, FsWriter, Received, Fault, tmp_suffix, create, receive, write_all, abort, commit, verified,
  committed, finish, download, note,
}

-- The chunks that were written before the end of the body or its first fault.
unfoldable pub received : List Chunk → List (List ℕ)
received [] = []
received (network_error ∷ chunks) = []
received (chunk bytes false ∷ chunks) = []
received (chunk bytes true ∷ chunks) = bytes ∷ received chunks

-- The writer and the hasher have both seen the chunks that were written.
receive_lem :
    (chunks : List Chunk) (w : FsWriter) (h : ContentHasher)
    → ((receive chunks w h).hasher ≡ update_all h (received chunks))
      × ((receive chunks w h).writer.file ≡ w.file ++ flatten (received chunks))
      × ((receive chunks w h).writer.tmp ≡ w.tmp)
      × ((receive chunks w h).writer.dest ≡ w.dest)
unfolding receive received update_all flatten write_all
receive_lem [] w h = (refl, sym (append-nil w.file), refl, refl)
receive_lem (network_error ∷ chunks) w h = (refl, sym (append-nil w.file), refl, refl)
receive_lem (chunk bytes false ∷ chunks) w h = (refl, sym (append-nil w.file), refl, refl)
receive_lem (chunk bytes true ∷ chunks) w h =
    let (hash, file, tmp, dest) = receive_lem chunks (write_all w bytes) (update h bytes) in
    (hash, file ∙ append_assoc w.file bytes (flatten (received chunks)), tmp, dest)

abbrev pub drive_after : Step → Drive
drive_after (continue s) = s.drive
drive_after (stop s) = s.drive

module _ (xxh3_64 : List ℕ → ℕ) where
  -- Raw audio has the identity that the manifest names; of a rendered file nothing is checked.
  abbrev pub IsFrom : Source → List ℕ → Type 0
  IsFrom staging bytes = Unit {0}
  IsFrom (raw hash) bytes = hash_hex (hash_bytes xxh3_64 bytes) ≡ hash

  -- The file at `p` has been brought by the entry.
  abbrev pub Brought : Text → ManifestEntry → Drive → Type 0
  Brought p entry d =
      (p ≡ entry.usb_path)
      × (bytes : List ℕ) × (lookup p d ≡ some bytes)
      × IsFrom entry.source bytes

  -- The file at `p` is as it was before, or the entry has brought it.
  abbrev pub Kept : Text → ManifestEntry → Drive → Drive → Type 0
  Kept p entry d d' = (lookup p d' ≡ lookup p d) ⊎ Brought p entry d'

  verified-IsFrom :
      (source : Source) (chunks : List (List ℕ))
      → verified xxh3_64 source (update_all Hash.new chunks) ≡ true
      → IsFrom source (flatten chunks)
  unfolding verified
  verified-IsFrom staging chunks e = tt
  verified-IsFrom (raw hash) chunks e =
      ap hash_hex (sym (finalize-update_all xxh3_64 chunks).0) ∙ text_equal_sound _ hash e

  committed-Kept :
      (p : Text) (entry : ManifestEntry) (w : FsWriter) (a : Answers) (s : State)
      → p ≢ w.tmp
      → w.dest ≡ entry.usb_path
      → IsFrom entry.source w.file
      → Kept p entry s.drive (committed entry.usb_path (commit w a s.drive) s).drive
  unfolding commit committed note
  committed-Kept p entry w a s other dest from = elim (Bool-cases a.flushed) [
    | inr f ↦ rw f (inl refl)
    | inl f ↦ elim (Bool-cases a.synced) [
      | inr y ↦ rw f (rw y (inl (lookup-put_other w.tmp p w.file s.drive other)))
      | inl y ↦ elim (Bool-cases a.renamed) [
        | inr r ↦ rw f (rw y (rw r (inl (lookup-put_other w.tmp p w.file s.drive other))))
        | inl r ↦ rw f (
            rw y (
              rw r (elim (Bool-cases (text_equal p w.dest)) [
                | inl same ↦
                    let here = text_equal_sound p w.dest same in
                    inr (
                      here ∙ dest,
                      w.file,
                      subst (λ q. lookup q (put w.dest w.file (remove w.tmp s.drive)) ≡ some w.file)
                          (sym here) (lookup-put_same w.dest w.file (remove w.tmp s.drive)),
                      from,
                    )
                | inr apart ↦ inl (
                    lookup-put_other w.dest p w.file (remove w.tmp s.drive)
                      (λ same. no_match p w.dest same apart)
                    ∙ lookup-remove_other w.tmp p s.drive other)
              ])))
      ]
    ]
  ]
    where
      no_match : (p q : Text) → p ≡ q → text_equal p q ≡ false → ⊥
      no_match p q same apart =
          let equal : text_equal p q ≡ true =
            subst (λ x. text_equal p x ≡ true) same (text_equal_reflexive p) in
          cc

  -- The fault that the body ended with decides first, then the hash.
  finish-Kept :
      (p : Text) (entry : ManifestEntry) (a : Answers) (r : Received) (fault : Option Fault)
      (s : State)
      → p ≢ r.writer.tmp
      → r.writer.dest ≡ entry.usb_path
      → (chunks : List (List ℕ)) × (r.hasher ≡ update_all Hash.new chunks)
        × (r.writer.file ≡ flatten chunks)
      → Kept p entry s.drive (finish xxh3_64 entry a r fault s).drive
  unfolding finish abort note
  finish-Kept p entry a r (some fault) s other dest seen =
      inl (lookup-remove_other r.writer.tmp p s.drive other)
  finish-Kept p entry a r none s other dest (chunks, hash, file) =
      elim (Bool-cases (verified xxh3_64 entry.source r.hasher)) [
        | inr bad ↦ rw bad (inl (lookup-remove_other r.writer.tmp p s.drive other))
        | inl good ↦ rw good (
            committed-Kept p entry r.writer a s other dest (
              subst (IsFrom entry.source) (sym file) (
                verified-IsFrom entry.source chunks
                  (sym (ap (verified xxh3_64 entry.source) hash) ∙ good))))
      ]

  pub download-Kept :
      (p : Text) (entry : ManifestEntry) (a : Answers) (chunks : List Chunk) (s : State)
      → p ≢ entry.usb_path ++ tmp_suffix
      → Kept p entry s.drive (download xxh3_64 entry a chunks s).drive
  unfolding download create note
  download-Kept p entry a chunks s other = elim (Bool-cases a.tmp_created) [
    | inr f ↦ rw f (inl refl)
    | inl t ↦
        let w : FsWriter = record {
          file = [];
          tmp = entry.usb_path ++ tmp_suffix;
          dest = entry.usb_path;
        } in
        let d = put w.tmp [] s.drive in
        let r = receive chunks w Hash.new in
        let (hash, file, tmp, dest) = receive_lem chunks w Hash.new in
        let fresh = lookup-put_other w.tmp p [] s.drive other in
        let kept =
          finish-Kept p entry a r r.fault (record { drive = d; log = s.log ++ r.events })
            (λ e. other (e ∙ tmp)) dest (received chunks, hash, file) in
        rw t (elim kept [ inl same ↦ inl (same ∙ fresh) | inr brought ↦ inr brought ])
  ]

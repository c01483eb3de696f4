-- ===== src/Transfer/Files.antt =====
-- The files of a drive by their paths.
use bvault_app.Prelude.{
  ℕ, ◌≡◌, ◌≢◌, refl, inl, inr, Option, some, none, List, [], ◌∷◌, if◌then◌else◌, Bool-cases,
}
use bvault_app.Text.{Text, text_equal, text_equal_sound, text_equal_reflexive}

abbrev pub Drive : Type 0
Drive = List (Text × List ℕ)

unfoldable pub lookup : Text → Drive → Option (List ℕ)
lookup path [] = none
lookup path ((p, bytes) ∷ d) = if text_equal path p then some bytes else lookup path d

unfoldable pub remove : Text → Drive → Drive
remove path [] = []
remove path ((p, bytes) ∷ d) =
    let rest = remove path d in if text_equal path p then rest else (p, bytes) ∷ rest

unfoldable pub put : Text → List ℕ → Drive → Drive
unfolding remove
put path bytes d = (path, bytes) ∷ remove path d

pub lookup-remove_other :
    (path p : Text) (d : Drive) → p ≢ path → lookup p (remove path d) ≡ lookup p d
unfolding lookup remove
lookup-remove_other path p [] h = refl
lookup-remove_other path p ((q, bytes) ∷ d) h = elim (Bool-cases (text_equal path q)) [
  | inl same ↦ elim (Bool-cases (text_equal p q)) [
    | inl equal ↦
        let one = text_equal_sound path q same in
        let two = text_equal_sound p q equal in absurd (h (cc))
    | inr other ↦ rw same (rw other (lookup-remove_other path p d h))
  ]
  | inr other ↦ rw other (elim (Bool-cases (text_equal p q)) [
    | inl equal ↦ rw equal refl
    | inr apart ↦ rw apart (lookup-remove_other path p d h)
  ])
]

pub lookup-put_other :
    (path p : Text) (bytes : List ℕ) (d : Drive)
    → p ≢ path
    → lookup p (put path bytes d) ≡ lookup p d
unfolding lookup put
lookup-put_other path p bytes d h = elim (Bool-cases (text_equal p path)) [
  | inl equal ↦ absurd (h (text_equal_sound p path equal))
  | inr apart ↦ rw apart (lookup-remove_other path p d h)
]

pub lookup-put_same :
    (path : Text) (bytes : List ℕ) (d : Drive) → lookup path (put path bytes d) ≡ some bytes
unfolding lookup put
lookup-put_same path bytes d = rw (text_equal_reflexive path) refl

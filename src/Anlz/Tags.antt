-- ===== src/Anlz/Tags.antt =====
-- A reader's view of a file: it steps from tag to tag by the length that each one declares.
use bvault_app.Prelude.{
  ℕ, zero, suc, ◌+◌, ◌^◌, ◌≤◌, ◌<◌, ◌≡◌, refl, ap, ap₂, ◌∙◌, arith, true, ◌&&◌, Option, some, none,
  List, [], ◌∷◌, ◌++◌, leb, le→leb, if◌then◌else◌, length, take, drop, length-append,
  take-append_within, drop-append_within, length-drop, drop-append_exact, of_be, of_be-be32, be32,
  u32, concat_map,
}
use bvault_app.Anlz.Sections.{write_pmai_header, pmai_tag}
use bvault_app.Anlz.Files.{file_of, total_length}

-- The third word: `len_tag` of a tag, `len_file` of a header.
abbrev pub declared_length : List ℕ → ℕ
declared_length bytes = of_be 0 (take 4 (drop 8 bytes))

abbrev pub prefix : List ℕ → Option (List (List ℕ)) → Option (List (List ℕ))
prefix name none = none
prefix name (some names) = some (name ∷ names)

-- The names of the tags that bytes consist of; `none` where the lengths do not lead to the end.
pub walk_tags : ℕ → List ℕ → Option (List (List ℕ))
walk_tags fuel [] = some []
walk_tags zero (b ∷ bs) = none
walk_tags (suc fuel) (b ∷ bs) =
    let bytes = b ∷ bs in
    let rest = walk_tags fuel (drop (declared_length bytes) bytes) in
    if leb 12 (declared_length bytes) && leb (declared_length bytes) (length bytes)
    then prefix (take 4 bytes) rest
    else none

pub record IsTag (name bytes : List ℕ) : Type 0 where
  pub starts : take 4 bytes ≡ name
  pub declares : declared_length bytes ≡ length bytes
  pub long_enough : 12 ≤ length bytes

pub Declares : List ℕ → List ℕ → Type 0
Declares name bytes = length bytes < 2 ^ 32 → IsTag name bytes

-- How every generator writes a tag: the name, the header's length, the length, the rest.
pub tag-Declares :
    (a b c d header n : ℕ) (body : List ℕ)
    → n ≡ 12 + length body
    → Declares (a ∷ b ∷ c ∷ d ∷ []) ((a ∷ b ∷ c ∷ d ∷ []) ++ be32 header ++ be32 (u32 n) ++ body)
unfolding Declares
tag-Declares a b c d header n body e short = record {
  starts = refl;
  declares = omega (arith, e, short, of_be-be32 (u32 n));
  long_enough = omega arith;
}

declared_length-append :
    (s rest : List ℕ) → 12 ≤ length s → declared_length (s ++ rest) ≡ declared_length s
declared_length-append s rest h =
    let four : 4 ≤ length (drop 8 s) = omega (arith, length-drop 8 s) in
    ap (λ l. of_be 0 (take 4 l)) (drop-append_within 8 s rest (omega arith))
    ∙ ap (of_be 0) (take-append_within 4 (drop 8 s) rest four)

-- A reader that meets a tag takes its name and goes on behind it.
pub walk_tags-append :
    (name s rest : List ℕ) (fuel : ℕ)
    → IsTag name s
    → walk_tags (suc fuel) (s ++ rest) ≡ prefix name (walk_tags fuel rest)
unfolding walk_tags
walk_tags-append name [] rest fuel t = absurd (let e : 12 ≤ 0 = t.long_enough in omega (arith, e))
walk_tags-append name (b ∷ bs) rest fuel t =
    let s : List ℕ = b ∷ bs in
    let declared : declared_length (s ++ rest) ≡ length s =
      declared_length-append s rest t.long_enough ∙ t.declares in
    let taken = take-append_within 4 s rest (omega (arith, t.long_enough)) ∙ t.starts in
    let dropped : drop (declared_length (s ++ rest)) (s ++ rest) ≡ rest =
      ap (λ n. drop n (s ++ rest)) declared ∙ drop-append_exact (length s) s rest refl in
    let long : leb 12 (declared_length (s ++ rest)) ≡ true =
      le→leb 12 (declared_length (s ++ rest)) (omega (arith, declared, t.long_enough)) in
    let inside : leb (declared_length (s ++ rest)) (length (s ++ rest)) ≡ true =
      le→leb (declared_length (s ++ rest)) (length (s ++ rest))
        (omega (arith, declared, length-append s rest)) in
    ap₂
      (λ b c.
        if b && c
        then prefix (take 4 (s ++ rest))
            (walk_tags fuel (drop (declared_length (s ++ rest)) (s ++ rest)))
        else none)
      long inside
    ∙ ap₂ (λ n l. prefix n (walk_tags fuel l)) taken dropped

-- The sections of a file and the names that they are to have.
unfoldable pub AreTags : List (List ℕ) → List (List ℕ) → Type 0
AreTags [] [] = Unit
AreTags [] (s ∷ ss) = ⊥
AreTags (n ∷ ns) [] = ⊥
AreTags (n ∷ ns) (s ∷ ss) = Declares n s × AreTags ns ss

sections : List (List ℕ) → List ℕ
sections ss = concat_map (λ s. s) ss

length-sections : (ss : List (List ℕ)) → length (sections ss) ≡ total_length ss
unfolding sections total_length
length-sections [] = refl
length-sections (s ∷ ss) = omega (arith, length-append s (sections ss), length-sections ss)

walk_tags-sections :
    (names ss : List (List ℕ))
    → AreTags names ss
    → total_length ss < 2 ^ 32
    → walk_tags (length names) (sections ss) ≡ some names
unfolding AreTags sections total_length Declares
walk_tags-sections [] [] tags short = unfold walk_tags in refl
walk_tags-sections [] (s ∷ ss) tags short = absurd tags
walk_tags-sections (n ∷ ns) [] tags short = absurd tags
walk_tags-sections (n ∷ ns) (s ∷ ss) (t, ts) short =
    walk_tags-append n s (sections ss) (length ns) (t (omega arith))
    ∙ ap (prefix n) (walk_tags-sections ns ss ts (omega arith))

-- The header gives its own length and the file's, and the tags lead to the file's end.
pub record IsFile (names : List (List ℕ)) (file : List ℕ) : Type 0 where
  pub starts : take 4 file ≡ pmai_tag
  pub header_length : of_be 0 (take 4 (drop 4 file)) ≡ 28
  pub declares : declared_length file ≡ length file
  pub tags : walk_tags (length names) (drop 28 file) ≡ some names

pub file_of-IsFile :
    (names ss : List (List ℕ))
    → AreTags names ss
    → length (file_of ss) < 2 ^ 32
    → IsFile names (file_of ss)
unfolding file_of sections write_pmai_header
file_of-IsFile names ss tags short =
    let whole : length (file_of ss) ≡ 28 + total_length ss = omega (arith, length-sections ss) in
    record {
      starts = refl;
      header_length = refl;
      declares = omega (arith, whole, short, of_be-be32 (u32 (28 + total_length ss)));
      tags = walk_tags-sections names ss tags (omega (arith, whole, short));
    }

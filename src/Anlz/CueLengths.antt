-- ===== src/Anlz/CueLengths.antt =====
-- The length that a PCO2 list with cues declares, against the bytes that are written.
use bvault_app.Prelude.{
  ℕ, ◌+◌, ◌-◌, ◌^◌, ◌<◌, ◌≡◌, refl, arith, Bool, true, false, List, [], ◌∷◌, ◌++◌, concat_map,
  length, length-append, Option, some, none, if◌then◌else◌, of_be-be32, u32, replicate, be32,
}
use bvault_app.Text.{Text, as_bytes}
use bvault_app.Track.{Floats, CuePoint}
use bvault_app.Anlz.Cues.{
  cue_type_code, base_entry_size, comment_len, comment_bytes, color_bytes, color_of, loop_end,
  pco2_entry, entries_size, generate_pco2_entries,
}
use bvault_app.Anlz.Tags.{declared_length}

-- The bytes that an entry lacks: 12 of a hot cue's 56 and 4 of a memory cue's 40, and a
-- comment's final zero makes one of them good.
pub shortfall : Bool → Option Text → ℕ
shortfall true none = 12
shortfall true (some c) = 11
shortfall false none = 4
shortfall false (some c) = 3

length-if :
    (b : Bool) (xs ys : List ℕ) (n : ℕ)
    → length xs ≡ n
    → length ys ≡ n
    → length (if b then xs else ys) ≡ n
length-if true xs ys n p q = p
length-if false xs ys n p q = q

-- What an entry holds behind its fixed 36 bytes.
length-entry_tail :
    (hot : Bool) (comment : Option Text) (colors : List ℕ)
    → length colors ≡ 8
    → length (comment_bytes comment ++ (if hot then colors else [])) + shortfall hot comment + 36
      ≡ base_entry_size hot + comment_len comment
unfolding comment_bytes shortfall base_entry_size comment_len
length-entry_tail true none colors e = omega (arith, e)
length-entry_tail false none colors e = omega arith
length-entry_tail true (some c) colors e =
    omega
      (arith, e, length-append (as_bytes c ++ 0 ∷ []) colors, length-append (as_bytes c) (0 ∷ []))
length-entry_tail false (some c) colors e =
    let nil : List ℕ = [] in
    omega (arith, length-append (as_bytes c ++ 0 ∷ []) nil, length-append (as_bytes c) (0 ∷ []))

-- An entry is its first twenty bytes, four of the loop's end, twelve more and the tail.
length-framed :
    (front end comment colors : List ℕ)
    → length front ≡ 20
    → length end ≡ 4
    → length (front ++ end ++ be32 0 ++ replicate 8 0 ++ comment ++ colors)
      ≡ 36 + length (comment ++ colors)
length-framed front end comment colors f e = omega (
  arith,
  f,
  e,
  length-append front end,
  length-append (front ++ end) (be32 0),
  length-append (front ++ end ++ be32 0) (replicate 8 0),
  length-append (front ++ end ++ be32 0 ++ replicate 8 0) comment,
  length-append (front ++ end ++ be32 0 ++ replicate 8 0 ++ comment) colors,
  length-append comment colors,
)

module _ (fl : Floats) where
  length-loop_end : (c : CuePoint fl.Float) → length (loop_end fl c) ≡ 4
  unfolding loop_end
  length-loop_end c =
      length-if (fl.is_positive c.loop_ms) (be32 (fl.as_u32 (fl.plus c.time_ms c.loop_ms)))
        (be32 0xFFFF_FFFF) 4 refl refl

  length-pco2_entry :
      (hot : Bool) (c : CuePoint fl.Float)
      → length (pco2_entry fl hot c) + shortfall hot c.comment
        ≡ base_entry_size hot + comment_len c.comment
  unfolding pco2_entry
  length-pco2_entry hot c =
      let colors = color_bytes (color_of c.color c.hot_cue) in
      let eight : length colors ≡ 8 = unfold color_bytes in refl in
      let front : List ℕ =
        (b'P' ∷ b'C' ∷ b'P' ∷ b'2' ∷ [])
        ++ be32 (u32 (base_entry_size hot + comment_len c.comment - 4))
        ++ be32 c.hot_cue
        ++ be32 (cue_type_code c.cue_type)
        ++ be32 (fl.as_u32 c.time_ms) in
      let whole : length (pco2_entry fl hot c)
          ≡ 36 + length (comment_bytes c.comment ++ (if hot then colors else [])) =
        length-framed front (loop_end fl c) (comment_bytes c.comment) (if hot then colors else [])
          refl (length-loop_end c) in
      omega (arith, whole, length-entry_tail hot c.comment colors eight)

  pub total_shortfall : Bool → List (CuePoint fl.Float) → ℕ
  total_shortfall hot [] = 0
  total_shortfall hot (c ∷ cs) = shortfall hot c.comment + total_shortfall hot cs

  length-entries :
      (hot : Bool) (cs : List (CuePoint fl.Float))
      → length (concat_map (pco2_entry fl hot) cs) + total_shortfall hot cs ≡ entries_size fl hot cs
  unfolding entries_size total_shortfall
  length-entries hot [] = omega arith
  length-entries hot (c ∷ cs) = omega (
    arith,
    length-append (pco2_entry fl hot c) (concat_map (pco2_entry fl hot) cs),
    length-pco2_entry hot c,
    length-entries hot cs,
  )

  -- A PCO2 list is shorter than the length that it declares by 12 bytes for each hot cue, by 4
  -- for each memory cue, less one for each comment (below 4 GiB).
  pub generate_pco2_entries_declared :
      (hot : Bool) (cs : List (CuePoint fl.Float))
      → 20 + entries_size fl hot cs < 2 ^ 32
      → declared_length (generate_pco2_entries fl hot cs)
        ≡ length (generate_pco2_entries fl hot cs) + total_shortfall hot cs
  unfolding generate_pco2_entries
  generate_pco2_entries_declared hot cs h =
      omega (arith, length-entries hot cs, of_be-be32 (20 + entries_size fl hot cs) h)

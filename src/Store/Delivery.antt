-- ===== src/Store/Delivery.antt =====
-- raw.rs: what a store of a temporary file leaves behind.
use bvault_app.Prelude.{ℕ, ◌≡◌, ◌≢◌, ◌⊎◌, refl, ◌∙◌, inl, inr, some, List, take, Bool-cases}
use bvault_app.Text.{Text}
use bvault_app.Transfer.Files.{
  Drive, lookup, remove, put as set_file, lookup-put_other, lookup-put_same, lookup-remove_other,
}
use bvault_app.Store.{join}
use bvault_app.Store.Raw.{
  Answers, Stored, stored, failed, panicked, with_tmp, rename, write_at, cleaned_up, move_to,
  store_from_temp, rel_path,
}

-- At `target` stands what stood there or the new bytes, these if the call succeeds; other files, but
-- those at `temp` and `tmp`, are as they were.
pub record Delivers (temp tmp target : Text) (bytes : List ℕ) (d : Drive) (r : Drive × Stored)
    : Type 0 where
  pub whole : (lookup target r.0 ≡ lookup target d) ⊎ (lookup target r.0 ≡ some bytes)
  pub arrived : (rel : Text) → r.1 ≡ stored rel → lookup target r.0 ≡ some bytes
  pub others : (p : Text) → p ≢ target → p ≢ tmp → p ≢ temp → lookup p r.0 ≡ lookup p d

module _ (temp rel target : Text) (bytes : List ℕ) (a : Answers) (d : Drive)
    (apart : target ≢ with_tmp target) (temp_apart : target ≢ temp) where
  write_at-Delivers : Delivers temp (with_tmp target) target bytes d (write_at rel target bytes a d)
  unfolding write_at rename
  write_at-Delivers =
      let tmp = with_tmp target in
      let unmoved : (b : List ℕ) → Delivers temp tmp target bytes d (set_file tmp b d, failed) =
        λ b. record {
          whole = inl (lookup-put_other tmp target b d apart);
          arrived = λ rel q. cc;
          others = λ p q h k. lookup-put_other tmp p b d h;
        } in
      elim (Bool-cases a.written) [
        | inr not_done ↦ rw not_done (unmoved (take a.partial bytes))
        | inl yes_written ↦ elim (Bool-cases a.moved) [
          | inr not_done ↦ rw (yes_written, not_done) (unmoved bytes)
          | inl yes_moved ↦
              rw (yes_written, yes_moved)
                (record {
                  whole = inr (lookup-put_same target bytes (remove tmp (set_file tmp bytes d)));
                  arrived =
                      λ rel q. lookup-put_same target bytes (remove tmp (set_file tmp bytes d));
                  others = λ p q h k.
                      lookup-put_other target p bytes (remove tmp (set_file tmp bytes d)) q
                      ∙ lookup-remove_other tmp p (set_file tmp bytes d) h
                      ∙ lookup-put_other tmp p bytes d h;
                })
        ]
      ]

  cleaned_up-Delivers :
      (r : Drive × Stored)
      → Delivers temp (with_tmp target) target bytes d r
      → Delivers temp (with_tmp target) target bytes d (cleaned_up temp a r)
  unfolding cleaned_up
  cleaned_up-Delivers (e, failed) v = v
  cleaned_up-Delivers (e, panicked) v = v
  cleaned_up-Delivers (e, stored rel) v = elim (Bool-cases a.cleaned) [
    | inr not_done ↦ rw not_done v
    | inl clean ↦ rw clean (
        let same = lookup-remove_other temp target e temp_apart in
        record {
          whole = inr (same ∙ v.arrived rel refl);
          arrived = λ rel' q. same ∙ v.arrived rel refl;
          others = λ p q h k. lookup-remove_other temp p e k ∙ v.others p q h k;
        })
  ]

  move_to-Delivers :
      Delivers temp (with_tmp target) target bytes d (move_to temp rel target bytes a d)
  unfolding move_to rename
  move_to-Delivers = elim (Bool-cases a.renamed) [
    | inr not_done ↦
        rw not_done (cleaned_up-Delivers (write_at rel target bytes a d) write_at-Delivers)
    | inl renamed ↦ rw renamed (record {
      whole = inr (lookup-put_same target bytes (remove temp d));
      arrived = λ rel q. lookup-put_same target bytes (remove temp d);
      others = λ p q h k.
          lookup-put_other target p bytes (remove temp d) q ∙ lookup-remove_other temp p d k;
    })
  ]

-- However the calls of the file system end, a store of a temporary file leaves at the content's place
-- either what stood there or the whole new file, the latter if it reports success, and touches no
-- other file than the two temporary ones. The content's place is no temporary file's.
pub store_from_temp-Delivers :
    (root temp hash ext rel : Text) (bytes : List ℕ) (a : Answers) (d : Drive)
    → rel_path hash ext ≡ some rel
    → lookup temp d ≡ some bytes
    → join root rel ≢ with_tmp (join root rel)
    → join root rel ≢ temp
    → Delivers temp
        (with_tmp (join root rel))
        (join root rel)
        bytes
        d
        (store_from_temp root temp hash ext a d)
unfolding store_from_temp
store_from_temp-Delivers root temp hash ext rel bytes a d place there apart temp_apart =
    let target = join root rel in
    elim (Bool-cases a.dir_created) [
      | inr not_done ↦
          rw (place, store_from_temp)
            (rw not_done
              (record { whole = inl refl; arrived = λ rel q. cc; others = λ p q h k. refl }))
      | inl made ↦
          rw (place, store_from_temp)
            (rw made (
              rw (there, store_from_temp)
                (move_to-Delivers temp rel target bytes a d apart temp_apart)))
    ]

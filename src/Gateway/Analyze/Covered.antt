-- ===== src/Gateway/Analyze/Covered.antt =====
-- routes.rs: after a request to analyse, nothing that it asked for is left out.
use Prim.Native.String.{String}
use bvault_app.Prelude.{
  ℕ, ◌+◌, ◌≡◌, ◌⊎◌, refl, sym, subst, ◌∙◌, inl, inr, arith, true, false, Option, none, List, [],
  ◌∷◌, map, length, All, Bool-cases,
}
use bvault_app.Jobs.{analysis}
use bvault_app.Jobs.Active.{IsActive, enqueue-IsActive, enqueue-keeps-IsActive}
use bvault_app.Gateway.{External, Config, AppState, analyzed}
use bvault_app.Gateway.Analyze.{submit, submit_missing, count_analyzed}

module _ (x : External) (config : Config) where
  -- The track is analysed, or a job for it is waiting or running.
  abbrev pub IsCovered : AppState → String × String → Type 0
  IsCovered st t = (analyzed x config t.0 st ≡ true) ⊎ IsActive analysis t.0 st.queue

  pub submit_missing-artifacts :
      (now : ℕ) (tp : Option String) (tracks : List (String × String)) (st : AppState)
      → let st' = (submit_missing x config now tp tracks st).0 in
        (st'.artifacts ≡ st.artifacts) × (st'.meta ≡ st.meta)
  unfolding submit_missing
  submit_missing-artifacts now tp [] st = (refl, refl)
  submit_missing-artifacts now tp ((hash, raw) ∷ tracks) st =
      elim (Bool-cases (analyzed x config hash st)) [
        | inl there ↦ rw there (submit_missing-artifacts now tp tracks st)
        | inr absent ↦ rw absent (
            let st1 = submit x config now tp hash raw none st in
            let (a, m) = submit_missing-artifacts now tp tracks st1 in unfold submit in (a, m))
      ]

  submit_missing-keeps-IsActive :
      (now : ℕ) (tp : Option String) (tracks : List (String × String)) (st : AppState)
      (key : String)
      → IsActive analysis key st.queue
      → IsActive analysis key (submit_missing x config now tp tracks st).0.queue
  unfolding submit_missing
  submit_missing-keeps-IsActive now tp [] st key h = h
  submit_missing-keeps-IsActive now tp ((hash, raw) ∷ tracks) st key h =
      elim (Bool-cases (analyzed x config hash st)) [
        | inl there ↦ rw there (submit_missing-keeps-IsActive now tp tracks st key h)
        | inr absent ↦ rw absent (
            submit_missing-keeps-IsActive now tp tracks (submit x config now tp hash raw none st)
              key
              (unfold submit in
                enqueue-keeps-IsActive analysis hash _ _ _ now st.queue analysis key h))
      ]

  analyzed-artifacts :
      (hash : String) (st st' : AppState)
      → st'.artifacts ≡ st.artifacts
      → analyzed x config hash st' ≡ analyzed x config hash st
  unfolding analyzed
  analyzed-artifacts hash st st' e = rw e refl

  -- One turn of the loop.
  submit_missing-skip :
      (now : ℕ) (tp : Option String) (hash raw : String) (tracks : List (String × String))
      (st : AppState)
      → analyzed x config hash st ≡ true
      → submit_missing x config now tp ((hash, raw) ∷ tracks) st
        ≡ submit_missing x config now tp tracks st
  unfolding submit_missing
  submit_missing-skip now tp hash raw tracks st there = rw there refl

  submit_missing-submit :
      (now : ℕ) (tp : Option String) (hash raw : String) (tracks : List (String × String))
      (st : AppState)
      → analyzed x config hash st ≡ false
      → (submit_missing x config now tp ((hash, raw) ∷ tracks) st).0
        ≡ (submit_missing x config now tp tracks (submit x config now tp hash raw none st)).0
  unfolding submit_missing
  submit_missing-submit now tp hash raw tracks st absent = rw absent refl

  pub submit_missing-IsCovered :
      (now : ℕ) (tp : Option String) (tracks : List (String × String)) (st : AppState)
      → All (IsCovered (submit_missing x config now tp tracks st).0) tracks
  submit_missing-IsCovered now tp [] st = tt
  submit_missing-IsCovered now tp ((hash, raw) ∷ tracks) st =
      let st1 = submit x config now tp hash raw none st in
      elim (Bool-cases (analyzed x config hash st)) [
        | inl there ↦
            let after = (submit_missing x config now tp tracks st).0 in
            let kept = (submit_missing-artifacts now tp tracks st).0 in
            subst (λ r. All (IsCovered r.0) ((hash, raw) ∷ tracks))
              (sym (submit_missing-skip now tp hash raw tracks st there))
              (
                inl (analyzed-artifacts hash st after kept ∙ there),
                submit_missing-IsCovered now tp tracks st,
              )
        | inr absent ↦
            subst (λ r. All (IsCovered r) ((hash, raw) ∷ tracks))
              (sym (submit_missing-submit now tp hash raw tracks st absent))
              (
                inr (
                    submit_missing-keeps-IsActive now tp tracks st1 hash
                      (unfold submit in enqueue-IsActive analysis hash _ _ _ now st.queue)),
                submit_missing-IsCovered now tp tracks st1,
              )
      ]

  pub count_analyzed-artifacts :
      (hashes : List String) (st st' : AppState)
      → st'.artifacts ≡ st.artifacts
      → count_analyzed x config hashes st' ≡ count_analyzed x config hashes st
  unfolding count_analyzed
  count_analyzed-artifacts [] st st' e = refl
  count_analyzed-artifacts (hash ∷ hashes) st st' e =
      rw (analyzed-artifacts hash st st' e, count_analyzed-artifacts hashes st st' e) refl

  -- Each track is counted once: as analysed before, or as submitted.
  pub submit_missing-count :
      (now : ℕ) (tp : Option String) (tracks : List (String × String)) (st : AppState)
      → (submit_missing x config now tp tracks st).1
          + count_analyzed x config (map (λ t. t.0) tracks) st
        ≡ length tracks
  unfolding submit_missing count_analyzed
  submit_missing-count now tp [] st = omega arith
  submit_missing-count now tp ((hash, raw) ∷ tracks) st =
      let st1 = submit x config now tp hash raw none st in
      elim (Bool-cases (analyzed x config hash st)) [
        | inl there ↦ rw there (omega (arith, submit_missing-count now tp tracks st))
        | inr absent ↦ rw absent (
            let same =
              count_analyzed-artifacts (map (λ t. t.0) tracks) st st1 (unfold submit in refl) in
            omega (arith, submit_missing-count now tp tracks st1, same))
      ]

-- ===== src/Gateway/Analyze/Progress.antt =====
-- routes.rs: when the progress of a batch says that it is complete.
use Prim.Native.String.{String}
use bvault_app.Prelude.{
  ℕ, ◌+◌, ◌≡◌, ◌≤◌, ◌<◌, ◌⊎◌, refl, sym, ◌∙◌, inl, inr, arith, Bool, true, false, some, List, [],
  ◌∷◌, length, leb, All, Bool-cases,
}
use bvault_app.Jobs.{analysis}
use bvault_app.Jobs.Queries.{count_dead}
use bvault_app.Jobs.Queries.Dead.{AreDistinctKeys, count_dead-cons, count_dead-nil}
use bvault_app.Catalog.{Batch, get_batch}
use bvault_app.Gateway.{External, Config, AppState, done, analyzed}
use bvault_app.Gateway.Analyze.{BatchProgress, count_analyzed, batch_progress}

abbrev pub as_count : Bool → ℕ
as_count true = 1
as_count false = 0

module _ (x : External) (config : Config) (st : AppState) where
  abbrev pub dead_rows : String → ℕ
  dead_rows hash = count_dead analysis (hash ∷ []) st.queue

  -- The track is analysed, or its job is dead.
  abbrev pub IsSettled : String → Type 0
  IsSettled hash = (analyzed x config hash st ≡ true) ⊎ (0 < dead_rows hash)

  -- It is counted once at most.
  abbrev pub IsSingle : String → Type 0
  IsSingle hash = as_count (analyzed x config hash st) + dead_rows hash ≤ 1

  tally : List String → ℕ
  tally hashes = count_analyzed x config hashes st + count_dead analysis hashes st.queue

  tally-cons :
      (hash : String) (hashes : List String)
      → AreDistinctKeys (hash ∷ hashes)
      → tally (hash ∷ hashes) ≡ as_count (analyzed x config hash st) + dead_rows hash + tally hashes
  unfolding tally count_analyzed AreDistinctKeys
  tally-cons hash hashes d = ground (arith, count_dead-cons analysis hash hashes st.queue d.0)

  tally-IsSettled :
      (hashes : List String)
      → AreDistinctKeys hashes
      → All IsSettled hashes
      → length hashes ≤ tally hashes
  unfolding AreDistinctKeys
  tally-IsSettled [] d h = omega arith
  tally-IsSettled (hash ∷ hashes) d (inl there, h) =
      let step = tally-cons hash hashes d in
      let one : as_count (analyzed x config hash st) ≡ 1 = rw there refl in
      omega (arith, step, one, tally-IsSettled hashes d.1 h)
  tally-IsSettled (hash ∷ hashes) d (inr dead, h) =
      let step = tally-cons hash hashes d in omega (arith, step, dead, tally-IsSettled hashes d.1 h)

  tally-le :
      (hashes : List String)
      → AreDistinctKeys hashes
      → All IsSingle hashes
      → tally hashes ≤ length hashes
  unfolding AreDistinctKeys
  tally-le [] d h = unfold tally count_analyzed in omega (arith, count_dead-nil analysis st.queue)
  tally-le (hash ∷ hashes) d h =
      omega (arith, tally-cons hash hashes d, h.0, tally-le hashes d.1 h.1)

  IsSettled-tally :
      (hashes : List String)
      → AreDistinctKeys hashes
      → All IsSingle hashes
      → length hashes ≤ tally hashes
      → All IsSettled hashes
  unfolding AreDistinctKeys
  IsSettled-tally [] d h e = tt
  IsSettled-tally (hash ∷ hashes) d h e =
      let step = tally-cons hash hashes d in
      let bound = tally-le hashes d.1 h.1 in
      let rest : length hashes ≤ tally hashes = omega (arith, h.0) in
      (
        elim (Bool-cases (analyzed x config hash st)) [
          | inl there ↦ inl there
          | inr absent ↦
              let none_here : as_count (analyzed x config hash st) ≡ 0 = rw absent refl in
              inr (omega (arith, none_here))
        ],
        IsSettled-tally hashes d.1 h.1 rest,
      )

  -- A batch of distinct tracks is called complete when every track of it is analysed or has a dead
  -- job, and then only, if no track is counted twice: analysed and dead, or with two dead jobs.
  pub batch_progress-complete :
      (user id : ℕ) (b : Batch) (p : BatchProgress)
      → get_batch user id st.meta ≡ some b
      → AreDistinctKeys b.hashes
      → batch_progress x config user id st ≡ done p
      → (All IsSettled b.hashes → p.complete ≡ true)
        × (All IsSingle b.hashes → p.complete ≡ true → All IsSettled b.hashes)
  unfolding batch_progress tally
  batch_progress-complete user id b p found d e =
      let made : leb (length b.hashes) (tally b.hashes) ≡ p.complete =
        answer (rw (found, batch_progress) at e) in
      (
        (λ settled. sym made ∙ (let enough = tally-IsSettled b.hashes d settled in ground arith)),
        (λ single whole.
            let enough : leb (length b.hashes) (tally b.hashes) ≡ true = made ∙ whole in
            IsSettled-tally b.hashes d single (ground arith)),
      )
    where
      answer : {q p : BatchProgress} → done q ≡ done p → q.complete ≡ p.complete
      answer e = cc

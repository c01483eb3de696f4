-- ===== src/Hash/Streaming.antt =====
-- Streaming gives the identity that hashing the whole content gives.
use mathlib.Core.List.{flatten}
use bvault_app.Prelude.{
  ℕ, zero, suc, ◌+◌, ◌-◌, ◌≤◌, ◌<◌, min, ◌≡◌, refl, ap, ap₂, sym, subst, ◌∙◌, arith, List, [], ◌∷◌,
  ◌++◌, append_assoc, append-nil, length, length-append, length-take, take, take-append, take-min,
  ltb, Bool-cases, if◌then◌else◌, u64, le64, inl, inr,
}
use bvault_app.Hash.{
  ContentHasher, sample_bytes, new, update, update_all, len, hash_bytes, finalize,
}

-- What a hasher with a window of `n` bytes holds once it has seen `seen`.
record Tracks (n : ℕ) (h : ContentHasher) (seen : List ℕ) : Type 0 where
  sampled : h.sample ≡ take n seen
  counted : h.total ≡ u64 (length seen)

u64-add : (a b : ℕ) → u64 (u64 a + b) ≡ u64 (a + b)
u64-add a b = omega arith

-- One step of the sample, for a window of `n` bytes.
abbrev grown : ℕ → List ℕ → List ℕ → List ℕ
grown n s bytes =
    if ltb (length s) n then s ++ take (min (n - length s) (length bytes)) bytes else s

grown_take : (n : ℕ) (seen bytes : List ℕ) → grown n (take n seen) bytes ≡ take n (seen ++ bytes)
grown_take n seen bytes = elim (Bool-cases (ltb (length (take n seen)) n)) [
  | inl room ↦
      let size = length-take n seen in
      let less : length (take n seen) < n = ground arith in
      let left : n - length (take n seen) ≡ n - length seen = omega arith in
      rw room (
        ap (λ bs. take n seen ++ bs) (take-min (n - length (take n seen)) bytes)
        ∙ ap (λ k. take n seen ++ take k bytes) left
        ∙ sym (take-append n seen bytes))
  | inr full ↦
      let size = length-take n seen in
      let more : n ≤ length (take n seen) = ground arith in
      let none' : 0 ≡ n - length seen = omega arith in
      rw full (
        sym (append-nil (take n seen))
        ∙ ap (λ k. take n seen ++ take k bytes) none'
        ∙ sym (take-append n seen bytes))
]

update_fields :
    (n : ℕ) (h : ContentHasher) (bytes : List ℕ)
    → n ≡ sample_bytes
    → ((update h bytes).sample ≡ grown n h.sample bytes)
      × ((update h bytes).total ≡ u64 (h.total + length bytes))
unfolding update
update_fields n h bytes e = rw e (elim (Bool-cases (ltb (length h.sample) sample_bytes)) [
  | inl room ↦ rw room (refl, refl)
  | inr full ↦ rw full (refl, refl)
])

update-Tracks :
    (n : ℕ) (h : ContentHasher) (seen bytes : List ℕ)
    → n ≡ sample_bytes
    → Tracks n h seen
    → Tracks n (update h bytes) (seen ++ bytes)
update-Tracks n h seen bytes e t =
    let (sample, total) = update_fields n h bytes e in
    record {
      sampled = sample ∙ ap (λ s. grown n s bytes) t.sampled ∙ grown_take n seen bytes;
      counted =
          total
          ∙ ap (λ (k : ℕ). u64 (k + length bytes)) t.counted
          ∙ u64-add (length seen) (length bytes)
          ∙ ap (λ (k : ℕ). u64 k) (sym (length-append seen bytes));
    }

update_all-Tracks :
    (n : ℕ) (h : ContentHasher) (seen : List ℕ) (chunks : List (List ℕ))
    → n ≡ sample_bytes
    → Tracks n h seen
    → Tracks n (update_all h chunks) (seen ++ flatten chunks)
unfolding update_all flatten
update_all-Tracks n h seen [] e t = subst (Tracks n h) (sym (append-nil seen)) t
update_all-Tracks n h seen (chunk ∷ chunks) e t =
    subst (Tracks n (update_all (update h chunk) chunks)) (append_assoc seen chunk (flatten chunks))
      (update_all-Tracks n (update h chunk) (seen ++ chunk) chunks e
        (update-Tracks n h seen chunk e t))

new-Tracks : (n : ℕ) → n ≡ sample_bytes → Tracks n new []
unfolding new
new-Tracks n e = record { sampled = empty n; counted = refl }
  where
    empty : (n : ℕ) → ◌≡◌ {A = List ℕ} [] (take n [])
    empty zero = refl
    empty (suc n) = refl

-- However a content is cut into chunks, feeding them in turn gives the identity of the whole and
-- its length modulo 2 ^ 64, for any function in the place of `xxh3_64`.
pub finalize-update_all :
    (xxh3_64 : List ℕ → ℕ) (chunks : List (List ℕ))
    → (finalize xxh3_64 (update_all new chunks) ≡ hash_bytes xxh3_64 (flatten chunks))
      × (len (update_all new chunks) ≡ u64 (length (flatten chunks)))
unfolding finalize hash_bytes len
finalize-update_all xxh3_64 chunks = whole sample_bytes refl
  where
    whole :
        (n : ℕ)
        → n ≡ sample_bytes
        → (xxh3_64 ((update_all new chunks).sample ++ le64 (update_all new chunks).total)
            ≡ xxh3_64 (
                take (min (length (flatten chunks)) sample_bytes) (flatten chunks)
                ++ le64 (u64 (length (flatten chunks)))))
          × ((update_all new chunks).total ≡ u64 (length (flatten chunks)))
    whole n e =
        let t = update_all-Tracks n new [] chunks e (new-Tracks n e) in
        let same : min n (length (flatten chunks)) ≡ min (length (flatten chunks)) sample_bytes =
          omega arith in
        (
          ap₂ (λ s k. xxh3_64 (s ++ le64 k))
              (t.sampled
                ∙ sym (take-min n (flatten chunks))
                ∙ ap (λ k. take k (flatten chunks)) same)
              t.counted,
          t.counted,
        )

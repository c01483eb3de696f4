-- ===== src/Pdb/Entities/Numbering.antt =====
-- A map of names to ids is the list of the names in the order of their first use: the id is the
-- place in that list, counted from 1.
use bvault_app.Prelude.{
  ℕ, suc, ◌+◌, ◌-◌, ◌^◌, ◌≤◌, ◌<◌, ◌≡◌, refl, ap, ap₂, sym, ◌∙◌, inl, inr, arith, Option, some,
  none, List, [], ◌∷◌, ◌++◌, if◌then◌else◌, length, length-append, Option-cases,
}
use bvault_app.Pdb.Entities.{
  KeyEq, EntityMap, no_entities, find, created, get_or_create, insert_by_id, sort_by_id,
}

module _ {K : Type 0} where
  -- The names with their places from `first` on.
  unfoldable pub numbered : ℕ → List K → List (K × ℕ)
  numbered first [] = []
  numbered first (k ∷ ks) = (k, first) ∷ numbered (suc first) ks

  numbered-append :
      (first : ℕ) (ks : List K) (k : K)
      → numbered first (ks ++ k ∷ []) ≡ numbered first ks ++ (k, first + length ks) ∷ []
  unfolding numbered
  numbered-append first [] k =
      ap (λ (n : ℕ). (k, n) ∷ []) (let e : first ≡ first + 0 = omega arith in e)
  numbered-append first (x ∷ ks) k = ap (◌∷◌ (x, first)) (
      numbered-append (suc first) ks k
      ∙ ap (λ (n : ℕ). numbered (suc first) ks ++ (k, n) ∷ [])
          (let e : suc first + length ks ≡ first + suc (length ks) = omega arith in e))

  -- Consecutive ids are in order.
  pub sort_by_id-numbered :
      (first : ℕ) (ks : List K) → sort_by_id (numbered first ks) ≡ numbered first ks
  unfolding numbered sort_by_id
  sort_by_id-numbered first [] = refl
  sort_by_id-numbered first (k ∷ ks) =
      ap (insert_by_id (k, first)) (sort_by_id-numbered (suc first) ks) ∙ lowest k first ks
    where
      lowest :
          (k : K) (first : ℕ) (ks : List K)
          → insert_by_id (k, first) (numbered (suc first) ks) ≡ (k, first) ∷ numbered (suc first) ks
      lowest k first [] = unfold insert_by_id in refl
      lowest k first (x ∷ ks) = unfold insert_by_id in ground arith

  module _ (key : KeyEq K) where
    -- The place of a name, from `first` on.
    unfoldable pub place : ℕ → K → List K → Option ℕ
    place first k [] = none
    place first k (x ∷ ks) = if key.equal k x then some first else place (suc first) k ks

    unfoldable pub placed : K → List K → Option ℕ → List K × ℕ
    placed k seen (some n) = (seen, n)
    placed k seen none = (seen ++ k ∷ [], suc (length seen))

    -- What a map promises: a name keeps its place, and a new one takes the next.
    unfoldable pub request : K → List K → List K × ℕ
    unfolding placed place
    request k seen = placed k seen (place 1 k seen)

    find-numbered :
        (first : ℕ) (k : K) (ks : List K) → find key k (numbered first ks) ≡ place first k ks
    unfolding numbered find place
    find-numbered first k [] = refl
    find-numbered first k (x ∷ ks) =
        ap (λ r. if key.equal k x then some first else r) (find-numbered (suc first) k ks)

    -- The map stands for the names.
    pub record Represents (seen : List K) (s : EntityMap K) : Type 0 where
      pub entries : s.ids ≡ numbered 1 seen
      pub counter : s.next_id ≡ suc (length seen)

    pub no_entities-Represents : Represents [] no_entities
    unfolding no_entities numbered
    no_entities-Represents = record { entries = refl; counter = refl }

    -- One call does what the list of names does.
    pub get_or_create-refines :
        (k : K) (seen : List K) (s : EntityMap K)
        → suc (length seen) < 2 ^ 32 - 1
        → Represents seen s
        → Represents (request k seen).0 (get_or_create key k s).0
          × ((get_or_create key k s).1 ≡ (request k seen).1)
    unfolding get_or_create request
    get_or_create-refines k seen s small r =
        let found : find key k s.ids ≡ place 1 k seen =
          ap (find key k) r.entries ∙ find-numbered 1 k seen in
        rw found (step (place 1 k seen))
      where
        next : suc (length seen) ≡ 1 + length seen
        next = omega arith

        step :
            (o : Option ℕ)
            → Represents (placed k seen o).0 (created key k s o).0
              × ((created key k s o).1 ≡ (placed k seen o).1)
        step (some n) = unfold placed in unfold created in (r, refl)
        step none =
            unfold placed in
            unfold created in
            (
              record {
                entries =
                    ap₂ (λ xs (n : ℕ). xs ++ (k, n) ∷ []) r.entries (r.counter ∙ next)
                    ∙ sym (numbered-append 1 seen k);
                counter = omega (arith, r.counter, length-append seen (k ∷ []));
              },
              r.counter,
            )

    -- A sequence of calls, and the ids that they return.
    pub run : List K → EntityMap K → EntityMap K × List ℕ
    run [] s = (s, [])
    run (k ∷ ks) s = let (t, id) = get_or_create key k s in let (u, ids) = run ks t in (u, id ∷ ids)

    pub run_requests : List K → List K → List K × List ℕ
    run_requests [] seen = (seen, [])
    run_requests (k ∷ ks) seen =
        let (seen', n) = request k seen in let (last, ns) = run_requests ks seen' in (last, n ∷ ns)

    length-request : (k : K) (seen : List K) → length (request k seen).0 ≤ suc (length seen)
    unfolding request placed
    length-request k seen = elim (Option-cases (place 1 k seen)) [
      | inl new ↦ rw new (omega (arith, length-append seen (k ∷ [])))
      | inr (n, old) ↦ rw old (omega arith)
    ]

    run-Represents :
        (ks seen : List K) (s : EntityMap K)
        → length seen + length ks < 2 ^ 32 - 2
        → Represents seen s
        → Represents (run_requests ks seen).0 (run ks s).0
          × ((run ks s).1 ≡ (run_requests ks seen).1)
    unfolding run run_requests
    run-Represents [] seen s small r = (r, refl)
    run-Represents (k ∷ ks) seen s small r =
        let (r', same) = get_or_create-refines k seen s (omega arith) r in
        let (r'', rest) =
          run-Represents ks (request k seen).0 (get_or_create key k s).0
            (omega (arith, length-request k seen)) r' in
        (r'', ap₂ ◌∷◌ same rest)

    -- Whatever names are asked for, in whatever order and however often, the map returns the ids
    -- that the list of the distinct names returns, a name's place in the order of first use, and
    -- the entries sorted by id are the distinct names with the ids from 1 on, as long as the
    -- requests stay below 2^32 - 2.
    pub run-refines :
        (ks : List K)
        → length ks < 2 ^ 32 - 2
        → ((run ks no_entities).1 ≡ (run_requests ks []).1)
          × (sort_by_id (run ks no_entities).0.ids ≡ numbered 1 (run_requests ks []).0)
    run-refines ks small =
        let (r, same) = run-Represents ks [] no_entities (omega arith) no_entities-Represents in
        (same, ap sort_by_id r.entries ∙ sort_by_id-numbered 1 (run_requests ks []).0)

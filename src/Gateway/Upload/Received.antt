-- ===== src/Gateway/Upload/Received.antt =====
-- routes.rs: what is known of the temporary file once all parts have been read.
use text.Mathlib.Text.{◌==◌ as str_eq}
use mathlib.Core.List.{flatten}
use bvault_app.Prelude.{
  ℕ, zero, suc, ◌-◌, ◌≤◌, arith, length, take, drop, length-drop, ◌≡◌, refl, ap, sym, subst, ◌∙◌,
  inl, inr, Bool, true, false, some, List, [], ◌∷◌, ◌++◌, append_assoc, append-nil, map, All,
  Bool-cases,
}
use bvault_app.Text.{Text}
use bvault_app.Hash.{
  ContentHasher, new as new_hasher, update as feed, update_all, finalize, hash_hex, hash_bytes,
}
use bvault_app.Hash.Streaming.{finalize-update_all}
use bvault_app.Transfer.Files.{Drive, lookup, put as set_file, lookup-put_same}
use bvault_app.Gateway.{
  ApiResult, done, not_found, bad_request, unauthorized, internal, jobs_error, meta_error,
}
use bvault_app.Gateway.Upload.{
  Part, Upload, and_then, arrived, settle, receive_chunks, is_audio, with_text, read_file,
  read_parts,
}

-- What succeeds has succeeded in both steps.
pub and_then-done :
    {S A B : Type 0} (r : S × ApiResult A) (k : S → A → S × ApiResult B) (s' : S) (b : B)
    → and_then r k ≡ (s', done b)
    → (s : S) × (a : A) × (r ≡ (s, done a)) × (k s a ≡ (s', done b))
unfolding and_then
and_then-done (s, done a) k s' b e = (s, a, refl, e)
and_then-done (s, not_found) k s' b e = absurd (cc)
and_then-done (s, bad_request) k s' b e = absurd (cc)
and_then-done (s, unauthorized) k s' b e = absurd (cc)
and_then-done (s, internal) k s' b e = absurd (cc)
and_then-done (s, jobs_error) k s' b e = absurd (cc)
and_then-done (s, meta_error f) k s' b e = absurd (cc)

some_injective : {A : Type 0} {a b : A} → some a ≡ some b → a ≡ b
some_injective e = cc

pub done_injective : {A : Type 0} {a b : A} → done a ≡ done b → a ≡ b
done_injective e = cc

abbrev pub bodies : List (List ℕ × Bool) → List (List ℕ)
bodies chunks = map (λ c. c.0) chunks

-- The last chunk that is not empty, or `pending` where none is left.
abbrev pub last_chunk : List ℕ → List (List ℕ) → List ℕ
last_chunk pending [] = pending
last_chunk pending ([] ∷ chunks) = last_chunk pending chunks
last_chunk pending ((b ∷ bs) ∷ chunks) = last_chunk (b ∷ bs) chunks

-- `held` is all of `content` but at most `missing` bytes at its end, all of them of the last chunk.
pub record IsHeld (missing : ℕ) (last content held : List ℕ) : Type 0 where
  pub rest : List ℕ
  pub whole : held ++ rest ≡ content
  pub few : length rest ≤ missing
  pub in_last : length rest ≤ length last

take-drop : (n : ℕ) (xs : List ℕ) → take n xs ++ drop n xs ≡ xs
take-drop zero xs = refl
take-drop (suc n) [] = refl
take-drop (suc n) (x ∷ xs) = ap (◌∷◌ x) (take-drop n xs)

arrived-IsHeld :
    (missing : ℕ) (settled pending : List ℕ)
    → IsHeld missing pending (settled ++ pending) (arrived missing settled pending)
unfolding arrived
arrived-IsHeld missing settled pending =
    let n = length pending - missing in
    record {
      rest = drop n pending;
      whole =
          append_assoc settled (take n pending) (drop n pending)
          ∙ ap (λ t. settled ++ t) (take-drop n pending);
      few = omega (arith, length-drop n pending);
      in_last = omega (arith, length-drop n pending);
    }

-- What the loop that comes to its end leaves in the file, and has hashed.
record IsReceived (temp : Text) (missing : ℕ) (chunks : List (List ℕ)) (h h' : ContentHasher)
    (settled pending : List ℕ) (d' : Drive) : Type 0 where
  held : List ℕ
  there : lookup temp d' ≡ some held
  is_held : IsHeld missing (last_chunk pending chunks) ((settled ++ pending) ++ flatten chunks) held
  hashed : h' ≡ update_all h chunks

settle-IsReceived :
    (temp : Text) (missing : ℕ) (chunk : List ℕ) (chunks : List (List ℕ)) (h h' : ContentHasher)
    (settled pending : List ℕ) (d' : Drive)
    → IsReceived temp missing chunks
        (feed h chunk)
        h'
        (settle settled pending chunk).0
        (settle settled pending chunk).1
        d'
    → IsReceived temp missing (chunk ∷ chunks) h h' settled pending d'
unfolding settle update_all flatten
settle-IsReceived temp missing [] chunks h h' settled pending d' r = record {
  held = r.held;
  there = r.there;
  is_held = r.is_held;
  hashed = r.hashed;
}
settle-IsReceived temp missing (b ∷ bs) chunks h h' settled pending d' r = record {
  held = r.held;
  there = r.there;
  is_held =
      subst (λ content. IsHeld missing (last_chunk (b ∷ bs) chunks) content r.held)
        (append_assoc (settled ++ pending) (b ∷ bs) (flatten chunks)) r.is_held;
  hashed = r.hashed;
}

receive_chunks-IsReceived :
    (temp : Text) (missing : ℕ) (whole : Bool) (chunks : List (List ℕ × Bool)) (h : ContentHasher)
    (settled pending : List ℕ) (d d' : Drive) (h' : ContentHasher)
    → receive_chunks temp missing whole chunks h settled pending d ≡ (d', done h')
    → IsReceived temp missing (bodies chunks) h h' settled pending d'
unfolding receive_chunks update_all flatten
receive_chunks-IsReceived temp missing true [] h settled pending d d' h' e =
    let held = arrived missing settled pending in
    let state : set_file temp held d ≡ d' = ap (λ (r : Drive × ApiResult ContentHasher). r.0) e in
    record {
      held = held;
      there = subst (λ d. lookup temp d ≡ some held) state (lookup-put_same temp held d);
      is_held =
          subst (λ content. IsHeld missing pending content held)
            (sym (append-nil (settled ++ pending))) (arrived-IsHeld missing settled pending);
      hashed = sym (done_injective (ap (λ (r : Drive × ApiResult ContentHasher). r.1) e));
    }
receive_chunks-IsReceived temp missing false [] h settled pending d d' h' e = absurd (cc)
receive_chunks-IsReceived temp missing whole ((chunk, written) ∷ chunks) h settled pending d d' h'
      e =
    let next = settle settled pending chunk in
    elim (Bool-cases written) [
      | inr failed ↦
          let refused : ◌≡◌ {A = Drive × ApiResult ContentHasher}
              (set_file temp (arrived missing [] ((settled ++ pending) ++ chunk)) d, internal)
              (d', done h') =
            rw (failed) at e in
          absurd (cc)
      | inl good ↦ settle-IsReceived temp missing chunk (bodies chunks) h h' settled pending d' (
          receive_chunks-IsReceived temp missing whole chunks (feed h chunk) next.0 next.1 d d' h'
            (rw (good) at e))
    ]

-- The bytes of a part, and what of them its temporary file may hold.
abbrev pub body_of : Part → List ℕ
body_of p = flatten (bodies p.chunks)

abbrev pub IsHeldOf : Part → List ℕ → Type 0
IsHeldOf p held = IsHeld p.missing (last_chunk [] (bodies p.chunks)) (body_of p) held

module _ (xxh3_64 : List ℕ → ℕ) (Q : Part → Type 0) where
  -- The temporary file that is remembered is that of a part of which `Q` holds, and has what arrived of
  -- its bytes; the hash is that of all of them.
  pub record IsRead (u : Upload) (d : Drive) (temp hash : Text) : Type 0 where
    pub part : Part
    pub of_part : Q part
    pub its_file : part.temp ≡ temp
    pub held : List ℕ
    pub is_held : IsHeldOf part held
    pub there : lookup temp d ≡ some held
    pub identity : hash ≡ hash_hex (hash_bytes xxh3_64 (body_of part))

  abbrev pub AreRead : Upload → Drive → Type 0
  AreRead u d = (temp hash : Text) → u.file ≡ some (temp, hash) → IsRead u d temp hash

  abbrev recorded : Part → Upload → ContentHasher → Upload
  recorded p u h = record u {
    file = some (p.temp, hash_hex (finalize xxh3_64 h));
    file_name = p.file_name;
  }

  hashed_file :
      (p : Part) (u u' : Upload) (d d1 d' : Drive) (h : ContentHasher)
      → Q p
      → receive_chunks p.temp p.missing p.whole p.chunks new_hasher [] [] (set_file p.temp [] d)
        ≡ (d1, done h)
      → ◌≡◌ {A = Drive × ApiResult Upload} (d1, done (recorded p u h)) (d', done u')
      → AreRead u' d'
  hashed_file p u u' d d1 d' h q received last temp hash f =
      let state : d1 ≡ d' = ap (λ (r : Drive × ApiResult Upload). r.0) last in
      let same = done_injective (ap (λ (r : Drive × ApiResult Upload). r.1) last) in
      let pair : ◌≡◌ {A = Text × Text} (p.temp, hash_hex (finalize xxh3_64 h)) (temp, hash) =
        some_injective (ap (λ (u : Upload). u.file) same ∙ f) in
      let got =
        receive_chunks-IsReceived p.temp p.missing p.whole p.chunks new_hasher [] []
          (set_file p.temp [] d) d1 h received in
      subst (λ (t : Text × Text). IsRead u' d' t.0 t.1) pair
        (record {
          part = p;
          of_part = q;
          its_file = refl;
          held = got.held;
          is_held = got.is_held;
          there = subst (λ d. lookup p.temp d ≡ some got.held) state got.there;
          identity =
              ap (λ h. hash_hex (finalize xxh3_64 h)) got.hashed
              ∙ ap hash_hex (finalize-update_all xxh3_64 (bodies p.chunks)).0;
        })

  read_file-AreRead :
      (p : Part) (u u' : Upload) (d d' : Drive)
      → Q p
      → read_file xxh3_64 p u d ≡ (d', done u')
      → AreRead u' d'
  unfolding read_file
  read_file-AreRead p u u' d d' q e temp hash f = elim (Bool-cases p.created) [
    | inr failed ↦
        let refused : ◌≡◌ {A = Drive × ApiResult Upload} (d, internal) (d', done u') =
          rw (failed) at e in
        absurd (cc)
    | inl good ↦
        let (d1, h, received, last) =
          and_then-done
            (receive_chunks p.temp p.missing p.whole p.chunks new_hasher [] []
              (set_file p.temp [] d))
            (λ d h. (d, done (recorded p u h))) d' u' (rw (good) at e) in
        hashed_file p u u' d d1 d' h q received last temp hash f
  ]

  with_text-file : (p : Part) (u : Upload) → (with_text p u).file ≡ u.file
  unfolding with_text
  with_text-file p u = elim (Bool-cases (str_eq p.name "title")) [
    | inl title ↦ rw title refl
    | inr other ↦ rw other (elim (Bool-cases (str_eq p.name "artist")) [
      | inl artist ↦ rw artist refl
      | inr another ↦ rw another refl
    ])
  ]

  pub read_parts-AreRead :
      (parts : List Part) (ends : Bool) (u u' : Upload) (d d' : Drive)
      → All (λ p. Q p) parts
      → AreRead u d
      → read_parts xxh3_64 parts ends u d ≡ (d', done u')
      → AreRead u' d'
  unfolding read_parts
  read_parts-AreRead [] true u u' d d' q h e temp hash f =
      let state : d ≡ d' = ap (λ (r : Drive × ApiResult Upload). r.0) e in
      let same : u ≡ u' = cc in
      let r = h temp hash (ap (λ (u : Upload). u.file) same ∙ f) in
      record {
        part = r.part;
        of_part = r.of_part;
        its_file = r.its_file;
        held = r.held;
        is_held = r.is_held;
        there = subst (λ d. lookup temp d ≡ some r.held) state r.there;
        identity = r.identity;
      }
  read_parts-AreRead [] false u u' d d' q h e temp hash f = absurd (cc)
  read_parts-AreRead (p ∷ parts) ends u u' d d' q h e temp hash f =
      elim (Bool-cases (is_audio p.name)) [
        | inl audio ↦
            let (d1, u1, first, rest) =
              and_then-done (read_file xxh3_64 p u d) (λ d u. read_parts xxh3_64 parts ends u d) d'
                u' (rw (audio) at e) in
            read_parts-AreRead parts ends u1 u' d1 d' q.1 (read_file-AreRead p u u1 d d1 q.0 first)
              rest temp hash f
        | inr other ↦
            let rest : read_parts xxh3_64 parts ends (with_text p u) d ≡ (d', done u') =
              rw (other) at e in
            read_parts-AreRead parts ends (with_text p u) u' d d' q.1
              (λ temp hash f.
                let r = h temp hash (sym (with_text-file p u) ∙ f) in
                record {
                  part = r.part;
                  of_part = r.of_part;
                  its_file = r.its_file;
                  held = r.held;
                  is_held = r.is_held;
                  there = r.there;
                  identity = r.identity;
                })
              rest temp hash f
      ]

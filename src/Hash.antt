-- ===== src/Hash.antt =====
-- crates/bvault-hash/src/lib.rs: the content identity, from memory and from a stream. `xxh3_64`, of
-- the xxhash-rust crate, is a parameter. A `u64` that grows past its range wraps.
pub mod Streaming
pub mod Hex
pub mod Tests
use bvault_app.Prelude.{
  ℕ, zero, suc, ◌+◌, ◌-◌, ◌*◌, ◌/◌, ◌%◌, ◌^◌, min, Bool, List, [], ◌∷◌, ◌++◌, length, take, ltb,
  ◌==◌, if◌then◌else◌, u64, le64,
}

abbrev pub sample_bytes : ℕ
sample_bytes = 1024 * 1024

pub record ContentHasher : Type 0 where
  pub sample : List ℕ
  pub total : ℕ

unfoldable pub new : ContentHasher
new = record { sample = []; total = 0 }

unfoldable pub update : ContentHasher → List ℕ → ContentHasher
update h bytes =
    let total = u64 (h.total + length bytes) in
    if ltb (length h.sample) sample_bytes
    then record {
      sample = h.sample ++ take (min (sample_bytes - length h.sample) (length bytes)) bytes;
      total = total;
    }
    else record h { total = total }

pub len : ContentHasher → ℕ
len h = h.total

unfoldable pub is_empty : ContentHasher → Bool
is_empty h = h.total == 0

-- The chunks of a stream, fed in turn, as the upload handlers and the transfer do.
unfoldable pub update_all : ContentHasher → List (List ℕ) → ContentHasher
update_all h [] = h
update_all h (chunk ∷ chunks) = update_all (update h chunk) chunks

-- `impl Write`: everything is taken.
pub write : ContentHasher → List ℕ → ContentHasher × ℕ
unfolding update
write h buf = (update h buf, length buf)

module _ (xxh3_64 : List ℕ → ℕ) where
  pub hash_bytes : List ℕ → ℕ
  hash_bytes bytes =
      let sample_len = min (length bytes) sample_bytes in
      xxh3_64 (take sample_len bytes ++ le64 (u64 (length bytes)))

  unfoldable pub finalize : ContentHasher → ℕ
  finalize h = xxh3_64 (h.sample ++ le64 h.total)

-- `{hash:016x}`: the sixteen digits of a 64-bit number, most significant first, as ASCII.
unfoldable pub hex_digit : ℕ → ℕ
hex_digit d = if ltb d 10 then b'0' + d else b'a' + (d - 10)

unfoldable pub hex_digits : ℕ → ℕ → List ℕ
unfolding hex_digit
hex_digits zero v = []
hex_digits (suc k) v = hex_digits k (v / 16) ++ hex_digit (v % 16) ∷ []

unfoldable pub hash_hex : ℕ → List ℕ
unfolding hex_digits
hash_hex hash = hex_digits 16 hash

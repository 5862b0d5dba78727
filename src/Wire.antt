-- ===== src/Wire.antt =====
-- What the code calls of salticidae (a git submodule, not part of the repository): `DataStream`
-- with its `<<` and `>>`, `htole`, `letoh`, `get_data_inplace` and `get_hash`. It is a parameter of
-- the model. A stream is a list of bytes, a `uint256_t` a number below 2 ^ 256.
pub mod Roundtrip
use libe2c_cpp.Prelude.{
  ℕ, zero, suc, ◌+◌, ◌^◌, ◌<◌, ◌≡◌, refl, List, [], ◌∷◌, ◌++◌, Option, none, some, length, All,
  Bool, Result, ok, err, Error, stream_failure, ◌>>=◌, or_fail,
}

pub record Salticidae : Type 0 where
  -- `s << (uint32_t)n`, `s << (uint16_t)n`, `s << (int8_t)n`, `s << (uint256_t)h`, raw bytes
  pub put_u32 : ℕ → List ℕ
  pub put_u16 : ℕ → List ℕ
  pub put_u8 : ℕ → List ℕ
  pub put_hash : ℕ → List ℕ
  pub put_data : List ℕ → List ℕ
  -- `s >> x`: the value and the rest of the stream; `none` where it throws
  pub get_u32 : List ℕ → Option (ℕ × List ℕ)
  pub get_u16 : List ℕ → Option (ℕ × List ℕ)
  pub get_u8 : List ℕ → Option (ℕ × List ℕ)
  pub get_hash : List ℕ → Option (ℕ × List ℕ)
  pub get_data : ℕ → List ℕ → Option (List ℕ × List ℕ)
  pub htole : ℕ → ℕ
  pub letoh : ℕ → ℕ
  -- `salticidae::get_hash` of what an object serializes to, and of the integer 0
  pub digest : List ℕ → ℕ
  pub digest_zero : ℕ
  -- `salticidae::Bits`
  pub put_bits : List Bool → List ℕ
  pub get_bits : List ℕ → Option (List Bool × List ℕ)
  -- the conversion of a `uint256_t` to its bytes
  pub to_bytes : ℕ → List ℕ

-- What the code relies on: reading gives back what was written, and leaves the rest.
pub record IsStream (w : Salticidae) : Type 0 where
  pub u32 : (n : ℕ) (rest : List ℕ) → n < 2 ^ 32 → w.get_u32 (w.put_u32 n ++ rest) ≡ some (n, rest)
  pub u16 : (n : ℕ) (rest : List ℕ) → n < 2 ^ 16 → w.get_u16 (w.put_u16 n ++ rest) ≡ some (n, rest)
  pub u8 : (n : ℕ) (rest : List ℕ) → n < 2 ^ 8 → w.get_u8 (w.put_u8 n ++ rest) ≡ some (n, rest)
  pub hash :
      (h : ℕ) (rest : List ℕ) → h < 2 ^ 256 → w.get_hash (w.put_hash h ++ rest) ≡ some (h, rest)
  pub raw : (bs rest : List ℕ) → w.get_data (length bs) (w.put_data bs ++ rest) ≡ some (bs, rest)
  pub raw_empty : w.put_data [] ≡ []
  pub bits : (bs : List Bool) (rest : List ℕ) → w.get_bits (w.put_bits bs ++ rest) ≡ some (bs, rest)
  pub endian : (n : ℕ) → n < 2 ^ 32 → w.letoh (w.htole n) ≡ n
  pub endian_lt : (n : ℕ) → n < 2 ^ 32 → w.htole n < 2 ^ 32

module _ (w : Salticidae) where
  -- `s << htole((uint32_t)n)`, and `s >> n; n = letoh(n)`.
  abbrev pub put_size : ℕ → List ℕ
  put_size n = w.put_u32 (w.htole n)

  abbrev pub read_size : List ℕ → Result (ℕ × List ℕ)
  read_size s = do (n, s') ← or_fail (w.get_u32 s) stream_failure; ok (w.letoh n, s')

  -- `for (const auto &hash: hashes) s << hash`
  unfoldable pub put_hashes : List ℕ → List ℕ
  put_hashes [] = []
  put_hashes (h ∷ hs) = w.put_hash h ++ put_hashes hs

  -- `hashes.resize(n); for (auto &hash: hashes) s >> hash`
  unfoldable pub read_hashes : ℕ → List ℕ → Result (List ℕ × List ℕ)
  read_hashes zero s = ok ([], s)
  read_hashes (suc n) s = do
    (h, s') ← or_fail (w.get_hash s) stream_failure
    (hs, s'') ← read_hashes n s'
    ok (h ∷ hs, s'')

abbrev pub IsHash : ℕ → Type 0
IsHash h = h < 2 ^ 256

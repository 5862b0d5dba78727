-- ===== src/Wire/Roundtrip.antt =====
-- Reading back what was written: sizes and lists of hashes.
use libe2c_cpp.Prelude.{ℕ, ◌^◌, ◌<◌, ◌≡◌, refl, List, [], ◌∷◌, ◌++◌, length, All, ok}
use mathlib.Core.List.{append_assoc}
use libe2c_cpp.Wire.{Salticidae, IsStream, IsHash, put_size, read_size, put_hashes, read_hashes}

module _ (w : Salticidae) (s : IsStream w) where
  pub read-put_size :
      (n : ℕ) (rest : List ℕ) → n < 2 ^ 32 → read_size w (put_size w n ++ rest) ≡ ok (n, rest)
  read-put_size n rest h = rw (s.u32 (w.htole n) rest (s.endian_lt n h)) (rw (s.endian n h) refl)

  pub read-put_hashes :
      (hs rest : List ℕ)
      → All IsHash hs
      → read_hashes w (length hs) (put_hashes w hs ++ rest) ≡ ok (hs, rest)
  unfolding put_hashes read_hashes
  read-put_hashes [] rest a = refl
  read-put_hashes (h ∷ hs) rest a =
      rw (append_assoc, s.hash h (put_hashes w hs ++ rest) a.0, read-put_hashes hs rest a.1) refl

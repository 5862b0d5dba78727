-- ===== src/Program/Keygen.antt =====
-- `main` of src/keygen.cpp: fresh keys, as the replica program takes them. `random k` is what openssl
-- gives at the k-th call, if it does; a key is printed as the bytes behind its hexadecimal text.
use libe2c_cpp.Prelude.{
  ℕ, zero, suc, ◌≡◌, refl, List, [], ◌∷◌, ◌++◌, Option, some, Result, ok, err, not_positive,
  unknown_algo, ◌>>=◌, length, All, ℤ, pos, negsuc, Bool, true, false, ap,
}
use libe2c_cpp.Wire.{Salticidae, IsStream}
use libe2c_cpp.Crypto.{Secp256k1, IsSecp256k1}
use libe2c_cpp.Crypto.Keys.{
  put_pub_key, read_pub_key, put_priv_key, read_priv_key, pubkey_of, from_rand, read-put_keys,
}

module _ (w : Salticidae) (l : Secp256k1) (random : ℕ → Option (List ℕ)) where
  -- `while (n--)`, from call `k` on: the public key and the private key of each round.
  unfoldable pub print_keys : (k n : ℕ) → Result (List (List ℕ × List ℕ))
  unfolding from_rand pubkey_of put_pub_key put_priv_key
  print_keys k zero = ok []
  print_keys k (suc n) = do
    key ← from_rand w l (random k)
    pub_key ← pubkey_of w l key
    lines ← print_keys (suc k) n
    ok ((put_pub_key w l pub_key, put_priv_key w l key) ∷ lines)

  -- `secp256k1` says whether the algorithm is the one of this name.
  unfoldable pub main : (secp256k1 : Bool) (n : ℤ) → Result (List (List ℕ × List ℕ))
  unfolding print_keys
  main false n = err unknown_algo
  main true (negsuc n) = err not_positive
  main true (pos zero) = err not_positive
  main true (pos (suc n)) = print_keys 0 (suc n)

module _ (w : Salticidae) (l : Secp256k1) (random : ℕ → Option (List ℕ)) where
  -- The k-th draw is 32 bytes that make a key.
  abbrev pub IsDrawn : ℕ → Type 0
  IsDrawn k =
      (key pub_key : List ℕ) × (random k ≡ some key)
      × (length key ≡ 32)
      × (pubkey_of w l key ≡ ok pub_key)

  -- What is printed can be read as a private key and its public key.
  abbrev pub IsPair : List ℕ × List ℕ → Type 0
  IsPair x =
      (key pub_key : List ℕ) × (read_priv_key w l (x.1 ++ []) ≡ ok (key, []))
      × (pubkey_of w l key ≡ ok pub_key)
      × (read_pub_key w l (x.0 ++ []) ≡ ok (pub_key, []))

  module _ (public : List ℕ → List ℕ) (s : IsStream w) (good : IsSecp256k1 l public)
      (drawn : (k : ℕ) → IsDrawn k) where
    print_keys_lem :
        (k n : ℕ)
        → (lines : List (List ℕ × List ℕ)) × (print_keys w l random k n ≡ ok lines)
          × (length lines ≡ n)
          × All IsPair lines
    unfolding print_keys from_rand
    print_keys_lem k zero = ([], refl, refl, tt)
    print_keys_lem k (suc n) =
        let (key, pub_key, draw, long, made) = drawn k in
        let (lines, e, m, all) = print_keys_lem (suc k) n in
        let (priv, pub_) = read-put_keys w l public s good key pub_key [] long made in
        (
          (put_pub_key w l pub_key, put_priv_key w l key) ∷ lines,
          rw (draw, made, e) refl,
          ap suc m,
          ((key, pub_key, priv, made, pub_), all),
        )

    -- For the algorithm that there is and a positive n, the program prints n lines, if openssl gives 32
    -- bytes that make a key each time; each line is read back as a private key and the public key that
    -- belongs to it. For another algorithm, or an n that is not positive, it prints nothing.
    pub main_prints :
        (n : ℕ)
        → ((lines : List (List ℕ × List ℕ)) × (main w l random true (pos (suc n)) ≡ ok lines)
            × (length lines ≡ suc n)
            × All IsPair lines)
          × (main w l random true (pos 0) ≡ err not_positive)
          × (main w l random true (negsuc n) ≡ err not_positive)
          × ((k : ℤ) → main w l random false k ≡ err unknown_algo)
    unfolding main
    main_prints n = (print_keys_lem 0 (suc n), refl, refl, λ k. refl)

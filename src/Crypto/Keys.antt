-- ===== src/Crypto/Keys.antt =====
-- `PubKeySecp256k1` and `PrivKeySecp256k1` of include/libe2c/crypto.h. A private key is its 32 bytes;
-- `from_rand` takes the bytes that openssl gives, if it does.
use libe2c_cpp.Prelude.{
  ℕ, ◌≡◌, refl, List, ◌++◌, Option, some, length, Result, ok, ill_formed, sign_failed, ◌>>=◌,
  or_fail, or_fail-eq-ok,
}
use libe2c_cpp.Wire.{Salticidae, IsStream}
use libe2c_cpp.Crypto.{Secp256k1, IsSecp256k1}

module _ (w : Salticidae) (l : Secp256k1) where
  unfoldable pub put_pub_key : List ℕ → List ℕ
  put_pub_key key = w.put_data (l.ec_pubkey_serialize key)

  -- A stream that is too short and a key that is not on the curve are the same error.
  unfoldable pub read_pub_key : List ℕ → Result (List ℕ × List ℕ)
  read_pub_key s = do
    (bs, s') ← or_fail (w.get_data 33 s) ill_formed
    key ← or_fail (l.ec_pubkey_parse bs) ill_formed
    ok (key, s')

  unfoldable pub put_priv_key : List ℕ → List ℕ
  put_priv_key key = w.put_data key

  unfoldable pub read_priv_key : List ℕ → Result (List ℕ × List ℕ)
  read_priv_key s = or_fail (w.get_data 32 s) ill_formed

  -- `get_pubkey`, with the constructor that it calls
  unfoldable pub pubkey_of : (priv_key : List ℕ) → Result (List ℕ)
  pubkey_of key = or_fail (l.ec_pubkey_create key) ill_formed

  unfoldable pub from_rand : (random : Option (List ℕ)) → Result (List ℕ)
  from_rand random = or_fail random sign_failed

module _ (w : Salticidae) (l : Secp256k1) (public : List ℕ → List ℕ) (s : IsStream w)
    (k : IsSecp256k1 l public) where
  -- A private key of 32 bytes is read back as it was written, and so is the public key that is made
  -- from a private key; what follows them in the stream is left.
  pub read-put_keys :
      (key pub_key rest : List ℕ)
      → length key ≡ 32
      → pubkey_of w l key ≡ ok pub_key
      → (read_priv_key w l (put_priv_key w l key ++ rest) ≡ ok (key, rest))
        × (read_pub_key w l (put_pub_key w l pub_key ++ rest) ≡ ok (pub_key, rest))
  unfolding read_pub_key put_pub_key read_priv_key put_priv_key pubkey_of
  read-put_keys key pub_key rest n made =
      let made' : l.ec_pubkey_create key ≡ some pub_key = or_fail-eq-ok _ ill_formed made in
      let priv : w.get_data 32 (w.put_data key ++ rest) ≡ some (key, rest) =
        rw n at (s.raw key rest) in
      let bs = l.ec_pubkey_serialize pub_key in
      let whole : w.get_data 33 (w.put_data bs ++ rest) ≡ some (bs, rest) =
        rw (k.key_length key pub_key made') at (s.raw bs rest) in
      (rw priv refl, rw (whole, k.key_parsed key pub_key made') refl)

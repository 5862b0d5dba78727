-- ===== src/Crypto.antt =====
-- include/libe2c/crypto.h: keys, signatures and partial certificates. The classes with virtual
-- functions are data types with a constructor for each class; libsecp256k1 is a parameter.
pub mod Quorum
pub mod Keys
pub mod Pool
use libe2c_cpp.Prelude.{
  ℕ, ◌≡◌, List, Bool, true, Option, length, ◌==◌, ◌++◌, Result, ok, err, bad_cast,
  bad_message_length, sign_failed, ill_formed, stream_failure, ◌>>=◌, ◌>>◌, guard, or_fail,
}
use libe2c_cpp.Wire.{Salticidae}

-- The calls of libsecp256k1, on the bytes of its opaque structs.
pub record Secp256k1 : Type 0 where
  pub ecdsa_sign : (msg key : List ℕ) → Option (List ℕ)
  pub ecdsa_verify : (sig msg pub_key : List ℕ) → Bool
  pub serialize_compact : List ℕ → List ℕ
  pub parse_compact : List ℕ → Option (List ℕ)
  pub ec_pubkey_create : (key : List ℕ) → Option (List ℕ)
  pub ec_pubkey_serialize : List ℕ → List ℕ
  pub ec_pubkey_parse : List ℕ → Option (List ℕ)

-- What the code relies on: a signature is an opaque struct of 64 bytes, and so is its compact form,
-- which is parsed back; a signature made with a private key verifies under its public key. A
-- compressed public key has 33 bytes and is parsed back.
pub record IsSecp256k1 (l : Secp256k1) (public : List ℕ → List ℕ) : Type 0 where
  pub compact_length : (sig : List ℕ) → length sig ≡ 64 → length (l.serialize_compact sig) ≡ 64
  pub compact :
      (sig : List ℕ) → length sig ≡ 64 → l.parse_compact (l.serialize_compact sig) ≡ Option.some sig
  pub signed :
      (msg key sig : List ℕ)
      → l.ecdsa_sign msg key ≡ Option.some sig
      → l.ecdsa_verify sig msg (public key) ≡ true
  pub key_length :
      (key pub_key : List ℕ)
      → l.ec_pubkey_create key ≡ Option.some pub_key
      → length (l.ec_pubkey_serialize pub_key) ≡ 33
  pub key_parsed :
      (key pub_key : List ℕ)
      → l.ec_pubkey_create key ≡ Option.some pub_key
      → l.ec_pubkey_parse (l.ec_pubkey_serialize pub_key) ≡ Option.some pub_key

pub data PubKey : Type 0 where
  dummy : PubKey
  secp256k1 : List ℕ → PubKey

pub data PartCert : Type 0 where
  dummy : (obj_hash : ℕ) → PartCert
  secp256k1 : (obj_hash : ℕ) (sig : List ℕ) → PartCert

unfoldable pub get_obj_hash : PartCert → ℕ
get_obj_hash (PartCert.dummy h) = h
get_obj_hash (PartCert.secp256k1 h sig) = h

unfoldable pub check_msg_length : List ℕ → Result (Unit {0})
check_msg_length msg = guard (length msg == 32) bad_message_length

module _ (w : Salticidae) (l : Secp256k1) where
  -- `SigSecp256k1::sign` and `verify`
  unfoldable pub sign : (msg key : List ℕ) → Result (List ℕ)
  unfolding check_msg_length
  sign msg key = do check_msg_length msg; or_fail (l.ecdsa_sign msg key) sign_failed

  unfoldable pub verify_sig : (sig msg pub_key : List ℕ) → Result Bool
  unfolding check_msg_length
  verify_sig sig msg pub_key = do check_msg_length msg; ok (l.ecdsa_verify sig msg pub_key)

  -- `SigSecp256k1::serialize` and `unserialize`
  unfoldable pub put_sig : List ℕ → List ℕ
  put_sig sig = w.put_data (l.serialize_compact sig)

  unfoldable pub read_sig : List ℕ → Result (List ℕ × List ℕ)
  read_sig s = do
    (bs, s') ← or_fail (w.get_data 64 s) ill_formed
    sig ← or_fail (l.parse_compact bs) ill_formed
    ok (sig, s')

  -- The `PartCertSecp256k1` that `E2C::create_part_cert` makes.
  unfoldable pub create_part_cert : List ℕ → ℕ → Result PartCert
  create_part_cert key h = do sig ← sign (w.to_bytes h) key; ok (PartCert.secp256k1 h sig)

  -- `PartCert::verify(pub_key)`. The `static_cast` of a key of the other class is undefined.
  unfoldable pub verify_cert : PartCert → PubKey → Result Bool
  verify_cert (PartCert.dummy h) k = ok true
  verify_cert (PartCert.secp256k1 h sig) PubKey.dummy = err bad_cast
  verify_cert (PartCert.secp256k1 h sig) (PubKey.secp256k1 k) = verify_sig sig (w.to_bytes h) k

  unfoldable pub put_cert : PartCert → List ℕ
  unfolding put_sig
  put_cert (PartCert.dummy h) = w.put_u32 0 ++ w.put_hash h
  put_cert (PartCert.secp256k1 h sig) = w.put_hash h ++ put_sig sig

  unfoldable pub read_dummy_cert : List ℕ → Result (PartCert × List ℕ)
  read_dummy_cert s = do
    (tmp, s') ← or_fail (w.get_u32 s) stream_failure
    (h, s'') ← or_fail (w.get_hash s') stream_failure
    ok (PartCert.dummy h, s'')

  -- `E2C::parse_part_cert`, with `PartCertSecp256k1::unserialize`
  unfoldable pub parse_part_cert : List ℕ → Result (PartCert × List ℕ)
  unfolding read_sig
  parse_part_cert s = do
    (h, s') ← or_fail (w.get_hash s) stream_failure
    (sig, s'') ← read_sig s'
    ok (PartCert.secp256k1 h sig, s'')

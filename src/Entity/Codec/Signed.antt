-- ===== src/Entity/Codec/Signed.antt =====
-- Certificates on blocks: the round trip of a proposal, and what `Block::verify` looks at.
use libe2c_cpp.Prelude.{
  ℕ, ◌≡◌, refl, ◌≢◌, List, ◌++◌, none, some, true, length, arith, ok, err, null_pointer,
  sign_failed, >>=-eq-ok, or_fail-eq-ok, lookup,
}
use mathlib.Core.List.{append_assoc}
use libe2c_cpp.Wire.{Salticidae, IsStream, IsHash, read_size, read_hashes}
use libe2c_cpp.Crypto.{
  Secp256k1, IsSecp256k1, PartCert, PubKey, check_msg_length, sign, verify_sig, put_sig, read_sig,
  create_part_cert, verify_cert, put_cert, parse_part_cert,
}
use libe2c_cpp.Entity.{Block}
use libe2c_cpp.Entity.Config.{ReplicaConfig, ReplicaInfo, get_info, get_pubkey}
use libe2c_cpp.Entity.Codec.{
  serialize, unserialize, read_extra, verify, put_proposal, read_proposal,
}
use libe2c_cpp.Entity.Codec.Roundtrip.{IsWire, received, unserialize-serialize}

module _ (w : Salticidae) (l : Secp256k1) (public : List ℕ → List ℕ) (s : IsStream w)
    (k : IsSecp256k1 l public) where
  pub read-put_sig :
      (sig rest : List ℕ)
      → length sig ≡ 64
      → read_sig w l (put_sig w l sig ++ rest) ≡ ok (sig, rest)
  unfolding read_sig put_sig
  read-put_sig sig rest n =
      let e : w.get_data 64 (w.put_data (l.serialize_compact sig) ++ rest)
          ≡ some (l.serialize_compact sig, rest) =
        rw (k.compact_length sig n) at (s.raw (l.serialize_compact sig) rest) in
      rw (e, k.compact sig n) refl

  pub parse-put_cert :
      (h : ℕ) (sig rest : List ℕ)
      → IsHash h
      → length sig ≡ 64
      → parse_part_cert w l (put_cert w l (PartCert.secp256k1 h sig) ++ rest)
        ≡ ok (PartCert.secp256k1 h sig, rest)
  unfolding parse_part_cert put_cert
  parse-put_cert h sig rest v n =
      rw (append_assoc, s.hash h (put_sig w l sig ++ rest) v, read-put_sig sig rest n) refl

  -- A proposal whose fields fit their types, with a secp256k1 certificate of 64 bytes, is
  -- written, and read back it is the block with its certificate: the fields that were sent, a
  -- hash computed anew, no parents, not delivered and not decided.
  pub read-put_proposal :
      (b : Block) (h : ℕ) (sig rest : List ℕ)
      → IsWire b
      → b.signature ≡ some (PartCert.secp256k1 h sig)
      → IsHash h
      → length sig ≡ 64
      → (bytes : List ℕ) × (put_proposal w l b ≡ ok bytes)
        × (read_proposal w l (bytes ++ rest)
            ≡ ok (record (received w b) { signature = some (PartCert.secp256k1 h sig) }, rest))
  unfolding put_proposal read_proposal
  read-put_proposal b h sig rest v signed ok_h n =
      let cert = PartCert.secp256k1 h sig in
      (
        serialize w b ++ put_cert w l cert,
        rw signed refl,
        rw
            (
              append_assoc,
              unserialize-serialize w s b (put_cert w l cert ++ rest) v,
              parse-put_cert h sig rest ok_h n,
            )
            refl,
      )

module _ (w : Salticidae) (l : Secp256k1) (config : ReplicaConfig) where
  -- `unserialize` reads no certificate.
  unserialize_unsigned :
      (bytes rest : List ℕ) (b : Block) → unserialize w bytes ≡ ok (b, rest) → b.signature ≡ none
  unfolding unserialize
  unserialize_unsigned bytes rest b e =
      let (x₁, e₁, f₁) = >>=-eq-ok (read_size w bytes) _ e in
      let (x₂, e₂, f₂) = >>=-eq-ok (read_size w x₁.1) _ f₁ in
      let (x₃, e₃, f₃) = >>=-eq-ok (read_size w x₂.1) _ f₂ in
      let (x₄, e₄, f₄) = >>=-eq-ok (read_hashes w x₃.0 x₃.1) _ f₃ in
      let (x₅, e₅, f₅) = >>=-eq-ok (read_size w x₄.1) _ f₄ in
      let (x₆, e₆, f₆) = >>=-eq-ok (read_hashes w x₅.0 x₅.1) _ f₅ in
      let (x₇, e₇, f₇) = >>=-eq-ok (read_size w x₆.1) _ f₆ in
      let (x₈, e₈, f₈) = >>=-eq-ok (read_extra w x₇.0 x₇.1) _ f₇ in ground arith

  -- A block as `MsgRespBlock` carries it has no certificate, so verifying it dereferences null,
  -- whatever its bytes are, as soon as its proposer is known.
  pub verify_fetched_faults :
      (bytes rest : List ℕ) (b : Block) (info : ReplicaInfo)
      → unserialize w bytes ≡ ok (b, rest)
      → lookup b.proposer config.replica_map ≡ some info
      → verify w l config b ≡ err null_pointer
  unfolding verify get_pubkey get_info
  verify_fetched_faults bytes rest b info e known =
      rw (known, unserialize_unsigned bytes rest b e) refl

  -- The certificate is not compared with the block: a certificate that a configured proposer made
  -- for a hash that is not the block's makes the block pass.
  pub verify_any_cert :
      (public : List ℕ → List ℕ) (b : Block) (info : ReplicaInfo) (key : List ℕ) (h : ℕ)
      (cert : PartCert)
      → IsSecp256k1 l public
      → lookup b.proposer config.replica_map ≡ some info
      → info.pubkey ≡ PubKey.secp256k1 (public key)
      → create_part_cert w l key h ≡ ok cert
      → h ≢ b.hash
      → b.signature ≡ some cert
      → verify w l config b ≡ ok true
  unfolding verify get_pubkey get_info create_part_cert sign verify_cert verify_sig
  verify_any_cert public b info key h cert k known at made other signed =
      let (sig, e₁, e₂) = >>=-eq-ok (sign w l (w.to_bytes h) key) _ made in
      let (u, e₃, e₄) = >>=-eq-ok (check_msg_length (w.to_bytes h)) _ e₁ in
      let valid = k.signed (w.to_bytes h) key sig (or_fail-eq-ok _ sign_failed e₄) in
      let is : cert ≡ PartCert.secp256k1 h sig = ground arith in
      rw (known, signed, is, at, e₃, valid) refl

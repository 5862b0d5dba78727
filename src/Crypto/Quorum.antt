-- ===== src/Crypto/Quorum.antt =====
-- `QuorumCertSecp256k1` of include/libe2c/crypto.h and src/crypto.cpp: the signatures of several
-- replicas under one hash. `salticidae::Bits` is the list of its bits. Outside of it, and at a
-- signature that is not there, the code reads undefined memory, which is `out_of_range` here.
pub mod Votes
pub mod Pooled
pub mod Roundtrip
pub mod Dummy
use libe2c_cpp.Prelude.{
  ℕ, zero, suc, ◌+◌, ◌%◌, ◌^◌, List, [], ◌∷◌, ◌++◌, Option, none, some, Bool, true, false, Assoc,
  lookup, insert, assign, length, get_elem?, set, ltb, ◌==◌, if◌then◌else◌, Result, ok, err,
  cert_mismatch, bad_cast, out_of_range, stream_failure, ◌>>=◌, ◌>>◌, guard, or_fail,
}
use libe2c_cpp.Wire.{Salticidae}
use libe2c_cpp.Crypto.{Secp256k1, PubKey, PartCert, get_obj_hash, verify_sig, put_sig, read_sig}
use libe2c_cpp.Entity.Config.{ReplicaConfig, get_pubkey}

pub record QuorumCert : Type 0 where
  pub obj_hash : ℕ
  pub rids : List Bool
  pub sigs : Assoc (List ℕ)

unfoldable pub clear_bits : ℕ → List Bool
clear_bits zero = []
clear_bits (suc n) = false ∷ clear_bits n

unfoldable pub new_quorum_cert : ReplicaConfig → (obj_hash : ℕ) → QuorumCert
unfolding clear_bits
new_quorum_cert config h = record { obj_hash = h; rids = clear_bits config.nreplicas; sigs = [] }

-- The certificate's cast to its class.
unfoldable pub sig_of : PartCert → Result (List ℕ)
sig_of (PartCert.dummy h) = err bad_cast
sig_of (PartCert.secp256k1 h sig) = ok sig

unfoldable pub add_part : (rid : ℕ) → PartCert → QuorumCert → Result QuorumCert
unfolding get_obj_hash sig_of insert
add_part rid pc q = do
  guard (get_obj_hash pc == q.obj_hash) cert_mismatch
  sig ← sig_of pc
  guard (ltb rid (length q.rids)) out_of_range
  ok (record q { sigs = insert rid sig q.sigs; rids = set q.rids rid true })

-- The number of a bit, a `size_t`, where a `ReplicaID` is asked for.
abbrev pub replica_id : (bit : ℕ) → ℕ
replica_id i = i % 2 ^ 16

module _ (w : Salticidae) (l : Secp256k1) where
  -- One signature, for a key that has to be of the class.
  unfoldable pub verify_with : (msg : ℕ) (sig : List ℕ) → PubKey → Result Bool
  verify_with h sig PubKey.dummy = err bad_cast
  verify_with h sig (PubKey.secp256k1 key) = verify_sig w l sig (w.to_bytes h) key

  unfoldable pub verify_at : ReplicaConfig → QuorumCert → ℕ → Result Bool
  unfolding verify_with lookup
  verify_at config q i = do
    key ← get_pubkey config (replica_id i)
    sig ← or_fail (lookup (replica_id i) q.sigs) out_of_range
    verify_with q.obj_hash sig key

  -- The loop, from bit `i` on, which stops at the first signature that does not verify.
  unfoldable pub verify_bits : ReplicaConfig → QuorumCert → (i : ℕ) → List Bool → Result Bool
  unfolding verify_at
  verify_bits config q i [] = ok true
  verify_bits config q i (false ∷ bs) = verify_bits config q (suc i) bs
  verify_bits config q i (true ∷ bs) =
      let rest = verify_bits config q (suc i) bs in
      (do valid ← verify_at config q i; if valid then rest else ok false)

  unfoldable pub verify_quorum : ReplicaConfig → QuorumCert → Result Bool
  unfolding verify_bits
  verify_quorum config q =
      if ltb (length q.sigs) config.nmajority then ok false else verify_bits config q 0 q.rids

  unfoldable pub put_sigs : QuorumCert → (i : ℕ) → List Bool → Result (List ℕ)
  unfolding put_sig lookup
  put_sigs q i [] = ok []
  put_sigs q i (false ∷ bs) = put_sigs q (suc i) bs
  put_sigs q i (true ∷ bs) = do
    sig ← or_fail (lookup (replica_id i) q.sigs) out_of_range
    rest ← put_sigs q (suc i) bs
    ok (put_sig w l sig ++ rest)

  unfoldable pub put_quorum_cert : QuorumCert → Result (List ℕ)
  unfolding put_sigs
  put_quorum_cert q = do
    sigs ← put_sigs q 0 q.rids
    ok (w.put_hash q.obj_hash ++ (w.put_bits q.rids ++ sigs))

  unfoldable pub read_sigs :
      (i : ℕ) → List Bool → Assoc (List ℕ) → List ℕ → Result (Assoc (List ℕ) × List ℕ)
  unfolding read_sig assign
  read_sigs i [] m s = ok (m, s)
  read_sigs i (false ∷ bs) m s = read_sigs (suc i) bs m s
  read_sigs i (true ∷ bs) m s = do
    (sig, s') ← read_sig w l s
    read_sigs (suc i) bs (assign (replica_id i) sig m) s'

  unfoldable pub read_quorum_cert : List ℕ → Result (QuorumCert × List ℕ)
  unfolding read_sigs
  read_quorum_cert s = do
    (h, s) ← or_fail (w.get_hash s) stream_failure
    (bits, s) ← or_fail (w.get_bits s) stream_failure
    (sigs, s) ← read_sigs 0 bits [] s
    ok (record { obj_hash = h; rids = bits; sigs = sigs }, s)

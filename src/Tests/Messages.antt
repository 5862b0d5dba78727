-- ===== src/Tests/Messages.antt =====
-- Messages, certificates and the client at concrete inputs.
use libe2c_cpp.Prelude.{
  ℕ, ◌≤◌, ◌≡◌, refl, List, [], ◌∷◌, ◌++◌, some, true, false, ok, err, null_pointer, empty_promises,
  arith, lookup, insert, Bool, ◌<◌, ◌≢◌, get_elem?, ◌↔◌,
}
use libe2c_cpp.Crypto
use libe2c_cpp.Crypto.{PubKey, PartCert, create_part_cert, sign, check_msg_length}
use libe2c_cpp.Crypto.Quorum.{
  QuorumCert, new_quorum_cert, clear_bits, add_part, sig_of, verify_quorum, verify_bits,
  verify_with, verify_at,
}
use libe2c_cpp.Crypto.Quorum.Votes.{IsAttested, verify_quorum_iff}
use libe2c_cpp.Crypto.Quorum.Pooled.{
  all_valid, join_valid, pool_bits, verify_pooled, Returns, verify_pooled-verify_quorum,
}
use libe2c_cpp.Crypto.Keys.{pubkey_of}
use libe2c_cpp.Entity.{Block, new_block}
use libe2c_cpp.Entity.Config.{ReplicaConfig, ReplicaInfo, get_info, get_pubkey}
use libe2c_cpp.Entity.Codec.{serialize, unserialize, verify, put_proposal, read_proposal}
use libe2c_cpp.Entity.Codec.Roundtrip.{IsWire, received, unserialize-serialize}
use libe2c_cpp.Entity.Codec.Signed.{read-put_proposal, verify_fetched_faults, verify_any_cert}
use libe2c_cpp.Crypto.Quorum.{put_quorum_cert, read_quorum_cert, verify_bits}
use libe2c_cpp.Crypto.Quorum.Roundtrip.{Agree, read-put_quorum_cert}
use libe2c_cpp.Tests.World.{stream, stream-IsStream, curve, curve-IsSecp256k1, zeros}

abbrev sig : List ℕ
sig = 9 ∷ zeros 31 ++ (4 ∷ zeros 31)

abbrev cert : PartCert
cert = PartCert.secp256k1 9 sig

abbrev blk : Block
blk = record new_block {
  parent_hashes = 11 ∷ 12 ∷ [];
  cmds = 21 ∷ 22 ∷ 23 ∷ [];
  extra = 1 ∷ [];
  proposer = 1;
  height = 2;
  hash = 30;
  signature = some cert;
}

abbrev config : ReplicaConfig
config = record {
  replica_map = (1, record { id = 1; peer_id = 101; pubkey = PubKey.secp256k1 (4 ∷ []) }) ∷ [];
  nreplicas = 2;
  nmajority = 1;
}

blk-IsWire : IsWire blk
blk-IsWire = record {
  parent_hashes = (omega arith, (omega arith, tt));
  cmds = (omega arith, (omega arith, (omega arith, tt)));
  n_parents = omega arith;
  n_cmds = omega arith;
  n_extra = omega arith;
  proposer = omega arith;
  height = omega arith;
}

unserialize-serialize_example :
    unserialize stream (serialize stream blk ++ 5 ∷ []) ≡ ok (received stream blk, 5 ∷ [])
unserialize-serialize_example = unserialize-serialize stream stream-IsStream blk (5 ∷ []) blk-IsWire

read-put_proposal_example :
    (bytes : List ℕ) × (put_proposal stream curve blk ≡ ok bytes)
    × (read_proposal stream curve (bytes ++ 5 ∷ [])
        ≡ ok (record (received stream blk) { signature = some cert }, 5 ∷ []))
read-put_proposal_example =
    read-put_proposal stream curve (λ key. key) stream-IsStream curve-IsSecp256k1 blk 9 sig (5 ∷ [])
      blk-IsWire refl (omega arith) refl

abbrev info : ReplicaInfo
info = record { id = 1; peer_id = 101; pubkey = PubKey.secp256k1 (4 ∷ []) }

known : lookup 1 config.replica_map ≡ some info
unfolding lookup
known = refl

verify_fetched_faults_example : verify stream curve config (received stream blk) ≡ err null_pointer
verify_fetched_faults_example =
    verify_fetched_faults stream curve config (serialize stream blk ++ 5 ∷ []) (5 ∷ [])
      (received stream blk) info unserialize-serialize_example known

made : create_part_cert stream curve (4 ∷ []) 9 ≡ ok cert
unfolding create_part_cert sign check_msg_length
made = refl

verify_any_cert_example : verify stream curve config blk ≡ ok true
verify_any_cert_example =
    verify_any_cert stream curve config (λ key. key) blk info (4 ∷ []) 9 cert curve-IsSecp256k1
      known refl made (λ e. cc) refl

-- A certificate that one of two replicas has signed.
abbrev quorum : QuorumCert
quorum = record { obj_hash = 9; rids = false ∷ true ∷ []; sigs = (1, sig) ∷ [] }

quorum_added : add_part 1 cert (new_quorum_cert config 9) ≡ ok quorum
unfolding add_part new_quorum_cert clear_bits insert sig_of Crypto.get_obj_hash
quorum_added = refl

verify_quorum_iff_example : (verify_quorum stream curve config quorum ≡ ok true) ↔ (
    (1 ≤ 1)
    × ((k : ℕ)
        → get_elem? (false ∷ true ∷ []) k ≡ some true
        → IsAttested stream curve config quorum k))
verify_quorum_iff_example = verify_quorum_iff stream curve config quorum

quorum_valid : verify_quorum stream curve config quorum ≡ ok true
unfolding verify_quorum verify_bits verify_at verify_with get_pubkey get_info lookup
    Crypto.verify_sig check_msg_length
quorum_valid = refl

pooled : verify_pooled stream curve config quorum ≡ ok true
unfolding verify_pooled pool_bits join_valid all_valid verify_at verify_with get_pubkey get_info
    lookup Crypto.verify_sig check_msg_length
pooled = refl

verify_pooled-verify_quorum_example :
    ((v : Bool)
      → verify_pooled stream curve config quorum ≡ ok v
      → verify_quorum stream curve config quorum ≡ ok v)
    × (1 < 1 → verify_pooled stream curve config quorum ≡ ok false)
    × (1 ≤ 1
        → ((k : ℕ)
            → get_elem? (false ∷ true ∷ []) k ≡ some true
            → Returns stream curve config quorum k)
        → (k : ℕ) → get_elem? (false ∷ true ∷ []) k ≡ some true
        → (v : Bool) × (verify_pooled stream curve config quorum ≡ ok v))
    × (1 ≤ 1
        → ((k : ℕ) → get_elem? (false ∷ true ∷ []) k ≢ some true)
        → (verify_pooled stream curve config quorum ≡ err empty_promises)
          × (verify_quorum stream curve config quorum ≡ ok true))
verify_pooled-verify_quorum_example = verify_pooled-verify_quorum stream curve config quorum

made_key : pubkey_of stream curve (zeros 32) ≡ ok (zeros 33)
unfolding pubkey_of
made_key = refl

read-put_quorum_cert_example :
    (bytes : List ℕ) × (q' : QuorumCert) × (put_quorum_cert stream curve quorum ≡ ok bytes)
    × (read_quorum_cert stream curve (bytes ++ 8 ∷ []) ≡ ok (q', 8 ∷ []))
    × (q'.obj_hash ≡ quorum.obj_hash)
    × (q'.rids ≡ quorum.rids)
    × Agree q'.sigs quorum.sigs 0 quorum.rids
    × ((c : ReplicaConfig)
        → verify_bits stream curve c q' 0 q'.rids ≡ verify_bits stream curve c quorum 0 quorum.rids)
unfolding lookup
read-put_quorum_cert_example =
    read-put_quorum_cert stream curve (λ key. key) stream-IsStream curve-IsSecp256k1 quorum (8 ∷ [])
      ((sig, refl, refl), tt) (omega arith)

-- ===== src/Crypto/Quorum/Dummy.antt =====
-- `QuorumCertDummy` of include/libe2c/crypto.h: a hash, that every configuration accepts.
use libe2c_cpp.Prelude.{ℕ, List, ◌++◌, Bool, true, Result, ok, stream_failure, ◌>>=◌, or_fail}
use libe2c_cpp.Wire.{Salticidae}
use libe2c_cpp.Crypto.{PartCert}
use libe2c_cpp.Entity.Config.{ReplicaConfig}

pub record QuorumCertDummy : Type 0 where
  pub obj_hash : ℕ

unfoldable pub add_dummy_part : (rid : ℕ) → PartCert → QuorumCertDummy → QuorumCertDummy
add_dummy_part rid cert q = q

unfoldable pub verify_dummy_quorum : ReplicaConfig → QuorumCertDummy → Bool
verify_dummy_quorum config q = true

module _ (w : Salticidae) where
  unfoldable pub put_dummy_quorum : QuorumCertDummy → List ℕ
  put_dummy_quorum q = w.put_u32 1 ++ w.put_hash q.obj_hash

  unfoldable pub read_dummy_quorum : List ℕ → Result (QuorumCertDummy × List ℕ)
  read_dummy_quorum s = do
    (tmp, s') ← or_fail (w.get_u32 s) stream_failure
    (h, s'') ← or_fail (w.get_hash s') stream_failure
    ok (record { obj_hash = h }, s'')

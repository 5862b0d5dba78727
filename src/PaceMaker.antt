-- ===== src/PaceMaker.antt =====
-- `E2CSyncPaceMaker` of include/libe2c/liveness.h. Its promises are resolved where they are made, so
-- `beat` and `beat_resp` are the values that they carry.
pub mod Rotation
use libe2c_cpp.Prelude.{
  ℕ, zero, suc, ◌+◌, ◌%◌, ◌^◌, ◌==◌, if◌then◌else◌, Result, ok, err, Error, ◌>>=◌, out_of_range,
}

pub record PaceMaker : Type 0 where
  pub proposer : ℕ

unfoldable pub get_proposer : PaceMaker → ℕ
get_proposer p = p.proposer

-- `(proposer + 1) % nreplicas`, into a `ReplicaID` of 16 bits. By 0 it is undefined.
unfoldable pub impeach : (nreplicas : ℕ) → PaceMaker → Result PaceMaker
impeach n p =
    if n == 0 then err out_of_range else ok (record p { proposer = (p.proposer + 1) % n % 2 ^ 16 })

unfoldable pub beat : PaceMaker → ℕ
unfolding get_proposer
beat p = get_proposer p

unfoldable pub beat_resp : (last_proposer : ℕ) → PaceMaker → ℕ
unfolding get_proposer
beat_resp last p = get_proposer p

-- The impeachment timer firing again and again.
unfoldable pub impeach_times : (nreplicas k : ℕ) → PaceMaker → Result PaceMaker
unfolding impeach
impeach_times n zero p = ok p
impeach_times n (suc k) p = do p' ← impeach n p; impeach_times n k p'

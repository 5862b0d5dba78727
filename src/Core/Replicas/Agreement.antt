-- ===== src/Core/Replicas/Agreement.antt =====
-- Replicas that run the code, with one proposer, agree.
use libe2c_cpp.Prelude.{
  All-get_elem?, ℕ, zero, suc, ◌≡◌, ◌≢◌, refl, List, [], ◌∷◌, map, some, lookup, insert, get_elem?,
  arith, Result,
}
use libe2c_cpp.Wire.{Salticidae, IsStream}
use libe2c_cpp.Crypto.{Secp256k1, PartCert}
use libe2c_cpp.Entity.{Block}
use libe2c_cpp.Entity.Storage
use libe2c_cpp.Core.{Core, new_core, on_init, equivocation}
use libe2c_cpp.Core.History.{Holds}
use libe2c_cpp.Core.Invariant.{IsValid}
use libe2c_cpp.Core.System.{initial, initial-IsValid}
use libe2c_cpp.Core.Replicas.{Replicas, Run, started}
use libe2c_cpp.Core.Replicas.Sent.{IsSame, IsSame-refl}
use libe2c_cpp.Core.Replicas.Chain.{Among, genesis_blk, Carries}
use libe2c_cpp.Core.Replicas.Quiet.{Quiet, IsQuiet, same_height}
use libe2c_cpp.Core.Replicas.Joint.{IsJoint, Run-IsJoint}

module _ (w : Salticidae) (g leader : ℕ) where
  -- At the start there is no proposal, and only the genesis block.
  initial-Carries : (id delta nfaulty : ℕ) → Carries g [] (initial id g delta nfaulty)
  unfolding new_core on_init Storage.add_blk lookup insert
  initial-Carries id delta nfaulty = record {
    genesis =
        λ b e. let is : b ≡ genesis_blk g = ground arith in rw is (IsSame-refl (genesis_blk g));
    origin = ground arith;
    others = others;
    cached = cached;
  }
    where
      others : (r : ℕ) (b : Block) → get_elem? (genesis_blk g ∷ []) r ≡ some b → r ≢ 0 → Among [] b
      others zero b e ne = absurd (ne refl)
      others (suc r) b e ne = cc

      cached :
          (h r : ℕ) (b : Block)
          → lookup h ((g, 0) ∷ []) ≡ some r
          → get_elem? (genesis_blk g ∷ []) r ≡ some b
          → b.hash ≡ h
      cached h zero b l e = ground arith
      cached h (suc r) b l e = cc

  initial-Quiet : (id delta nfaulty : ℕ) → Quiet (initial id g delta nfaulty)
  unfolding new_core on_init
  initial-Quiet id delta nfaulty = tt

  started-IsJoint :
      (ids : List ℕ) (delta nfaulty : ℕ) → IsJoint w g leader [] (started ids g delta nfaulty)
  unfolding started
  started-IsJoint ids delta nfaulty = record {
    chain = record {
      by_height = λ j k p q e. cc;
      by_hash = λ j k p q e. cc;
      above = λ k p e. cc;
      fresh = λ k p e. cc;
      linked = λ k p e. cc;
    };
    hashed = λ k p e. cc;
    each = λ i c e. of ids i c e;
    leading = λ c e. record { proposed = λ k p at. cc; stored = λ k p at. cc };
    sent = λ k m e. cc;
  }
    where
      of :
          (xs : List ℕ) (i : ℕ) (c : Core)
          → get_elem? (map (λ id. initial id g delta nfaulty) xs) i ≡ some c
          → IsValid c × Carries g [] c × Quiet c
      of [] i c e = cc
      of (x ∷ xs) zero c e =
          let is : c ≡ initial x g delta nfaulty = ground arith in
          rw is (
            initial-IsValid x g delta nfaulty,
            initial-Carries x delta nfaulty,
            initial-Quiet x delta nfaulty,
          )
      of (x ∷ xs) (suc i) c e = of xs i c e

-- Replicas that run the code begin with the genesis block alone, and one of them, the same all the
-- time, proposes, on the parents that `get_parents` gives. Its counter of heights does not wrap,
-- and no proposal has the hash of a block that it stores already. Messages are read late, often,
-- never, in any order and by any replica, and timers expire in any order. Then two blocks of one
-- height, at any two replicas, decided or not, are the same block: they have the same hash,
-- commands, parents' hashes, extra bytes and proposer.
pub replicas_agree :
    (w : Salticidae) (l : Secp256k1) (create_part_cert : ℕ → Result PartCert) (leader : ℕ)
    (ids : List ℕ) (g delta nfaulty : ℕ) (s : Replicas) (i j : ℕ) (c d : Core) (r q : ℕ)
    (b a : Block)
    → IsStream w
    → Run w l create_part_cert leader (started ids g delta nfaulty) s
    → get_elem? s.cores i ≡ some c
    → get_elem? s.cores j ≡ some d
    → Holds c r b
    → Holds d q a
    → a.height ≡ b.height
    → IsSame b a
replicas_agree w l create_part_cert leader ids g delta nfaulty s i j c d r q b a stream run at_i
      at_j hb ha same =
    let (ps, v) =
      Run-IsJoint w l create_part_cert g leader [] (started ids g delta nfaulty) stream
        (started-IsJoint w g leader ids delta nfaulty) run in
    same_height g ps c d r q b a v.chain (v.each i c at_i).1 (v.each j d at_j).1 hb ha same

-- In such a run no replica reports an equivocation.
pub none_accused :
    (w : Salticidae) (l : Secp256k1) (create_part_cert : ℕ → Result PartCert) (leader : ℕ)
    (ids : List ℕ) (g delta nfaulty : ℕ) (s : Replicas) (i k h : ℕ) (c : Core)
    → IsStream w
    → Run w l create_part_cert leader (started ids g delta nfaulty) s
    → get_elem? s.cores i ≡ some c
    → get_elem? c.outputs k ≢ some (equivocation h)
none_accused w l create_part_cert leader ids g delta nfaulty s i k h c stream run at e =
    let (ps, v) =
      Run-IsJoint w l create_part_cert g leader [] (started ids g delta nfaulty) stream
        (started-IsJoint w g leader ids delta nfaulty) run in
    All-get_elem? IsQuiet c.outputs k (equivocation h) (v.each i c at).2 e

-- ===== src/Core/Commit/Order.antt =====
-- The decisions that a commit puts out, as a sequence.
use libe2c_cpp.Prelude.{ℕ, zero, suc, ◌+◌, ◌≡◌, refl, List, [], ◌∷◌, get_elem?, length, arith}
use mathlib.Core.Option
use libe2c_cpp.Entity.{Block}
use libe2c_cpp.Core.{Output, decide}
use libe2c_cpp.Core.Commit.{decisions}

pub length-decisions :
    (id : ℕ) (b : Block) (i : ℕ) (cmds : List ℕ) → length (decisions id b i cmds) ≡ length cmds
unfolding decisions
length-decisions id b i [] = refl
length-decisions id b i (x ∷ cmds) = omega (arith, length-decisions id b (i + 1) cmds)

abbrev pub final : (id : ℕ) → Block → ℕ → ℕ → Output
final id b i cmd = decide (record {
  rid = id;
  decision = 1;
  cmd_idx = i;
  cmd_height = b.height;
  cmd_hash = cmd;
  blk_hash = b.hash;
})

decisions_from :
    (id : ℕ) (b : Block) (i k : ℕ) (cmds : List ℕ)
    → get_elem? (decisions id b i cmds) k ≡ Option.map (final id b (i + k)) (get_elem? cmds k)
unfolding decisions
decisions_from id b i k [] = refl
decisions_from id b i zero (x ∷ cmds) = ground arith
decisions_from id b i (suc k) (x ∷ cmds) =
    let e : i + 1 + k ≡ i + suc k = omega arith in rw (← e) (decisions_from id b (i + 1) k cmds)

-- The k-th decision of a commit is about the k-th command of the block, with index k, the block's
-- height and its hash; there are as many decisions as commands.
pub decisions_lem :
    (id : ℕ) (b : Block) (k : ℕ)
    → (get_elem? (decisions id b 0 b.cmds) k ≡ Option.map (final id b k) (get_elem? b.cmds k))
      × (length (decisions id b 0 b.cmds) ≡ length b.cmds)
decisions_lem id b k =
    let e : 0 + k ≡ k = omega arith in
    (rw e at (decisions_from id b 0 k b.cmds), length-decisions id b 0 b.cmds)

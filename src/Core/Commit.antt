-- ===== src/Core/Commit.antt =====
-- `commit_timer_cb` of src/consensus.cpp. Its loop has no exit but the return at a block that is
-- decided; it is a recursion on fuel here. Its counter `i` is not used in the body, and `idx` keeps
-- its first value.
pub mod Rounds
pub mod Order
use libe2c_cpp.Prelude.{
  ℕ, zero, suc, ◌+◌, List, [], ◌∷◌, ◌++◌, none, true, false, ◌==◌, if◌then◌else◌, Result, ok, err,
  null_pointer, out_of_fuel, ◌>>=◌, or_fail,
}
use libe2c_cpp.Entity.{Block}
use libe2c_cpp.Core.{Core, Output, Finality, deref, put, consensus, decide}
use libe2c_cpp.Core.Propose.{index_map}

-- The calls of `do_decide`, from command `i` on.
unfoldable pub decisions : (id : ℕ) → Block → ℕ → List ℕ → List Output
decisions id blk i [] = []
decisions id blk i (cmd ∷ cmds) =
    decide (record {
      rid = id;
      decision = 1;
      cmd_idx = i;
      cmd_height = blk.height;
      cmd_hash = cmd;
      blk_hash = blk.hash;
    })
    ∷ decisions id blk (i + 1) cmds

-- One round, at a block that is not decided.
unfoldable pub commit_blk : ℕ → Block → Core → Core
unfolding decisions
commit_blk r blk c = record (put r (record blk { commit_timer = none; decision = 1 }) c) {
  outputs = c.outputs ++ (consensus r ∷ decisions c.id blk 0 blk.cmds);
}

unfoldable pub commit_loop : (fuel idx : ℕ) → Core → Result Core
unfolding index_map commit_blk
commit_loop zero idx c = err out_of_fuel
commit_loop (suc fuel) idx c = do
  let (p, m) = index_map idx c.ht_blk_map
  r ← or_fail p null_pointer
  blk ← deref c r
  let rest = commit_loop fuel idx (commit_blk r blk (record c { ht_blk_map = m }))
  if blk.decision == 1 then ok (record c { ht_blk_map = m }) else rest

-- The second round meets the block that the first one has decided.
unfoldable pub commit_timer_cb : ℕ → Core → Result Core
unfolding commit_loop
commit_timer_cb ht c = commit_loop 2 ht c

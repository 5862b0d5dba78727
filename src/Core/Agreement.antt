-- ===== src/Core/Agreement.antt =====
-- What holds of every run of a replica, from its initial state on.
use libe2c_cpp.Prelude.{
  ℕ, ◌≡◌, refl, ◌≢◌, ◌∷◌, ◌++◌, Option, none, some, false, lookup, get_elem?, arith, Result, ok,
  ◌==◌,
}
use libe2c_cpp.Wire.{Salticidae}
use libe2c_cpp.Crypto.{PartCert}
use libe2c_cpp.Entity.{Block, Timer}
use libe2c_cpp.Core.{Core, consensus}
use libe2c_cpp.Core.History.{Holds}
use libe2c_cpp.Core.Invariant.{IsValid}
use libe2c_cpp.Core.Commit.{commit_blk, commit_timer_cb, decisions}
use libe2c_cpp.Core.Commit.Rounds.{commit_blk_self, commit_blk_other}
use libe2c_cpp.Core.System.{Reach, Reach-Kept, initial, initial-IsValid, expire_returns}

module _ (w : Salticidae) (create_part_cert : ℕ → Result PartCert) (id g delta nfaulty : ℕ)
    {c : Core} (start : Reach w create_part_cert (initial id g delta nfaulty) c) where
  -- Every state that a replica reaches is well-formed: the genesis block is delivered, the cache
  -- refers to blocks that exist, the map holds delivered blocks at their own heights, `b_mark` is
  -- the highest of them, every delivered block but the genesis block is one above a delivered
  -- first parent, every decided block and every armed timer belongs to the map.
  pub reached-IsValid : IsValid c
  reached-IsValid = (Reach-Kept (initial-IsValid id g delta nfaulty) start).0

  -- Once the map has an entry at a height, it has the same entry in every state that is reached
  -- later.
  pub held_forever :
      {c' : Core} (ht : ℕ) (p : Option ℕ)
      → Reach w create_part_cert c c'
      → lookup ht c.ht_blk_map ≡ some p
      → lookup ht c'.ht_blk_map ≡ some p
  held_forever ht p later l =
      let (r, b, eq, h, at, d) = reached-IsValid.held ht p l in
      rw eq ((Reach-Kept reached-IsValid later).1.held ht r (rw eq at l))

  -- A replica never decides two blocks of one height: a block that is decided now and a block that
  -- is decided at any later time are the same block if their heights are equal.
  pub decided_once :
      {c' : Core} (r q : ℕ) (b a : Block)
      → Reach w create_part_cert c c'
      → Holds c r b
      → b.decision ≡ 1
      → Holds c' q a
      → a.decision ≡ 1
      → a.height ≡ b.height
      → q ≡ r
  decided_once {c'} r q b a later hb db ha da same =
      let k = Reach-Kept reached-IsValid later in
      let now = k.1.held b.height r (reached-IsValid.decided r b hb db) in
      let after : lookup a.height c'.ht_blk_map ≡ some (some q) = k.0.decided q a ha da in
      ground arith

  -- When the commit timer of a block that is not decided expires, its callback returns: the block
  -- becomes decided and its timer is cleared, the consensus and one decision for each of its
  -- commands, in order, are put out, and no other block is written. In particular no ancestor of
  -- the block is decided by the call.
  pub expire_decides :
      (r : ℕ) (b : Block) (t : Timer)
      → Holds c r b
      → b.commit_timer ≡ some t
      → b.decision ≢ 1
      → (c' : Core) × (commit_timer_cb t.for_height c ≡ ok c')
        × Holds c' r (record b { commit_timer = none; decision = 1 })
        × (c'.outputs ≡ c.outputs ++ (consensus r ∷ decisions c.id b 0 b.cmds))
        × ((j : ℕ) → j ≢ r → get_elem? c'.blocks j ≡ get_elem? c.blocks j)
  unfolding commit_blk
  expire_decides r b t h armed open_ =
      let v = reached-IsValid in
      let not_yet : (b.decision == 1) ≡ false = ground arith in
      let l = v.armed r b t h armed in
      (
        commit_blk r b c,
        rw (expire_returns c r b t v h armed, not_yet) refl,
        commit_blk_self t.for_height r b c l h,
        refl,
        commit_blk_other t.for_height r b c l h,
      )

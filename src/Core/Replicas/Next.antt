-- ===== src/Core/Replicas/Next.antt =====
-- A block that may follow the chain.
use libe2c_cpp.Prelude.{ℕ, ◌^◌, ◌≤◌, ◌<◌, ◌≡◌, List, ◌∷◌, none, some, lookup, get_elem?, arith}
use libe2c_cpp.Entity.{Block}
use libe2c_cpp.Core.{Core}
use libe2c_cpp.Core.History.{Holds}
use libe2c_cpp.Core.Invariant.{IsValid}
use libe2c_cpp.Core.Replicas.Chain.{IsLinked, IsChain, Carries}
use libe2c_cpp.Core.Replicas.Leader.{IsLeader, IsChain-suc}

-- A new block is above what the proposer's map has, and of a hash that its storage lacks.
pub leader_higher :
    (qs : List Block) (c : Core) (mark : Block)
    → IsValid c
    → IsLeader qs c
    → Holds c c.b_mark mark
    → (k : ℕ) (p : Block) → get_elem? qs k ≡ some p
    → p.height ≤ mark.height
leader_higher qs c mark v ld hm k p at =
    let (r, l) = ld.proposed k p at in
    let (bm, hb, db, at_m, top) = v.marked in
    let is : bm ≡ mark = ground (arith, hb, hm) in rw is at (top p.height (some r) l)

-- Publishing a block that is new to the proposer: what its chain and its state are afterwards.
pub record IsNext (g : ℕ) (qs : List Block) (c : Core) (n : Block) : Type 0 where
  pub height : (k : ℕ) (p : Block) → get_elem? qs k ≡ some p → p.height < n.height
  pub new : lookup n.hash c.storage.blk_cache ≡ none
  pub low : 0 < n.height
  pub high : n.height < 2 ^ 32
  pub link : IsLinked g qs n

pub IsNext-IsChain :
    (g : ℕ) (qs : List Block) (c : Core) (n : Block)
    → IsChain g qs
    → Carries g qs c
    → IsLeader qs c
    → IsNext g qs c n
    → IsChain g (n ∷ qs)
IsNext-IsChain g qs c n chain v ld x =
    IsChain-suc g qs n chain x.height
      (λ k p at e.
        let (r, l) = ld.stored k p at in
        let l' : lookup n.hash c.storage.blk_cache ≡ some r = rw e at l in let gone = x.new in cc)
      (λ e.
        let l : lookup n.hash c.storage.blk_cache ≡ some c.b0 = rw (← e) at v.origin in
        let gone = x.new in cc)
      x.low x.high x.link

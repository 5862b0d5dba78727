-- ===== src/Core/Commit/Rounds.antt =====
-- What the commit callback does at a height that the map holds: two rounds, one block.
use libe2c_cpp.Prelude.{
  ℕ, suc, ◌≡◌, refl, ◌∙◌, ◌≢◌, none, some, false, lookup, get_elem?, arith, ok, ◌==◌, ==_iff,
  if◌then◌else◌, Bool-cases, inl, inr,
}
use libe2c_cpp.Entity.{Block}
use libe2c_cpp.Core.{Core}
use libe2c_cpp.Core.History.{Holds, Keeps, Extends, Extends-same, put-Extends, Holds-put, get-put}
use libe2c_cpp.Core.Propose.{index_map}
use libe2c_cpp.Core.Invariant.{IsValid, carry-IsValid, put-IsChained, put-decided, put-armed}
use libe2c_cpp.Prelude.{length-set}
use libe2c_cpp.Core.Commit.{commit_blk, commit_loop, commit_timer_cb}

abbrev pub committed : Block → Block
committed blk = record blk { commit_timer = none; decision = 1 }

module _ (ht r : ℕ) (blk : Block) (c : Core) (l : lookup ht c.ht_blk_map ≡ some (some r))
    (h : Holds c r blk) where
  round_done : (fuel : ℕ) → blk.decision ≡ 1 → commit_loop (suc fuel) ht c ≡ ok c
  unfolding commit_loop index_map
  round_done fuel d = ground (arith, l, h, d)

  round_open :
      (fuel : ℕ)
      → (blk.decision == 1) ≡ false
      → commit_loop (suc fuel) ht c ≡ commit_loop fuel ht (commit_blk r blk c)
  unfolding commit_loop index_map
  round_open fuel d = ground (arith, l, h, d)

module _ (ht r : ℕ) (blk : Block) (c : Core) (l : lookup ht c.ht_blk_map ≡ some (some r))
    (h : Holds c r blk) where
  -- The loop that has no exit of its own ends in its second round at the latest, and what it does
  -- is to commit the one block of that height: with any fuel from two on.
  pub commit_loop_lem :
      (fuel : ℕ)
      → commit_loop (suc (suc fuel)) ht c ≡ ok (if blk.decision == 1 then c else commit_blk r blk c)
  commit_loop_lem fuel = elim (Bool-cases (blk.decision == 1)) [
    | inl done ↦ rw done (round_done ht r blk c l h (suc fuel) ((==_iff blk.decision 1).0 done))
    | inr open_ ↦ rw open_ (round_open ht r blk c l h (suc fuel) open_ ∙ second)
  ]
    where
      second : commit_loop (suc fuel) ht (commit_blk r blk c) ≡ ok (commit_blk r blk c)
      second =
          unfold commit_blk in
          round_done ht r (committed blk) (commit_blk r blk c) l (Holds-put c r h (committed blk))
            fuel refl

  pub commit_timer_cb_lem :
      commit_timer_cb ht c ≡ ok (if blk.decision == 1 then c else commit_blk r blk c)
  unfolding commit_timer_cb
  commit_timer_cb_lem = commit_loop_lem 0

  pub commit_blk-Extends : Extends c (commit_blk r blk c)
  unfolding commit_blk
  commit_blk-Extends =
      let k : Keeps blk (committed blk) = record {
        delivered = λ d. d;
        height = λ _. refl;
        parents = λ _. refl;
        decided = λ _. refl;
      } in
      Extends-same (put-Extends c r h (committed blk) k) refl refl refl

  pub commit_blk-IsValid : IsValid c → IsValid (commit_blk r blk c)
  unfolding commit_blk
  commit_blk-IsValid v =
      let k : Keeps blk (committed blk) = record {
        delivered = λ d. d;
        height = λ _. refl;
        parents = λ _. refl;
        decided = λ _. refl;
      } in
      let (q, b, eq, hq, at, d) = v.held ht (some r) l in
      let same : blk.height ≡ ht = ground arith in
      carry-IsValid commit_blk-Extends v refl refl
        (λ g s e. rw (length-set c.blocks r (committed blk)) (v.cached g s e))
        (put-IsChained v r h (committed blk) k (λ d ne. v.chained r blk h d ne))
        (put-decided v r h (committed blk) k (λ _. rw same l))
        (put-armed v r h (committed blk) k (λ t e. cc))

  -- The callback writes to no other block.
  pub commit_blk_other :
      (j : ℕ) → j ≢ r → get_elem? (commit_blk r blk c).blocks j ≡ get_elem? c.blocks j
  unfolding commit_blk
  commit_blk_other j ne = ground (arith, get-put c r h (committed blk) j)

  pub commit_blk_self : Holds (commit_blk r blk c) r (committed blk)
  unfolding commit_blk
  commit_blk_self = Holds-put c r h (committed blk)

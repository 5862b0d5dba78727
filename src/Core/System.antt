-- ===== src/Core/System.antt =====
-- A replica as a transition system. The network, the client and the clocks choose the next event;
-- each is one call of the core that returns. Commit timers run in threads of their own in the
-- source; here each callback is one step, so any order of whole callbacks and messages is covered,
-- and a race inside one of them is not.
use libe2c_cpp.Prelude.{
  ℕ, zero, suc, [], ◌∷◌, get_elem?, insert, ◌≡◌, refl, List, Option, none, some, true, false, Bool,
  lookup, arith, Result, ok, ◌==◌, if◌then◌else◌, Bool-cases, inl, inr, assign,
}
use libe2c_cpp.Wire.{Salticidae}
use libe2c_cpp.Crypto.{PartCert}
use libe2c_cpp.Entity.{Block, Timer, new_block}
use libe2c_cpp.Entity.Storage
use libe2c_cpp.Core.{Core, add_new_blk, new_core, on_init}
use libe2c_cpp.Core.History.{Holds, Extends-refl}
use libe2c_cpp.Core.Invariant.{IsValid, Kept, Kept-trans}
use libe2c_cpp.Core.Deliver.{on_deliver_blk}
use libe2c_cpp.Core.Deliver.Safety.{on_deliver_blk-IsValid}
use libe2c_cpp.Core.Receive.{on_receive_proposal}
use libe2c_cpp.Core.Receive.Safety.{on_receive_proposal-Kept}
use libe2c_cpp.Core.Propose.{on_propose}
use libe2c_cpp.Core.Propose.Storing.{add_new_blk-Kept}
use libe2c_cpp.Core.Propose.Safety.{on_propose-Kept}
use libe2c_cpp.Core.Commit.{commit_blk, commit_timer_cb}
use libe2c_cpp.Core.Commit.Rounds.{commit_timer_cb_lem, commit_blk-Extends, commit_blk-IsValid}

module _ (w : Salticidae) (create_part_cert : ℕ → Result PartCert) where
  pub data Step (c c' : Core) : Type 0 where
    -- A block from a message, as `unserialize` makes it, goes to the storage.
    fetch :
        (b : Block)
        → b.delivered ≡ false
        → b.decision ≡ 0
        → b.commit_timer ≡ none
        → c' ≡ (add_new_blk b c).1
        → Step c c'
    deliver : (r : ℕ) (fresh : Bool) → on_deliver_blk r c ≡ ok (fresh, c') → Step c c'
    receive : (r : ℕ) → on_receive_proposal r c ≡ ok c' → Step c c'
    propose :
        (cmds : List ℕ) (ps : List (Option ℕ)) (extra : List ℕ) (r : ℕ)
        → on_propose w create_part_cert cmds ps extra c ≡ ok (r, c')
        → Step c c'
    expire :
        (r : ℕ) (b : Block) (t : Timer)
        → Holds c r b
        → b.commit_timer ≡ some t
        → commit_timer_cb t.for_height c ≡ ok c'
        → Step c c'

  pub data Reach (c : Core) : Core → Type 0 where
    here : Reach c c
    next : {d e : Core} → Reach c d → Step d e → Reach c e

-- A decision: the block of the height is committed if it is not yet.
commit-Kept :
    (ht r : ℕ) (b : Block) (c c' : Core)
    → lookup ht c.ht_blk_map ≡ some (some r)
    → Holds c r b
    → commit_timer_cb ht c ≡ ok c'
    → IsValid c
    → Kept c c'
commit-Kept ht r b c c' l h e v =
    let run = commit_timer_cb_lem ht r b c l h in
    elim (Bool-cases (b.decision == 1)) [
      | inl done ↦
          let eq : c' ≡ c = ground (arith, run, e, done) in (rw eq v, rw eq (Extends-refl c))
      | inr open_ ↦
          let eq : c' ≡ commit_blk r b c = ground (arith, run, e, open_) in
          (rw eq (commit_blk-IsValid ht r b c l h v), rw eq (commit_blk-Extends ht r b c l h))
    ]

-- In a well-formed state the callback of an armed timer returns: it commits the block, or changes
-- nothing if the block is decided already.
pub expire_returns :
    (c : Core) (r : ℕ) (b : Block) (t : Timer)
    → IsValid c
    → Holds c r b
    → b.commit_timer ≡ some t
    → commit_timer_cb t.for_height c ≡ ok (if b.decision == 1 then c else commit_blk r b c)
expire_returns c r b t v h e = commit_timer_cb_lem t.for_height r b c (v.armed r b t h e) h

module _ {w : Salticidae} {create_part_cert : ℕ → Result PartCert} where
  pub Step-Kept : {c c' : Core} → Step w create_part_cert c c' → IsValid c → Kept c c'
  Step-Kept {c} (fetch b new open_ unarmed eq) v = rw eq (add_new_blk-Kept b c new open_ unarmed v)
  Step-Kept {c} {c'} (deliver r fresh e) v = on_deliver_blk-IsValid r c c' fresh e v
  Step-Kept {c} {c'} (receive r e) v = on_receive_proposal-Kept r c c' e v
  Step-Kept {c} {c'} (propose cmds ps extra r e) v =
      on_propose-Kept w create_part_cert cmds ps extra r c c' e v
  Step-Kept {c} {c'} (expire r b t h a e) v =
      commit-Kept t.for_height r b c c' (v.armed r b t h a) h e v

  -- Every state that a replica reaches is well-formed, and extends each state before it.
  pub Reach-Kept : {c c' : Core} → IsValid c → Reach w create_part_cert c c' → Kept c c'
  Reach-Kept {c} v here = (v, Extends-refl c)
  Reach-Kept v (next p s) = Kept-trans (Reach-Kept v p) (Step-Kept s)

-- The state that the protocol starts from.
abbrev pub initial : (id genesis_hash delta nfaulty : ℕ) → Core
initial id genesis_hash delta nfaulty = on_init nfaulty (new_core id genesis_hash delta)

only_one {ℓ} : {A : Type ℓ} (x y : A) (r : ℕ) → get_elem? (x ∷ []) r ≡ some y → (r ≡ 0) × (y ≡ x)
only_one x y zero e = (refl, ground arith)
only_one x y (suc r) e = cc

pub initial-IsValid :
    (id genesis_hash delta nfaulty : ℕ) → IsValid (initial id genesis_hash delta nfaulty)
unfolding on_init new_core lookup assign insert Storage.add_blk
initial-IsValid id g delta nfaulty =
    let b = record new_block { delivered = true; decision = 1; proposer = 1; hash = g } in
    record {
      genesis = (b, refl, refl);
      marked = (b, refl, refl, refl, λ ht p l. ground arith);
      held = λ ht p l. (0, b, ground arith, refl, ground arith, refl);
      cached = λ h r l. ground arith;
      chained = λ r a h d ne. absurd (ne (only_one b a r h).0);
      decided = λ r a h d. ground (arith, only_one b a r h);
      armed = λ r a t h e. ground (arith, only_one b a r h);
    }

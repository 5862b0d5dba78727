-- ===== src/Core/Replicas/Quiet.antt =====
-- Blocks of one height are the same, so that no call reports an equivocation.
use libe2c_cpp.Prelude.{
  ℕ, ◌+◌, ◌≡◌, refl, ◌∙◌, sym, ap, ◌⊎◌, inl, inr, List, [], ◌∷◌, some, All, All-append, arith, ok,
  ◌==◌, ==_iff, Bool-cases, Bool, true, false,
}
use libe2c_cpp.Entity.{Block, Timer}
use libe2c_cpp.Core.{
  Core, Output, broadcast_proposal, resolve_proposal, resolve_receive_proposal, consensus, decide,
  equivocation, emit,
}
use libe2c_cpp.Core.History.{Holds}
use libe2c_cpp.Core.Invariant.{IsValid}
use libe2c_cpp.Core.Deliver.{on_deliver_blk}
use libe2c_cpp.Core.Deliver.Links.{Outcome, on_deliver_blk_cases}
use libe2c_cpp.Core.Update.{install, update}
use libe2c_cpp.Core.Update.Cases.{UpdateCase, installed, repeated, conflict, update-UpdateCase}
use libe2c_cpp.Core.Receive.{on_receive_proposal}
use libe2c_cpp.Core.Receive.Safety.{ReceiveCase, discarded, accepted, on_receive_proposal_cases}
use libe2c_cpp.Core.Commit.{decisions, commit_blk, commit_timer_cb}
use libe2c_cpp.Core.Commit.Rounds.{commit_timer_cb_lem}
use libe2c_cpp.Core.Replicas.Sent.{IsSame, IsSame-trans, IsSame-sym}
use libe2c_cpp.Core.Replicas.Chain.{Among, IsChain, genesis_blk, Carries}

-- A block is the genesis block or one of the chain.
kind_of :
    (g : ℕ) (ps : List Block) (c : Core) (r : ℕ) (b : Block)
    → Carries g ps c
    → Holds c r b
    → IsSame (genesis_blk g) b ⊎ Among ps b
kind_of g ps c r b v h = elim (Bool-cases (r == c.b0)) [
  | inl root ↦ inl (v.genesis b (rw (← (==_iff r c.b0).0 root) h))
  | inr inner ↦ inr (v.others r b h (ground arith))
]

-- The genesis block is the only one at height 0, and the chain has one block for a height.
pub same_height :
    (g : ℕ) (ps : List Block) (c d : Core) (r q : ℕ) (b a : Block)
    → IsChain g ps
    → Carries g ps c
    → Carries g ps d
    → Holds c r b
    → Holds d q a
    → a.height ≡ b.height
    → IsSame b a
same_height g ps c d r q b a chain v u hb ha same =
    at (kind_of g ps c r b v hb) (kind_of g ps d q a u ha)
  where
    at : IsSame (genesis_blk g) b ⊎ Among ps b → IsSame (genesis_blk g) a ⊎ Among ps a → IsSame b a
    at (inl x) (inl y) = IsSame-trans (IsSame-sym x) y
    at (inl x) (inr (k, p, e, y)) =
        let up = (chain.above k p e).0 in absurd (omega (arith, x.height, y.height))
    at (inr (k, p, e, x)) (inl y) =
        let up = (chain.above k p e).0 in absurd (omega (arith, x.height, y.height))
    at (inr (j, p, e, x)) (inr (k, p', e', y)) =
        let is : p ≡ p' = chain.by_height j k p p' e e' (sym x.height ∙ sym same ∙ y.height) in
        IsSame-trans (IsSame-sym x) (rw is y)

abbrev pub IsQuiet : Output → Type 0
IsQuiet (equivocation h) = ⊥
IsQuiet (broadcast_proposal r) = Unit {0}
IsQuiet (resolve_proposal r) = Unit {0}
IsQuiet (resolve_receive_proposal r) = Unit {0}
IsQuiet (consensus r) = Unit {0}
IsQuiet (decide fin) = Unit {0}

-- Nothing that the core has put out is a report of an equivocation.
abbrev pub Quiet : Core → Type 0
Quiet c = All IsQuiet c.outputs

pub emit-Quiet : (o : Output) (c : Core) → IsQuiet o → Quiet c → Quiet (emit o c)
emit-Quiet o c new v = All-append IsQuiet c.outputs (o ∷ []) v (new, tt)

decisions-IsQuiet :
    (id : ℕ) (b : Block) (i : ℕ) (cmds : List ℕ) → All IsQuiet (decisions id b i cmds)
unfolding decisions
decisions-IsQuiet id b i [] = tt
decisions-IsQuiet id b i (cmd ∷ cmds) = (tt, decisions-IsQuiet id b (i + 1) cmds)

module _ (g : ℕ) (ps : List Block) (chain : IsChain g ps) (r : ℕ) (c c' : Core) (valid : IsValid c)
    (v : Carries g ps c) where
  -- The map's block at the height of a block is that block.
  pub update-outputs : update r c ≡ ok c' → c'.outputs ≡ c.outputs
  update-outputs e = let (b, h, case) = update-UpdateCase r c c' e in at b h case
    where
      at : (b : Block) → Holds c r b → UpdateCase r b c c' → c'.outputs ≡ c.outputs
      at b h (installed mark free hm eq) = rw eq (unfold install in refl)
      at b h (repeated q old l ho same eq) = rw eq refl
      at b h (conflict q old l ho other eq) =
          let (q', old', is, held, level, d) = valid.held b.height (some q) l in
          let is' : q' ≡ q = ground arith in
          let same_blk : old ≡ old' = let h' : Holds c q old' = rw is' at held in ground arith in
          let same =
            same_height g ps c c r q b old chain v v h ho (ap (λ x. x.height) same_blk ∙ level) in
          let test : (old.hash == b.hash) ≡ true = (==_iff old.hash b.hash).1 same.hash in cc

module _ (g : ℕ) (ps : List Block) (chain : IsChain g ps) (r : ℕ) (c c' : Core) (valid : IsValid c)
    (v : Carries g ps c) where
  pub on_receive_proposal-Quiet : on_receive_proposal r c ≡ ok c' → Quiet c → Quiet c'
  on_receive_proposal-Quiet e quiet =
      let (b, h, d, case) = on_receive_proposal_cases r c c' e in at b case
    where
      at : (b : Block) → ReceiveCase r b c c' → Quiet c'
      at b (discarded q old l ho same eq) = rw eq quiet
      at b (accepted m u eq) =
          let first : Quiet m = rw (update-outputs g ps chain r c m valid v u) quiet in
          rw eq (
            emit-Quiet (resolve_receive_proposal r) (emit (broadcast_proposal r) m) tt
              (emit-Quiet (broadcast_proposal r) m tt first))

pub on_deliver_blk-Quiet :
    (r : ℕ) (c c' : Core) (fresh : Bool) → on_deliver_blk r c ≡ ok (fresh, c') → Quiet c → Quiet c'
on_deliver_blk-Quiet r c c' fresh e quiet =
    let (b, h, o) = on_deliver_blk_cases r c c' fresh e in at fresh b o
  where
    at : (f : Bool) (b : Block) → Outcome f r b c c' → Quiet c'
    at false b (old, eq) = rw eq quiet
    at true b (new, (p, rest, pb, links, hp, eq)) = rw eq quiet

pub commit_timer_cb-Quiet :
    (r : ℕ) (b : Block) (t : Timer) (c c' : Core)
    → IsValid c
    → Holds c r b
    → b.commit_timer ≡ some t
    → commit_timer_cb t.for_height c ≡ ok c'
    → Quiet c
    → Quiet c'
commit_timer_cb-Quiet r b t c c' v h armed e quiet =
    let run = commit_timer_cb_lem t.for_height r b c (v.armed r b t h armed) h in
    elim (Bool-cases (b.decision == 1)) [
      | inl done ↦ let eq : c' ≡ c = ground (arith, run, e, done) in rw eq quiet
      | inr open_ ↦
          let eq : c' ≡ commit_blk r b c = ground (arith, run, e, open_) in
          rw eq (
            unfold commit_blk in
            All-append IsQuiet c.outputs (consensus r ∷ decisions c.id b 0 b.cmds) quiet
              (tt, decisions-IsQuiet c.id b 0 b.cmds))
    ]

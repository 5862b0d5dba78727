-- ===== src/Core/Equivocation.antt =====
-- Two blocks of one height. The code reports the second one, and goes on; the comment above
-- `commit_timer_cb` in src/consensus.cpp says that it is safe to commit when the timer expires.
use libe2c_cpp.Prelude.{
  ℕ, [], ◌≡◌, ◌≢◌, ◌∙◌, refl, sym, ap, ◌∷◌, ◌++◌, none, some, true, false, lookup, lookup-assign,
  arith, Result, ok, ◌==◌, ◌>>=◌,
}
use libe2c_cpp.Entity.{Block}
use libe2c_cpp.Core.{Core, equivocation, broadcast_proposal, resolve_receive_proposal}
use libe2c_cpp.Core.History.{Holds, Holds-put, get-put}
use libe2c_cpp.Core.Invariant.{IsValid}
use libe2c_cpp.Core.Update.{install}
use libe2c_cpp.Core.Receive.{on_receive_proposal}
use libe2c_cpp.Core.Receive.Once.{forwarded, armed_blk, receive_new, receive_conflict}
use libe2c_cpp.Core.Receive.Safety.{on_receive_proposal-Kept}
use libe2c_cpp.Core.Commit.{commit_blk, commit_timer_cb}
use libe2c_cpp.Core.Commit.Rounds.{
  committed, commit_timer_cb_lem, commit_blk_self, commit_blk_other,
}

-- A replica receives block `r`, then block `q`, and then the timer of the first one expires.
abbrev pub receive_two : (r q ht : ℕ) → Core → Result Core
receive_two r q ht c = do
  c₁ ← on_receive_proposal r c
  c₂ ← on_receive_proposal q c₁
  commit_timer_cb ht c₂

-- Blocks `r` and `q` are delivered, undecided, of one height and of different hashes.
pub record IsRival (c : Core) (r q : ℕ) (b d : Block) : Type 0 where
  pub first : Holds c r b
  pub second : Holds c q d
  pub first_delivered : b.delivered ≡ true
  pub second_delivered : d.delivered ≡ true
  pub first_open : b.decision ≢ 1
  pub second_open : d.decision ≢ 1
  pub same_height : d.height ≡ b.height
  pub other_hash : b.hash ≢ d.hash

IsRival-swap : (c : Core) (r q : ℕ) (b d : Block) → IsRival c r q b d → IsRival c q r d b
IsRival-swap c r q b d v = record {
  first = v.second;
  second = v.first;
  first_delivered = v.second_delivered;
  second_delivered = v.first_delivered;
  first_open = v.second_open;
  second_open = v.first_open;
  same_height = sym v.same_height;
  other_hash = λ e. v.other_hash (sym e);
}

IsRival-apart : (c : Core) (r q : ℕ) (b d : Block) → IsRival c r q b d → q ≢ r
IsRival-apart c r q b d v same =
    let two : Holds c r d = rw same at v.second in
    let eq : b ≡ d = ground (arith, v.first, two) in v.other_hash (ap (λ x. x.hash) eq)

first_commits :
    (c : Core) (r q : ℕ) (b d : Block)
    → IsValid c
    → lookup b.height c.ht_blk_map ≡ none
    → IsRival c r q b d
    → (c' : Core) × (receive_two r q b.height c ≡ ok c')
      × ((a : Block) × Holds c' r a × (a.decision ≡ 1))
      × Holds c' q d
unfolding install
first_commits c r q b d v free rival =
    let (mark, hm, _, _, _) = v.marked in
    let apart = IsRival-apart c r q b d rival in
    let c₁ = forwarded r (install r b mark c) in
    let run₁ = receive_new r b c rival.first mark rival.first_delivered free hm in
    let v₁ = (on_receive_proposal-Kept r c c₁ run₁ v).0 in
    let armed : Holds c₁ r (armed_blk c b) = Holds-put c r rival.first (armed_blk c b) in
    let kept : Holds c₁ q d =
      ground (arith, get-put c r rival.first (armed_blk c b) q, apart, rival.second) in
    let held : lookup b.height c₁.ht_blk_map ≡ some (some r) =
      ground (arith, lookup-assign b.height b.height (some r) c.ht_blk_map) in
    let held_d : lookup d.height c₁.ht_blk_map ≡ some (some r) = rw rival.same_height held in
    let run₂ =
      receive_conflict q d c₁ v₁ kept rival.second_delivered r (armed_blk c b) held_d armed
        rival.other_hash in
    let c₂ = record c₁ {
      outputs =
          ((c₁.outputs ++ equivocation d.height ∷ []) ++ broadcast_proposal q ∷ [])
          ++ resolve_receive_proposal q ∷ [];
    } in
    let open_ : (b.decision == 1) ≡ false = ground (arith, rival.first_open) in
    let run₃ : commit_timer_cb b.height c₂ ≡ ok (commit_blk r (armed_blk c b) c₂) =
      rw open_ at (commit_timer_cb_lem b.height r (armed_blk c b) c₂ held armed) in
    (
      commit_blk r (armed_blk c b) c₂,
      rw (run₁, run₂) run₃,
      (committed (armed_blk c b), commit_blk_self b.height r (armed_blk c b) c₂ held armed, refl),
      commit_blk_other b.height r (armed_blk c b) c₂ held armed q apart ∙ kept,
    )

-- Two blocks of one height and of different hashes are delivered and undecided, and their height is
-- free in the map. Of two replicas in this well-formed state, one receives the one block first and
-- the other the other; then each receives the second block too, and then the timer of that height
-- expires. No call fails, and although both have been sent the second block, each decides the block
-- that it received first, and does not decide the other.
pub rivals_fork :
    (c : Core) (r q : ℕ) (b d : Block)
    → IsValid c
    → lookup b.height c.ht_blk_map ≡ none
    → IsRival c r q b d
    → ((c' : Core) × (receive_two r q b.height c ≡ ok c')
        × ((a : Block) × Holds c' r a × (a.decision ≡ 1))
        × ((a : Block) × Holds c' q a × (a.decision ≢ 1)))
      × ((c' : Core) × (receive_two q r b.height c ≡ ok c')
          × ((a : Block) × Holds c' q a × (a.decision ≡ 1))
          × ((a : Block) × Holds c' r a × (a.decision ≢ 1)))
rivals_fork c r q b d v free rival =
    let (c₁, run₁, done₁, rest₁) = first_commits c r q b d v free rival in
    let free_d : lookup d.height c.ht_blk_map ≡ none = rw rival.same_height free in
    let (c₂, run₂, done₂, rest₂) =
      first_commits c q r d b v free_d (IsRival-swap c r q b d rival) in
    let run₂' : receive_two q r b.height c ≡ ok c₂ = rw (← rival.same_height) run₂ in
    (
      (c₁, run₁, done₁, (d, rest₁, rival.second_open)),
      (c₂, run₂', done₂, (b, rest₂, rival.first_open)),
    )

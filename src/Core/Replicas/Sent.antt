-- ===== src/Core/Replicas/Sent.antt =====
-- The part of a block that is sent, and its hash: no call changes it once the block is there.
use libe2c_cpp.Prelude.{
  ℕ, ◌≡◌, refl, ◌∙◌, sym, ◌*◌, some, arith, ◌==◌, ==_iff, Bool-cases, inl, inr, ok,
}
use libe2c_cpp.Entity.{Block, Timer}
use libe2c_cpp.Core.{Core, put}
use libe2c_cpp.Core.History.{Holds, get-put}
use libe2c_cpp.Core.Invariant.{IsValid}
use libe2c_cpp.Core.Update.{install, update}
use libe2c_cpp.Core.Update.Cases.{UpdateCase, installed, repeated, conflict, update-UpdateCase}
use libe2c_cpp.Core.Receive.{on_receive_proposal}
use libe2c_cpp.Core.Receive.Safety.{ReceiveCase, discarded, accepted, on_receive_proposal_cases}
use libe2c_cpp.Core.Commit.{commit_blk, commit_timer_cb}
use libe2c_cpp.Core.Commit.Rounds.{commit_timer_cb_lem, committed}

pub record IsSame (p b : Block) : Type 0 where
  pub parent_hashes : b.parent_hashes ≡ p.parent_hashes
  pub cmds : b.cmds ≡ p.cmds
  pub extra : b.extra ≡ p.extra
  pub proposer : b.proposer ≡ p.proposer
  pub height : b.height ≡ p.height
  pub hash : b.hash ≡ p.hash

pub IsSame-refl : (b : Block) → IsSame b b
IsSame-refl b = record {
  parent_hashes = refl;
  cmds = refl;
  extra = refl;
  proposer = refl;
  height = refl;
  hash = refl;
}

pub IsSame-trans : {a b c : Block} → IsSame a b → IsSame b c → IsSame a c
IsSame-trans x y = record {
  parent_hashes = y.parent_hashes ∙ x.parent_hashes;
  cmds = y.cmds ∙ x.cmds;
  extra = y.extra ∙ x.extra;
  proposer = y.proposer ∙ x.proposer;
  height = y.height ∙ x.height;
  hash = y.hash ∙ x.hash;
}

pub IsSame-sym : {a b : Block} → IsSame a b → IsSame b a
IsSame-sym x = record {
  parent_hashes = sym x.parent_hashes;
  cmds = sym x.cmds;
  extra = sym x.extra;
  proposer = sym x.proposer;
  height = sym x.height;
  hash = sym x.hash;
}

-- Timers, decisions and certificates are not looked at.
timed-IsSame : (b : Block) (t : Timer) → IsSame b (record b { commit_timer = some t })
timed-IsSame b t = record {
  parent_hashes = refl;
  cmds = refl;
  extra = refl;
  proposer = refl;
  height = refl;
  hash = refl;
}

committed-IsSame : (b : Block) → IsSame b (committed b)
committed-IsSame b = record {
  parent_hashes = refl;
  cmds = refl;
  extra = refl;
  proposer = refl;
  height = refl;
  hash = refl;
}

-- The same storage and genesis block, and blocks that are the same to everybody else.
pub record Alike (c c' : Core) : Type 0 where
  pub storage : c'.storage ≡ c.storage
  pub genesis : c'.b0 ≡ c.b0
  pub back : (r : ℕ) (b' : Block) → Holds c' r b' → (b : Block) × Holds c r b × IsSame b b'

pub Alike-refl : (c : Core) → Alike c c
Alike-refl c = record { storage = refl; genesis = refl; back = λ r b' h. (b', h, IsSame-refl b') }

pub Alike-trans : {c d e : Core} → Alike c d → Alike d e → Alike c e
Alike-trans {c} {d} {e} x y = record {
  storage = y.storage ∙ x.storage;
  genesis = y.genesis ∙ x.genesis;
  back = both;
}
  where
    both : (r : ℕ) (b' : Block) → Holds e r b' → (b : Block) × Holds c r b × IsSame b b'
    both r b' h =
        let (b₁, h₁, k₁) = y.back r b' h in
        let (b₂, h₂, k₂) = x.back r b₁ h₁ in (b₂, h₂, IsSame-trans k₂ k₁)

-- Outputs, tails, the map and the mark are not looked at.
pub Alike-same :
    (c d e : Core)
    → Alike c d
    → e.blocks ≡ d.blocks
    → e.b0 ≡ d.b0
    → e.storage ≡ d.storage
    → Alike c e
Alike-same c d e x bs g st = record {
  storage = st ∙ x.storage;
  genesis = g ∙ x.genesis;
  back = λ r b' h. x.back r b' (rw bs at h);
}

pub put-Alike :
    (c : Core) (r : ℕ) {b : Block} (h : Holds c r b) (b' : Block)
    → IsSame b b'
    → Alike c (put r b' c)
put-Alike c r {b} h b' k = record { storage = refl; genesis = refl; back = at }
  where
    at : (j : ℕ) (a' : Block) → Holds (put r b' c) j a' → (a : Block) × Holds c j a × IsSame a a'
    at j a' e = elim (Bool-cases (r == j)) [
      | inl same ↦
          let eq : a' ≡ b' = ground (arith, e, get-put c r h b' j, same) in
          let here : r ≡ j = (==_iff r j).0 same in (b, rw (← here) h, rw eq k)
      | inr other ↦
          let old : Holds c j a' = ground (arith, e, get-put c r h b' j, other) in
          (a', old, IsSame-refl a')
    ]

pub update-Alike : (r : ℕ) (c c' : Core) → update r c ≡ ok c' → Alike c c'
update-Alike r c c' e = let (b, h, case) = update-UpdateCase r c c' e in at b h case
  where
    at : (b : Block) → Holds c r b → UpdateCase r b c c' → Alike c c'
    at b h (installed mark free hm eq) =
        let timed = record b {
          commit_timer = some (record { for_height = b.height; delay = 2 * c.delta });
        } in
        rw eq (
          unfold install in
          Alike-same c (put r timed c) (install r b mark c)
            (put-Alike c r h timed (timed-IsSame b _)) refl refl refl)
    at b h (repeated q old l ho same eq) = rw eq (Alike-refl c)
    at b h (conflict q old l ho other eq) = rw eq (Alike-same c c _ (Alike-refl c) refl refl refl)

pub on_receive_proposal-Alike : (r : ℕ) (c c' : Core) → on_receive_proposal r c ≡ ok c' → Alike c c'
on_receive_proposal-Alike r c c' e =
    let (b, h, d, case) = on_receive_proposal_cases r c c' e in at b case
  where
    at : (b : Block) → ReceiveCase r b c c' → Alike c c'
    at b (discarded q old l ho same eq) = rw eq (Alike-refl c)
    at b (accepted m u eq) = rw eq (Alike-same c m _ (update-Alike r c m u) refl refl refl)

pub commit_timer_cb-Alike :
    (r : ℕ) (b : Block) (t : Timer) (c c' : Core)
    → IsValid c
    → Holds c r b
    → b.commit_timer ≡ some t
    → commit_timer_cb t.for_height c ≡ ok c'
    → Alike c c'
commit_timer_cb-Alike r b t c c' v h armed e =
    let run = commit_timer_cb_lem t.for_height r b c (v.armed r b t h armed) h in
    elim (Bool-cases (b.decision == 1)) [
      | inl done ↦ let eq : c' ≡ c = ground (arith, run, e, done) in rw eq (Alike-refl c)
      | inr open_ ↦
          let eq : c' ≡ commit_blk r b c = ground (arith, run, e, open_) in
          rw eq (
            unfold commit_blk in
            Alike-same c (put r (committed b) c) (commit_blk r b c)
              (put-Alike c r h (committed b) (committed-IsSame b)) refl refl refl)
    ]

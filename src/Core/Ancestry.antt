-- ===== src/Core/Ancestry.antt =====
-- The parents of a block of the core, as src/consensus.cpp keeps them: `parent_hashes` comes from the
-- message or from the proposer, and `on_deliver_blk` fills `parents` from the storage.
pub mod Runs
use libe2c_cpp.Prelude.{
  ℕ, ◌*◌, ◌<◌, ◌≡◌, refl, sym, ◌∙◌, zero, suc, List, [], ◌∷◌, ◌++◌, Option, none, some, Bool, true,
  false, lookup, insert, lookup-insert, length, get_elem?, get_elem?-append_one,
  get_elem?-append_left, Option-cases, inl, inr, arith, Result, ok, null_pointer, ◌==◌, ==_iff,
  Bool-cases, >>=-eq-ok, or_fail-eq-ok,
}
use libe2c_cpp.Wire.{Salticidae}
use libe2c_cpp.Crypto.{PartCert}
use libe2c_cpp.Entity.{Block, Timer}
use libe2c_cpp.Entity.Codec.{serialize}
use libe2c_cpp.Core.{
  Core, deref, put, emit, set_erase_all, add_new_blk, on_init, new_core, broadcast_proposal,
  resolve_proposal, resolve_receive_proposal, equivocation,
}
use libe2c_cpp.Core.History.{Holds, Keeps, put-Extends, get-put}
use libe2c_cpp.Core.Invariant.{IsValid}
use libe2c_cpp.Core.Deliver.{on_deliver_blk}
use libe2c_cpp.Core.Deliver.Links.{IsLink, Links, delivered_blk, Outcome, on_deliver_blk_cases}
use libe2c_cpp.Core.Update.{install, update}
use libe2c_cpp.Core.Update.Cases.{UpdateCase, installed, repeated, conflict, update-UpdateCase}
use libe2c_cpp.Core.Receive.{on_receive_proposal}
use libe2c_cpp.Core.Receive.Safety.{ReceiveCase, discarded, accepted, on_receive_proposal_cases}
use libe2c_cpp.Core.Propose.{get_hashes, next_height, make_block, sign_block, publish, on_propose}
use libe2c_cpp.Core.Propose.Storing.{appended, add_new_blk_fresh, add_new_blk_known}
use libe2c_cpp.Core.Propose.Safety.{on_propose-Kept}
use libe2c_cpp.Core.Commit.{commit_blk, commit_timer_cb}
use libe2c_cpp.Core.Commit.Rounds.{committed, commit_timer_cb_lem}
use libe2c_cpp.Core.System.{
  Step, Reach, fetch, deliver, receive, propose, expire, here, next, Reach-Kept, initial,
  initial-IsValid,
}

-- The parents of a delivered block are the blocks that the storage has under its parent hashes, in
-- their order, each delivered.
abbrev pub IsRooted : Core → Type 0
IsRooted c =
    (r : ℕ) (b : Block) → Holds c r b → b.delivered ≡ true → Links c b.parent_hashes b.parents

module _ (c c' : Core)
    (found : (h r : ℕ)
      → lookup h c.storage.blk_cache ≡ some r
      → lookup h c'.storage.blk_cache ≡ some r)
    (kept : (r : ℕ) (b : Block)
      → Holds c r b
      → b.delivered ≡ true
      → (b' : Block) × Holds c' r b' × (b'.delivered ≡ true)) where
  Links-carry : (hs rs : List ℕ) → Links c hs rs → Links c' hs rs
  Links-carry [] [] l = tt
  Links-carry [] (r ∷ rs) l = absurd l
  Links-carry (h ∷ hs) [] l = absurd l
  Links-carry (h ∷ hs) (r ∷ rs) ((at, b, held, d), ls) =
      let (b', held', d') = kept r b held d in ((found h r at, b', held', d'), Links-carry hs rs ls)

pub IsRooted-same :
    (c c' : Core) → c'.blocks ≡ c.blocks → c'.storage ≡ c.storage → IsRooted c → IsRooted c'
IsRooted-same c c' bs st v = λ r b h d.
    Links-carry c c' (λ g q l. rw st l) (λ q a ha da. (a, rw bs ha, da)) b.parent_hashes b.parents
      (v r b (rw bs at h) d)

-- One block is written.
put-IsRooted :
    (c : Core) (r : ℕ) {b : Block} (h : Holds c r b) (b' : Block)
    → Keeps b b'
    → (b'.delivered ≡ true → Links c b'.parent_hashes b'.parents)
    → IsRooted c
    → IsRooted (put r b' c)
put-IsRooted c r {b} h b' k new v = at
  where
    carry : (hs rs : List ℕ) → Links c hs rs → Links (put r b' c) hs rs
    carry =
        Links-carry c (put r b' c) (λ g q l. l)
          (λ q a ha da.
            let (a', ha', ka) = (put-Extends c r h b' k).blocks q a ha in
            (a', ha', ka.delivered da))

    at : IsRooted (put r b' c)
    at j a e d = elim (Bool-cases (r == j)) [
      | inl same ↦
          let eq : a ≡ b' = ground (arith, e, get-put c r h b' j, same) in
          rw eq (carry b'.parent_hashes b'.parents (new (rw (← eq) d)))
      | inr other ↦
          let old : Holds c j a = ground (arith, e, get-put c r h b' j, other) in
          carry a.parent_hashes a.parents (v j a old d)
    ]

pub add_new_blk-IsRooted :
    (b : Block) (c : Core)
    → b.delivered ≡ false
    → ((h r : ℕ) → lookup h c.storage.blk_cache ≡ some r → r < length c.blocks)
    → IsRooted c
    → IsRooted (add_new_blk b c).1
add_new_blk-IsRooted b c new cached v = elim (Option-cases (lookup b.hash c.storage.blk_cache)) [
  | inl l ↦ rw (add_new_blk_fresh b c l) fresh
  | inr (q, l) ↦ rw (add_new_blk_known b c q l (cached b.hash q l)) v
]
  where
    fresh : IsRooted (appended b c)
    fresh r a h d =
        let old : Holds c r a = ground (arith, get_elem?-append_one c.blocks b r, h, d, new) in
        Links-carry c (appended b c)
          (λ g q l. ground (arith, l, lookup-insert b.hash g (length c.blocks) c.storage.blk_cache))
          (λ q x hx dx. (x, get_elem?-append_left c.blocks (b ∷ []) q hx, dx)) a.parent_hashes
          a.parents (v r a old d)

pub on_deliver_blk-IsRooted :
    (r : ℕ) (c c' : Core) (fresh : Bool)
    → on_deliver_blk r c ≡ ok (fresh, c')
    → IsRooted c
    → IsRooted c'
on_deliver_blk-IsRooted r c c' fresh e v =
    let (b, h, o) = on_deliver_blk_cases r c c' fresh e in at fresh b h o
  where
    at : (f : Bool) (b : Block) → Holds c r b → Outcome f r b c c' → IsRooted c'
    at true b h (new, (p, rest, pb, links, hp, eq)) =
        let b' = delivered_blk b (p ∷ rest) pb in
        let k : Keeps b b' = record {
          delivered = λ d. refl;
          height = λ d. cc;
          parents = λ d. cc;
          decided = λ d. d;
        } in
        IsRooted-same (put r b' c) c' (rw eq refl) (rw eq refl)
          (put-IsRooted c r h b' k (λ _. links) v)
    at false b h (old, eq) = rw eq v

-- A write that leaves the parents and what `IsRooted` looks at alone.
pub rewrite-IsRooted :
    (c c' : Core) (r : ℕ) {b : Block} (h : Holds c r b) (b' : Block)
    → c'.blocks ≡ (put r b' c).blocks
    → c'.storage ≡ c.storage
    → b'.delivered ≡ b.delivered
    → b'.height ≡ b.height
    → b'.parents ≡ b.parents
    → b'.parent_hashes ≡ b.parent_hashes
    → (b.decision ≡ 1 → b'.decision ≡ 1)
    → IsRooted c
    → IsRooted c'
rewrite-IsRooted c c' r {b} h b' bs st dl ht ps hs dc v =
    let k : Keeps b b' = record {
      delivered = λ d. dl ∙ d;
      height = λ _. ht;
      parents = λ _. ps;
      decided = dc;
    } in
    IsRooted-same (put r b' c) c' bs st
      (put-IsRooted c r h b' k (λ d. rw (hs, ps) (v r b h (sym dl ∙ d))) v)

pub update-IsRooted : (r : ℕ) (c c' : Core) → update r c ≡ ok c' → IsRooted c → IsRooted c'
update-IsRooted r c c' e v = let (b, h, case) = update-UpdateCase r c c' e in at b h case
  where
    at : (b : Block) → Holds c r b → UpdateCase r b c c' → IsRooted c'
    at b h (installed mark free hm eq) =
        let timed = record b {
          commit_timer = some (record { for_height = b.height; delay = 2 * c.delta });
        } in
        rw eq (
          unfold install in
          rewrite-IsRooted c (install r b mark c) r h timed refl refl refl refl refl refl (λ d. d)
            v)
    at b h (repeated q old l ho same eq) = rw eq v
    at b h (conflict q old l ho other eq) =
        rw eq (IsRooted-same c (emit (equivocation b.height) c) refl refl v)

pub on_receive_proposal-IsRooted :
    (r : ℕ) (c c' : Core) → on_receive_proposal r c ≡ ok c' → IsRooted c → IsRooted c'
on_receive_proposal-IsRooted r c c' e v =
    let (b, h, d, case) = on_receive_proposal_cases r c c' e in at b case
  where
    at : (b : Block) → ReceiveCase r b c c' → IsRooted c'
    at b (discarded q old l ho same eq) = rw eq v
    at b (accepted m u eq) =
        let out = emit (resolve_receive_proposal r) (emit (broadcast_proposal r) m) in
        rw eq (IsRooted-same m out refl refl (update-IsRooted r c m u v))

pub commit_timer_cb-IsRooted :
    (r : ℕ) (b : Block) (t : Timer) (c c' : Core)
    → IsValid c
    → Holds c r b
    → b.commit_timer ≡ some t
    → commit_timer_cb t.for_height c ≡ ok c'
    → IsRooted c
    → IsRooted c'
commit_timer_cb-IsRooted r b t c c' valid h armed e v =
    let run = commit_timer_cb_lem t.for_height r b c (valid.armed r b t h armed) h in
    elim (Bool-cases (b.decision == 1)) [
      | inl done ↦ let eq : c' ≡ c = ground (arith, run, e, done) in rw eq v
      | inr open_ ↦
          let eq : c' ≡ commit_blk r b c = ground (arith, run, e, open_) in
          rw eq (
            unfold commit_blk in
            rewrite-IsRooted c (commit_blk r b c) r h (committed b) refl refl refl refl refl refl
              (λ _. refl) v)
    ]

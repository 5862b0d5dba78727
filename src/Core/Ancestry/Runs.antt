-- ===== src/Core/Ancestry/Runs.antt =====
-- The parents of blocks over whole runs of the core.
use libe2c_cpp.Prelude.{
  ℕ, ◌≡◌, refl, zero, suc, List, [], Option, some, true, arith, Result, ok, null_pointer, >>=-eq-ok,
  or_fail-eq-ok,
}
use libe2c_cpp.Wire.{Salticidae}
use libe2c_cpp.Crypto.{PartCert}
use libe2c_cpp.Entity.{Block}
use libe2c_cpp.Entity.Codec.{serialize}
use libe2c_cpp.Core.{
  Core, deref, put, emit, set_erase_all, add_new_blk, on_init, new_core, broadcast_proposal,
  resolve_proposal,
}
use libe2c_cpp.Core.History.{Holds}
use libe2c_cpp.Core.Invariant.{IsValid}
use libe2c_cpp.Core.Deliver.{on_deliver_blk}
use libe2c_cpp.Core.Deliver.Links.{Links}
use libe2c_cpp.Core.Update.{update}
use libe2c_cpp.Core.Propose.{get_hashes, next_height, make_block, sign_block, publish, on_propose}
use libe2c_cpp.Core.System.{
  Step, Reach, fetch, deliver, receive, propose, expire, here, next, Reach-Kept, initial,
  initial-IsValid,
}
use libe2c_cpp.Core.Ancestry.{
  IsRooted, IsRooted-same, add_new_blk-IsRooted, on_deliver_blk-IsRooted, rewrite-IsRooted,
  update-IsRooted, on_receive_proposal-IsRooted, commit_timer_cb-IsRooted,
}

module _ (w : Salticidae) (create_part_cert : ℕ → Result PartCert) where
  sign_block-IsRooted :
      (r : ℕ) (c c' : Core) → sign_block w create_part_cert r c ≡ ok c' → IsRooted c → IsRooted c'
  unfolding sign_block
  sign_block-IsRooted r c c' e v =
      let (b, at, e₁) = >>=-eq-ok (deref c r) _ e in
      let (cert, made, e₂) = >>=-eq-ok (create_part_cert (w.digest (serialize w b))) _ e₁ in
      let h = or_fail-eq-ok _ null_pointer at in
      let b' = record b { hash = w.digest (serialize w b); signature = some cert } in
      let eq : c' ≡ put r b' c = ground arith in
      rw eq (rewrite-IsRooted c (put r b' c) r h b' refl refl refl refl refl refl (λ d. d) v)

  publish-IsRooted :
      (r : ℕ) (c c' : Core) → publish w create_part_cert r c ≡ ok c' → IsRooted c → IsRooted c'
  unfolding publish
  publish-IsRooted r c c' e v =
      let (c₂, e₁, f₁) = >>=-eq-ok (sign_block w create_part_cert r c) _ e in
      let ((fresh, c₃), e₂, f₂) = >>=-eq-ok (on_deliver_blk r c₂) _ f₁ in
      let (c₄, e₃, f₃) = >>=-eq-ok (update r c₃) _ f₂ in
      let out = emit (resolve_proposal r) (emit (broadcast_proposal r) c₄) in
      let last : c' ≡ out = ground arith in
      let v₂ = sign_block-IsRooted r c c₂ e₁ v in
      let v₃ = on_deliver_blk-IsRooted r c₂ c₃ fresh e₂ v₂ in
      rw last (IsRooted-same c₄ out refl refl (update-IsRooted r c₃ c₄ e₃ v₃))

  on_propose-IsRooted :
      (cmds : List ℕ) (ps : List (Option ℕ)) (extra : List ℕ) (r : ℕ) (c c' : Core)
      → on_propose w create_part_cert cmds ps extra c ≡ ok (r, c')
      → IsValid c
      → IsRooted c
      → IsRooted c'
  unfolding on_propose make_block
  on_propose-IsRooted cmds ps extra r c c' e valid v =
      let (hs, e₁, f₁) = >>=-eq-ok (get_hashes c ps) _ e in
      let (height, e₂, f₂) = >>=-eq-ok (next_height w create_part_cert c hs.0) _ f₁ in
      let b = make_block w create_part_cert hs.0 hs.1 cmds extra height c.id in
      let c₁ = record c { tails = set_erase_all hs.0 c.tails } in
      let x = add_new_blk b c₁ in
      let (d, e₃, f₃) = >>=-eq-ok (publish w create_part_cert x.0 x.1) _ f₂ in
      let last : c' ≡ d = ground arith in
      let stored = add_new_blk-IsRooted b c₁ refl valid.cached (IsRooted-same c c₁ refl refl v) in
      rw last (publish-IsRooted x.0 x.1 d e₃ stored)

  Step-IsRooted :
      {c c' : Core} → Step w create_part_cert c c' → IsValid c → IsRooted c → IsRooted c'
  Step-IsRooted {c} (fetch b new open_ unarmed eq) valid v =
      rw eq (add_new_blk-IsRooted b c new valid.cached v)
  Step-IsRooted {c} {c'} (deliver r fresh e) valid v = on_deliver_blk-IsRooted r c c' fresh e v
  Step-IsRooted {c} {c'} (receive r e) valid v = on_receive_proposal-IsRooted r c c' e v
  Step-IsRooted {c} {c'} (propose cmds ps extra r e) valid v =
      on_propose-IsRooted cmds ps extra r c c' e valid v
  Step-IsRooted {c} {c'} (expire r b t h a e) valid v =
      commit_timer_cb-IsRooted r b t c c' valid h a e v

  Reach-IsRooted :
      {c c' : Core} → IsValid c → Reach w create_part_cert c c' → IsRooted c → IsRooted c'
  Reach-IsRooted valid here v = v
  Reach-IsRooted valid (next p s) v =
      Step-IsRooted s (Reach-Kept valid p).0 (Reach-IsRooted valid p v)

initial-IsRooted : (id g delta nfaulty : ℕ) → IsRooted (initial id g delta nfaulty)
unfolding on_init new_core
initial-IsRooted id g delta nfaulty zero b h d =
    let hs : b.parent_hashes ≡ [] = ground arith in
    let ps : b.parents ≡ [] = ground arith in rw (hs, ps) tt
initial-IsRooted id g delta nfaulty (suc r) b h d = cc

-- In every state that a replica reaches, the parents of a delivered block are the blocks that the
-- storage has under its parent hashes: as many, in the same order, and each of them is delivered.
pub parents_stored :
    (w : Salticidae) (create_part_cert : ℕ → Result PartCert) (id g delta nfaulty : ℕ) (c : Core)
    → Reach w create_part_cert (initial id g delta nfaulty) c
    → (r : ℕ) (b : Block) → Holds c r b
    → b.delivered ≡ true
    → Links c b.parent_hashes b.parents
parents_stored w cert id g delta nfaulty c start =
    Reach-IsRooted w cert (initial-IsValid id g delta nfaulty) start
      (initial-IsRooted id g delta nfaulty)

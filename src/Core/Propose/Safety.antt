-- ===== src/Core/Propose/Safety.antt =====
-- A successful proposal keeps the invariant and the history, and its block is delivered and stored.
use libe2c_cpp.Prelude.{
  ℕ, ◌≡◌, refl, List, ◌∷◌, Option, some, true, false, Bool, length-set, arith, Result, ok,
  null_pointer, >>=-eq-ok, or_fail-eq-ok,
}
use libe2c_cpp.Wire.{Salticidae}
use libe2c_cpp.Crypto.{PartCert}
use libe2c_cpp.Entity.{Block}
use libe2c_cpp.Entity.Codec.{serialize}
use libe2c_cpp.Core.{
  Core, deref, put, emit, set_erase_all, add_new_blk, broadcast_proposal, resolve_proposal,
}
use libe2c_cpp.Core.History.{Holds, Keeps, put-Extends, Holds-put}
use libe2c_cpp.Core.Invariant.{
  IsValid, Kept, Kept-trans, Kept-same, emit-Kept, carry-IsValid, put-IsChained, put-decided,
  put-armed,
}
use libe2c_cpp.Core.Deliver.{on_deliver_blk}
use libe2c_cpp.Core.Deliver.Links.{Outcome, delivered_blk, on_deliver_blk_cases}
use libe2c_cpp.Core.Deliver.Safety.{on_deliver_blk-IsValid}
use libe2c_cpp.Core.Update.{update}
use libe2c_cpp.Core.Update.Safety.{update-IsValid}
use libe2c_cpp.Core.Propose.{get_hashes, next_height, make_block, sign_block, publish, on_propose}
use libe2c_cpp.Core.Propose.Storing.{add_new_blk-Kept}

-- A delivery leaves the block delivered, whichever way it goes.
pub on_deliver_blk_delivered :
    (r : ℕ) (c c' : Core) (fresh : Bool)
    → on_deliver_blk r c ≡ ok (fresh, c')
    → (b : Block) × Holds c' r b × (b.delivered ≡ true)
on_deliver_blk_delivered r c c' fresh e =
    let (b, h, o) = on_deliver_blk_cases r c c' fresh e in at fresh b h o
  where
    at :
        (f : Bool) (b : Block)
        → Holds c r b
        → Outcome f r b c c'
        → (b' : Block) × Holds c' r b' × (b'.delivered ≡ true)
    at true b h (new, (p, rest, pb, links, hp, eq)) =
        let b' = delivered_blk b (p ∷ rest) pb in (b', rw eq (Holds-put c r h b'), refl)
    at false b h (old, eq) = (b, rw eq h, old)

module _ (w : Salticidae) (create_part_cert : ℕ → Result PartCert) where
  pub sign_block-Kept :
      (r : ℕ) (c c' : Core) → sign_block w create_part_cert r c ≡ ok c' → IsValid c → Kept c c'
  unfolding sign_block
  sign_block-Kept r c c' e v =
      let (b, at, e₁) = >>=-eq-ok (deref c r) _ e in
      let (cert, made, e₂) = >>=-eq-ok (create_part_cert (w.digest (serialize w b))) _ e₁ in
      let h = or_fail-eq-ok _ null_pointer at in
      let b' = record b { hash = w.digest (serialize w b); signature = some cert } in
      let k : Keeps b b' = record {
        delivered = λ d. d;
        height = λ _. refl;
        parents = λ _. refl;
        decided = λ d. d;
      } in
      let x = put-Extends c r h b' k in
      let eq : c' ≡ put r b' c = ground arith in
      rw eq (
        carry-IsValid x v refl refl (λ g s l. rw (length-set c.blocks r b') (v.cached g s l))
            (put-IsChained v r h b' k (λ d ne. v.chained r b h d ne))
            (put-decided v r h b' k (λ d. v.decided r b h d))
            (put-armed v r h b' k (λ t e. v.armed r b t h e)),
        x,
      )

  -- The block that a publication is about is delivered, and held by the map at its height unless
  -- another block is there.
  publish-Kept :
      (r : ℕ) (c c' : Core) → publish w create_part_cert r c ≡ ok c' → IsValid c → Kept c c'
  unfolding publish
  publish-Kept r c c' e v =
      let (c₂, e₁, f₁) = >>=-eq-ok (sign_block w create_part_cert r c) _ e in
      let ((fresh, c₃), e₂, f₂) = >>=-eq-ok (on_deliver_blk r c₂) _ f₁ in
      let (c₄, e₃, f₃) = >>=-eq-ok (update r c₃) _ f₂ in
      let (b, h, d) = on_deliver_blk_delivered r c₂ c₃ fresh e₂ in
      let last : c' ≡ emit (resolve_proposal r) (emit (broadcast_proposal r) c₄) = ground arith in
      let signed = sign_block-Kept r c c₂ e₁ v in
      let delivered = Kept-trans signed (on_deliver_blk-IsValid r c₂ c₃ fresh e₂) in
      let updated = Kept-trans delivered (update-IsValid r c₃ c₄ b e₃ h d) in
      rw last (Kept-trans (Kept-trans updated (emit-Kept _ c₄)) (emit-Kept _ _))

  pub on_propose-Kept :
      (cmds : List ℕ) (ps : List (Option ℕ)) (extra : List ℕ) (r : ℕ) (c c' : Core)
      → on_propose w create_part_cert cmds ps extra c ≡ ok (r, c')
      → IsValid c
      → Kept c c'
  unfolding on_propose
  on_propose-Kept cmds ps extra r c c' e v =
      let (hs, e₁, f₁) = >>=-eq-ok (get_hashes c ps) _ e in
      let (height, e₂, f₂) = >>=-eq-ok (next_height w create_part_cert c hs.0) _ f₁ in
      let b = make_block w create_part_cert hs.0 hs.1 cmds extra height c.id in
      let c₁ = record c { tails = set_erase_all hs.0 c.tails } in
      let x = add_new_blk b c₁ in
      let (d, e₃, f₃) = >>=-eq-ok (publish w create_part_cert x.0 x.1) _ f₂ in
      let last : c' ≡ d = ground arith in
      let first = Kept-same c c₁ refl refl refl refl refl v in
      let stored = Kept-trans first (add_new_blk-Kept b c₁ refl refl refl) in
      rw last (Kept-trans stored (publish-Kept x.0 x.1 d e₃))

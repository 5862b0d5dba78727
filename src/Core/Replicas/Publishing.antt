-- ===== src/Core/Replicas/Publishing.antt =====
-- A new block of the proposer is published: signed, delivered, updated and put out.
use libe2c_cpp.Prelude.{
  ℕ, ◌≡◌, refl, ◌∙◌, sym, ap, List, some, lookup, lookup-assign, arith, Result, ok, null_pointer,
  >>=-eq-ok, or_fail-eq-ok,
}
use libe2c_cpp.Wire.{Salticidae}
use libe2c_cpp.Crypto.{PartCert}
use libe2c_cpp.Entity.{Block}
use libe2c_cpp.Entity.Codec.{serialize}
use libe2c_cpp.Core.{Core, deref, put, emit, broadcast_proposal, resolve_proposal}
use libe2c_cpp.Core.History.{Holds}
use libe2c_cpp.Core.Invariant.{IsValid}
use libe2c_cpp.Core.Deliver.{on_deliver_blk}
use libe2c_cpp.Core.Update.{install, update}
use libe2c_cpp.Core.Update.Cases.{UpdateCase, installed, repeated, conflict, update-UpdateCase}
use libe2c_cpp.Core.Propose.{sign_block, publish}
use libe2c_cpp.Core.Replicas.Sent.{IsSame, Alike, Alike-trans, Alike-same, put-Alike, update-Alike}
use libe2c_cpp.Core.Replicas.Chain.{IsChain, Carries, Alike-Carries, on_deliver_blk-Alike}
use libe2c_cpp.Core.Propose.Safety.{sign_block-Kept, on_deliver_blk_delivered}
use libe2c_cpp.Core.Replicas.Quiet.{Quiet, emit-Quiet, update-outputs, on_deliver_blk-Quiet}
use libe2c_cpp.Core.Deliver.Safety.{on_deliver_blk-IsValid}

-- The height that is updated has an entry afterwards.
update_held :
    (r : ℕ) (c c' : Core) (b : Block)
    → Holds c r b
    → update r c ≡ ok c'
    → (q : ℕ) × (lookup b.height c'.ht_blk_map ≡ some (some q))
update_held r c c' b h e =
    let (n, hn, case) = update-UpdateCase r c c' e in
    let is : n ≡ b = ground (arith, hn, h) in at (rw is at case)
  where
    at : UpdateCase r b c c' → (q : ℕ) × (lookup b.height c'.ht_blk_map ≡ some (some q))
    at (installed mark free hm eq) = (
      r,
      rw eq
          (unfold install in ground (arith, lookup-assign b.height b.height (some r) c.ht_blk_map)),
    )
    at (repeated q old l ho same eq) = (q, rw eq l)
    at (conflict q old l ho other eq) = (q, rw eq l)

module _ (w : Salticidae) (create_part_cert : ℕ → Result PartCert) where
  -- Signing writes the hash that is there and the certificate.
  sign_block-Alike :
      (r : ℕ) (b : Block) (c c' : Core)
      → Holds c r b
      → b.hash ≡ w.digest (serialize w b)
      → sign_block w create_part_cert r c ≡ ok c'
      → Alike c c'
  unfolding sign_block
  sign_block-Alike r b c c' h hash e =
      let (b₁, at, e₁) = >>=-eq-ok (deref c r) _ e in
      let (cert, made, e₂) = >>=-eq-ok (create_part_cert (w.digest (serialize w b₁))) _ e₁ in
      let h₁ : Holds c r b₁ = or_fail-eq-ok _ null_pointer at in
      let is : b₁ ≡ b = ground (arith, h₁, h) in
      let hash₁ : b₁.hash ≡ w.digest (serialize w b₁) = rw is hash in
      let b' = record b₁ { hash = w.digest (serialize w b₁); signature = some cert } in
      let eq : c' ≡ put r b' c = ground arith in
      let same : IsSame b₁ b' = record {
        parent_hashes = refl;
        cmds = refl;
        extra = refl;
        proposer = refl;
        height = refl;
        hash = sym hash₁;
      } in
      rw eq (put-Alike c r h₁ b' same)

  sign_block-outputs :
      (r : ℕ) (c c' : Core) → sign_block w create_part_cert r c ≡ ok c' → c'.outputs ≡ c.outputs
  unfolding sign_block
  sign_block-outputs r c c' e =
      let (b, at, e₁) = >>=-eq-ok (deref c r) _ e in
      let (cert, made, e₂) = >>=-eq-ok (create_part_cert (w.digest (serialize w b))) _ e₁ in
      ground arith

  -- The block that `on_propose` hands to the storage is published: signed, delivered, in the map at
  -- its height, and still what it was to everybody else.
  pub publish_lem :
      (g : ℕ) (qs : List Block) (r : ℕ) (n : Block) (c c' : Core)
      → IsChain g qs
      → Carries g qs c
      → IsValid c
      → Holds c r n
      → n.hash ≡ w.digest (serialize w n)
      → publish w create_part_cert r c ≡ ok c'
      → Alike c c'
        × ((q : ℕ) × (lookup n.height c'.ht_blk_map ≡ some (some q)))
        × (Quiet c → Quiet c')
  unfolding publish
  publish_lem g qs r n c c' chain v valid h hash e =
      let (c₂, e₁, f₁) = >>=-eq-ok (sign_block w create_part_cert r c) _ e in
      let ((fresh, c₃), e₂, f₂) = >>=-eq-ok (on_deliver_blk r c₂) _ f₁ in
      let (c₄, e₃, f₃) = >>=-eq-ok (update r c₃) _ f₂ in
      let x₂ = sign_block-Alike r n c c₂ h hash e₁ in
      let v₂ = Alike-Carries g qs c c₂ x₂ v in
      let valid₂ = (sign_block-Kept w create_part_cert r c c₂ e₁ valid).0 in
      let x₃ = Alike-trans x₂ (on_deliver_blk-Alike g qs chain c₂ v₂ r c₃ fresh valid₂ e₂) in
      let v₃ = Alike-Carries g qs c c₃ x₃ v in
      let valid₃ = (on_deliver_blk-IsValid r c₂ c₃ fresh e₂ valid₂).0 in
      let outputs = update-outputs g qs chain r c₃ c₄ valid₃ v₃ e₃ in
      let signed = sign_block-outputs r c c₂ e₁ in
      let x₄ = Alike-trans x₃ (update-Alike r c₃ c₄ e₃) in
      let (b, hb, _) = on_deliver_blk_delivered r c₂ c₃ fresh e₂ in
      let (n', hn, s) = x₃.back r b hb in
      let is : n' ≡ n = ground (arith, hn, h) in
      let level : b.height ≡ n.height = s.height ∙ ap (λ y. y.height) is in
      let (q, at) = update_held r c₃ c₄ b hb e₃ in
      let last : c' ≡ emit (resolve_proposal r) (emit (broadcast_proposal r) c₄) = ground arith in
      (
        rw last (Alike-same c c₄ _ x₄ refl refl refl),
        (q, rw last (rw level at at)),
        λ quiet. rw last (
            emit-Quiet (resolve_proposal r) (emit (broadcast_proposal r) c₄) tt (
              emit-Quiet (broadcast_proposal r) c₄ tt
                (rw outputs (on_deliver_blk-Quiet r c₂ c₃ fresh e₂ (rw signed quiet))))),
      )

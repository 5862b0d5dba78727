-- ===== src/Net/Async/Refines.antt =====
-- Whatever the network, the clients and the clocks do, the core of a replica makes the steps of
-- Core/System.
use libe2c_cpp.Prelude.{
  ℕ, ◌≡◌, refl, ◌∙◌, List, [], Option, none, some, Bool, true, false, arith, Result, ok, >>=-eq-ok,
  lookup, length, guard, assertion, ◌==◌, Bool-cases, inl, inr,
}
use libe2c_cpp.Wire.{Salticidae}
use libe2c_cpp.Crypto.{Secp256k1, PartCert}
use libe2c_cpp.Core.{Core, deref}
use libe2c_cpp.Core.Deliver
use libe2c_cpp.Core.Propose.{get_parents}
use libe2c_cpp.Core.Propose.Unchanged.{get_parents_same, on_propose_hashes}
use libe2c_cpp.Core.System.{Reach, deliver, propose}
use libe2c_cpp.PaceMaker.{beat}
use libe2c_cpp.Net.{Base}
use libe2c_cpp.Net.Commands.{drain, propose_next, propose_batch, pending_handler}
use libe2c_cpp.Net.Fetch.{
  Delivery, all_delivered, count_delivered, resolve_delivery, on_deliver_blk,
}
use libe2c_cpp.Net.Handlers.{parse_resp_block, resp_blk_handler, propose_handler}
use libe2c_cpp.Net.Async.{parse_proposal}
use libe2c_cpp.Net.Async.Frame
use libe2c_cpp.Net.Async.Received.{
  Reach-trans, Reach-same, Reach-one, parse_proposal-Reach, parse_resp_block-Reach,
}

resolve_delivery_core :
    (m : Option (Unit {0})) (valid : Bool) (h r : ℕ) (b : Base)
    → (resolve_delivery m valid h r b).1.core ≡ b.core
unfolding resolve_delivery
resolve_delivery_core none valid h r b = refl
resolve_delivery_core (some t) true h r b = refl
resolve_delivery_core (some t) false h r b = refl

count_delivered_core : (v : Bool) (n : ℕ) (b : Base) → (count_delivered v n b).core ≡ b.core
unfolding count_delivered
count_delivered_core false n b = refl
count_delivered_core true n b = refl

module _ (w : Salticidae) (create_part_cert : ℕ → Result PartCert) where
  pub on_deliver_blk-Reach :
      (r : ℕ) (b : Base) (x : Bool × Base)
      → on_deliver_blk r b ≡ ok x
      → Reach w create_part_cert b.core x.1.core
  unfolding on_deliver_blk
  on_deliver_blk-Reach r b x e =
      let (blk, e₁, f₁) = >>=-eq-ok (deref b.core r) _ e in
      let (u, e₂, f₂) = >>=-eq-ok (guard (all_delivered b.core blk.parent_hashes) assertion) _ f₁ in
      let (y, e₃, f₃) = >>=-eq-ok (Deliver.on_deliver_blk r b.core) _ f₂ in
      let b' = count_delivered y.0 (length blk.parent_hashes) (record b { core = y.1 }) in
      let last : x ≡ resolve_delivery (lookup blk.hash b'.blk_delivery_waiting) y.0 blk.hash r b' =
        ground arith in
      let same =
        resolve_delivery_core (lookup blk.hash b'.blk_delivery_waiting) y.0 blk.hash r b'
        ∙ count_delivered_core y.0 (length blk.parent_hashes) (record b { core = y.1 }) in
      Reach-trans (Reach-one (deliver r y.0 e₃)) (Reach-same (rw last same))

  propose_next-Reach :
      (cmds : List ℕ) (c : Core) (x : ℕ × Core)
      → propose_next w create_part_cert cmds c ≡ ok x
      → Reach w create_part_cert c x.1
  unfolding propose_next
  propose_next-Reach cmds c x e =
      let (y, e₁, f₁) = >>=-eq-ok (get_parents c) _ e in
      let (hs, e₂) = on_propose_hashes w create_part_cert cmds y.0 [] y.1 x f₁ in
      let same = get_parents_same c y hs e₁ e₂ in
      Reach-one (propose cmds y.0 [] x.0 (rw same at f₁))

  propose_batch-Reach :
      (cmds : Option (List ℕ)) (b : Base) (x : Bool × Base)
      → propose_batch w create_part_cert cmds b ≡ ok x
      → Reach w create_part_cert b.core x.1.core
  unfolding propose_batch
  propose_batch-Reach none b x e = Reach-same (ground arith)
  propose_batch-Reach (some cmds) b x e = elim (Bool-cases (beat b.pmaker == b.core.id)) [
    | inl leads ↦
        let (y, e₁, f₁) =
          >>=-eq-ok (propose_next w create_part_cert cmds b.core) _ (rw leads at e) in
        let eq : x.1.core ≡ y.1 = ground arith in rw eq (propose_next-Reach cmds b.core y e₁)
    | inr other ↦ Reach-same (ground (arith, e, other))
  ]

  pub pending_handler-Reach :
      (b : Base) (x : Bool × Base)
      → pending_handler w create_part_cert b ≡ ok x
      → Reach w create_part_cert b.core x.1.core
  unfolding pending_handler
  pending_handler-Reach b x e =
      let d = drain b.cmd_pending b in
      rw (← Frame.drain_core b.cmd_pending b) (propose_batch-Reach d.0 d.1 x e)

  pub propose_handler-Reach :
      (l : Secp256k1) (s : List ℕ) (peer : ℕ) (b : Base) (x : Option Delivery × Base)
      → propose_handler w (parse_proposal w l) s peer b ≡ ok x
      → Reach w create_part_cert b.core x.1.core
  unfolding propose_handler
  propose_handler-Reach l s peer b x e = elim (Bool-cases (peer == 0)) [
    | inl null ↦ Reach-same (ground (arith, e, null))
    | inr known ↦
        let (y, e₁, f₁) = >>=-eq-ok (parse_proposal w l s b.core) _ (rw known at e) in
        let (blk, e₂, f₂) = >>=-eq-ok (deref y.1 y.0) _ f₁ in
        let eq : x.1.core ≡ y.1 =
          Frame.check_proposal_core w y.0 blk peer (record b { core = y.1 }) x f₂ in
        rw eq (parse_proposal-Reach w create_part_cert l s y.0 b.core y.1 e₁)
  ]

  pub resp_blk_handler-Reach :
      (s : List ℕ) (b b' : Base)
      → resp_blk_handler w s b ≡ ok b'
      → Reach w create_part_cert b.core b'.core
  unfolding resp_blk_handler
  resp_blk_handler-Reach s b b' e =
      let (x, e₁, e₂) = >>=-eq-ok (parse_resp_block w s b.core) _ e in
      let same = Frame.fetch_each_core w x.0 (record b { core = x.1 }) b' e₂ in
      rw same (parse_resp_block-Reach w create_part_cert s x b.core e₁)

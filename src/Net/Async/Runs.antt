-- ===== src/Net/Async/Runs.antt =====
-- Runs of a replica with its network refine runs of the core.
use libe2c_cpp.Prelude.{
  ℕ, ◌≡◌, refl, List, [], ◌∷◌, Option, none, some, true, false, arith, Result, ok, >>=-eq-ok,
  or_fail-eq-ok, null_pointer, get_elem?, lookup, or_fail,
}
use libe2c_cpp.Wire.{Salticidae}
use libe2c_cpp.Crypto.{Secp256k1, PartCert}
use libe2c_cpp.Entity.{Block, Timer}
use libe2c_cpp.Entity.Storage
use libe2c_cpp.Core.{Core, deref}
use libe2c_cpp.Core.History.{Holds}
use libe2c_cpp.Core.Receive.{on_receive_proposal}
use libe2c_cpp.Core.System.{Reach, receive, expire}
use libe2c_cpp.PaceMaker.{impeach}
use libe2c_cpp.Net.{Base}
use libe2c_cpp.Net.Commands.{pending_handler}
use libe2c_cpp.Net.Fetch.{Delivery, on_deliver_blk}
use libe2c_cpp.Net.Handlers.{resp_blk_handler, propose_handler}
use libe2c_cpp.Net.Async.{
  Async, parse_proposal, call, Callback, deliver_checked, receive_proposal, continue_delivery,
  send_blks, verify_unless_genesis, expect_proposal, on_msg_propose, when_delivered, is_new,
  with_base,
}
use libe2c_cpp.Net.Async.Events.{
  Event, got_propose, got_req_block, got_resp_block, got_command, commands_pending, fetch_timeout,
  commit_timeout, impeach_timeout, stat_timeout, promise_resolved, core_output, callback_ready,
  fire, call_at, step, run,
}
use libe2c_cpp.Net.Async.Frame
use libe2c_cpp.Net.Async.Refines.{
  resp_blk_handler-Reach, on_deliver_blk-Reach, pending_handler-Reach, propose_handler-Reach,
}
use libe2c_cpp.Net.Async.Received.{Reach-trans, Reach-same, Reach-one}

module _ (w : Salticidae) (l : Secp256k1) (create_part_cert : ℕ → Result PartCert) where
  call-Reach :
      (k : Callback) (a a' : Async)
      → call w l k a ≡ ok a'
      → Reach w create_part_cert a.base.core a'.base.core
  unfolding call when_delivered
  call-Reach (deliver_checked false r) a a' e = Reach-same (ground arith)
  call-Reach (deliver_checked true r) a a' e =
      let (x, e₁, e₂) = >>=-eq-ok (on_deliver_blk r a.base) _ e in
      let eq : a'.base ≡ x.1 = ground arith in
      rw eq (on_deliver_blk-Reach w create_part_cert r a.base x e₁)
  call-Reach (receive_proposal r) a a' e =
      let (c, e₁, e₂) = >>=-eq-ok (on_receive_proposal r a.base.core) _ e in
      let eq : a'.base.core ≡ c = ground arith in Reach-one (receive r (rw eq e₁))
  call-Reach (send_blks hs p) a a' e = Reach-same (ground arith)
  call-Reach (continue_delivery h p) a a' e =
      let (r, e₁, f₁) =
        >>=-eq-ok (or_fail (Storage.find_blk a.base.core.storage h) null_pointer) _ e in
      let (blk, e₂, f₂) = >>=-eq-ok (deref a.base.core r) _ f₁ in
      let (valid, e₃, f₃) = >>=-eq-ok (verify_unless_genesis w l r blk a.base.core) _ f₂ in
      Reach-same (ground (arith, f₃, Frame.begin_deliveries_core blk.parent_hashes p a))

  expect_proposal_core :
      (s : List ℕ) (peer : ℕ) (x : Option Delivery × Base) (a a' : Async)
      → expect_proposal w l s peer x a ≡ ok a'
      → a'.base.core ≡ x.1.core
  unfolding expect_proposal when_delivered
  expect_proposal_core s peer (none, b) a a' e = ground arith
  expect_proposal_core s peer (some d, b) a a' e =
      let (y, e₁, f₁) = >>=-eq-ok (parse_proposal w l s a.base.core) _ e in
      let (blk, e₂, f₂) = >>=-eq-ok (deref b.core y.0) _ f₁ in
      let begins = is_new (lookup blk.hash a.base.blk_delivery_waiting) in
      ground (arith, f₂, Frame.continue_with_core begins blk.hash peer d (with_base b a))

  on_msg_propose-Reach :
      (s : List ℕ) (peer : ℕ) (a a' : Async)
      → on_msg_propose w l s peer a ≡ ok a'
      → Reach w create_part_cert a.base.core a'.base.core
  unfolding on_msg_propose
  on_msg_propose-Reach s peer a a' e =
      let (x, e₁, e₂) = >>=-eq-ok (propose_handler w (parse_proposal w l) s peer a.base) _ e in
      Reach-trans (propose_handler-Reach w create_part_cert l s peer a.base x e₁)
        (Reach-same (expect_proposal_core s peer x a a' e₂))

  fire-Reach :
      (r : ℕ) (b : Block) (t : Option Timer) (c c' : Core)
      → Holds c r b
      → b.commit_timer ≡ t
      → fire t c ≡ ok c'
      → Reach w create_part_cert c c'
  unfolding fire
  fire-Reach r b none c c' h at e = Reach-same (ground arith)
  fire-Reach r b (some t) c c' h at e = Reach-one (expire r b t h at e)

  call_at-Reach :
      (i : ℕ) (k : Option Callback) (a a' : Async)
      → call_at w l create_part_cert i k a ≡ ok a'
      → Reach w create_part_cert a.base.core a'.base.core
  unfolding call_at
  call_at-Reach i none a a' e = Reach-same (ground arith)
  call_at-Reach i (some k) a a' e = call-Reach k _ a' e

  step-Reach :
      (e : Event) (a a' : Async)
      → step w l create_part_cert e a ≡ ok a'
      → Reach w create_part_cert a.base.core a'.base.core
  unfolding step
  step-Reach (got_propose s peer) a a' e = on_msg_propose-Reach s peer a a' e
  step-Reach (got_req_block hs peer) a a' e =
      Reach-same (Frame.on_msg_req_block_core hs peer a a' e)
  step-Reach (got_resp_block s) a a' e =
      let (b, e₁, e₂) = >>=-eq-ok (resp_blk_handler w s a.base) _ e in
      let eq : a'.base ≡ b = ground arith in
      rw eq (resp_blk_handler-Reach w create_part_cert s a.base b e₁)
  step-Reach (got_command h cb) a a' e = Reach-same (ground arith)
  step-Reach commands_pending a a' e =
      let (x, e₁, e₂) = >>=-eq-ok (pending_handler w create_part_cert a.base) _ e in
      let eq : a'.base ≡ x.1 = ground arith in
      rw eq (pending_handler-Reach w create_part_cert a.base x e₁)
  step-Reach (fetch_timeout h) a a' e =
      Reach-same (ground (arith, e, Frame.timeout_cb_core h a.base))
  step-Reach (commit_timeout r) a a' e =
      let (blk, e₁, f₁) = >>=-eq-ok (deref a.base.core r) _ e in
      let (c, e₂, f₂) = >>=-eq-ok (fire blk.commit_timer a.base.core) _ f₁ in
      let eq : a'.base.core ≡ c = ground arith in
      rw eq
        (fire-Reach r blk blk.commit_timer a.base.core c (or_fail-eq-ok _ null_pointer e₁) refl e₂)
  step-Reach impeach_timeout a a' e =
      let (p, e₁, e₂) = >>=-eq-ok (impeach a.base.core.config.nreplicas a.base.pmaker) _ e in
      Reach-same (ground arith)
  step-Reach (stat_timeout up) a a' e =
      Reach-same (ground (arith, e, Frame.print_stat_core up a.base))
  step-Reach promise_resolved a a' e = Reach-same (Frame.notify_next_core _ a a' e)
  step-Reach core_output a a' e =
      Reach-same
        (ground (arith, e, Frame.pass_output_core (get_elem? a.base.core.outputs a.n_passed) a))
  step-Reach (callback_ready i) a a' e = call_at-Reach i (get_elem? a.ready i) a a' e

  -- Whatever events happen, as long as no handler fails, the core of the replica has made steps of
  -- the core's transition system, from its state before to its state after.
  pub run-Reach :
      (es : List Event) (a a' : Async)
      → run w l create_part_cert es a ≡ ok a'
      → Reach w create_part_cert a.base.core a'.base.core
  unfolding run
  run-Reach [] a a' e = Reach-same (ground arith)
  run-Reach (e ∷ es) a a' h =
      let (a₁, h₁, h₂) = >>=-eq-ok (step w l create_part_cert e a) _ h in
      Reach-trans (step-Reach e a a₁ h₁) (run-Reach es a₁ a' h₂)

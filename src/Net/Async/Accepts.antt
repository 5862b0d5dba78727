-- ===== src/Net/Async/Accepts.antt =====
-- The events that follow an expected proposal, one by one.
use libe2c_cpp.Prelude.{
  ℕ, ◌+◌, ◌≡◌, ◌≢◌, refl, List, [], ◌∷◌, ◌++◌, some, true, false, arith, Result, ok, lookup, erase,
  length, get_elem?, ◌==◌, ==-refl,
}
use libe2c_cpp.Wire.{Salticidae}
use libe2c_cpp.Crypto.{Secp256k1, PartCert}
use libe2c_cpp.Entity.{Block}
use libe2c_cpp.Entity.Codec.{verify}
use libe2c_cpp.Entity.Storage
use libe2c_cpp.Core.{Core}
use libe2c_cpp.Core.Deliver.Links.{Links}
use libe2c_cpp.Core.Deliver.Linked.{Links-on_deliver_blk, after_delivery}
use libe2c_cpp.Core.History.{Holds}
use libe2c_cpp.Net.{Base, Message, send}
use libe2c_cpp.Net.Fetch.{on_deliver_blk, count_delivered, resolve_delivery}
use libe2c_cpp.Net.Async.{
  Async, call, verify_unless_genesis, notify, still_waiting, now_ready, without, Callback,
  continue_delivery, receive_proposal, deliver_checked, when_delivered,
}
use libe2c_cpp.Core.Receive.{on_receive_proposal}
use libe2c_cpp.Net.Async.Events.{promise_resolved, callback_ready, notify_next, call_at, step}
use libe2c_cpp.Net.Async.Deliverable.{
  Links-begin_deliveries, Links-undelivered, Links-all_delivered,
}

-- The replica after the delivery of a block.
abbrev pub delivered_base : ℕ → Block → Core → Base → Base
delivered_base r b c x =
    let counted = count_delivered true (length b.parent_hashes) (record x { core = c }) in
    record (send (Message.delivered_blk r) counted) {
      blk_delivery_waiting = erase b.hash x.blk_delivery_waiting;
    }

module _ (w : Salticidae) (l : Secp256k1) (create_part_cert : ℕ → Result PartCert) (r : ℕ)
    (b : Block) (x : Async) (held : Holds x.base.core r b) where
  -- The block has been fetched: it is verified, and its parents are there.
  pub continued :
      (peer : ℕ) (rs : List ℕ)
      → x.ready ≡ continue_delivery b.hash peer ∷ []
      → lookup b.hash x.base.core.storage.blk_cache ≡ some r
      → r ≢ x.base.core.b0
      → verify w l x.base.core.config b ≡ ok true
      → Links x.base.core b.parent_hashes rs
      → step w l create_part_cert (callback_ready 0) x
        ≡ ok (record x { deliveries = x.deliveries ++ []; ready = deliver_checked true r ∷ [] })
  unfolding step call_at call verify_unless_genesis when_delivered Storage.find_blk
  continued peer rs ready at ne valid links =
      let other : (r == x.base.core.b0) ≡ false = ground (arith, ne) in
      let none_left = Links-undelivered x.base.core b.parent_hashes rs links in
      let begun = Links-begin_deliveries peer (record x { ready = [] }) b.parent_hashes rs links in
      rw (ready, at, held, other, valid, begun, none_left) refl

  -- Its parents have been delivered, and it has been verified: it is delivered.
  pub delivered_now :
      (p : ℕ) (rest : List ℕ) (pb : Block)
      → x.ready ≡ deliver_checked true r ∷ []
      → b.delivered ≡ false
      → Links x.base.core b.parent_hashes (p ∷ rest)
      → Holds x.base.core p pb
      → lookup b.hash x.base.blk_delivery_waiting ≡ some tt
      → step w l create_part_cert (callback_ready 0) x
        ≡ ok (record x {
          base = delivered_base r b (after_delivery r b p rest pb x.base.core) x.base;
          ready = [];
        })
  unfolding step call_at call on_deliver_blk count_delivered resolve_delivery
  delivered_now p rest pb ready fresh links parent waits =
      let all = Links-all_delivered x.base.core b.parent_hashes (p ∷ rest) links in
      let done = Links-on_deliver_blk r b p rest pb x.base.core held fresh links parent in
      rw (ready, done, held, all, waits) refl

-- The promise of its delivery is resolved, for which only its proposal waits.
pub resolved_now :
    (w : Salticidae) (l : Secp256k1) (create_part_cert : ℕ → Result PartCert) (r : ℕ) (b : Block)
    (k : Callback) (x : Async)
    → Holds x.base.core r b
    → get_elem? x.base.sent x.n_resolved ≡ some (Message.delivered_blk r)
    → x.ready ≡ []
    → x.deliveries ≡ record { missing = b.hash ∷ []; callback = k } ∷ []
    → step w l create_part_cert promise_resolved x
      ≡ ok (record x { n_resolved = x.n_resolved + 1; deliveries = []; ready = k ∷ [] })
unfolding step notify_next notify still_waiting now_ready without
resolved_now w l create_part_cert r b k x held at ready waits =
    rw (at, held, ready, waits, ==-refl b.hash) refl

-- The proposal is received.
pub received_now :
    (w : Salticidae) (l : Secp256k1) (create_part_cert : ℕ → Result PartCert) (r : ℕ) (x : Async)
    (c : Core)
    → x.ready ≡ receive_proposal r ∷ []
    → on_receive_proposal r x.base.core ≡ ok c
    → step w l create_part_cert (callback_ready 0) x
      ≡ ok (record x { base = record x.base { core = c }; ready = [] })
unfolding step call_at call
received_now w l create_part_cert r x c ready e = rw (ready, e) refl

-- ===== src/Net/Async/Expected.antt =====
-- A proposal that is expected is accepted: from its bytes to its commit timer.
use libe2c_cpp.Prelude.{
  ℕ, ◌+◌, ◌<◌, ◌≡◌, ◌≢◌, refl, ◌∙◌, ap, List, [], ◌∷◌, ◌++◌, none, some, true, false, arith, Result,
  ok, lookup, insert, lookup-insert, length, get_elem?, get_elem?_lt, ◌%◌, ◌^◌,
  get_elem?-append_left, get_elem?-append_last, ◌==◌, ==-refl,
}
use libe2c_cpp.Wire.{Salticidae}
use libe2c_cpp.Crypto.{Secp256k1, PartCert}
use libe2c_cpp.Entity.{Block}
use libe2c_cpp.Entity.Codec.{read_proposal, verify}
use libe2c_cpp.Entity.Storage
use libe2c_cpp.Core.{Core}
use libe2c_cpp.Core.Deliver.Links.{Links, delivered_blk}
use libe2c_cpp.Core.Deliver.Linked.{Links-mono, Links-on_deliver_blk, after_delivery}
use libe2c_cpp.Core.History.{Holds, Holds-put}
use libe2c_cpp.Core.Invariant.{IsValid}
use libe2c_cpp.Core.Propose.Storing.{appended, add_new_blk_fresh}
use libe2c_cpp.PaceMaker.{get_proposer}
use libe2c_cpp.Net.{Base, Message}
use libe2c_cpp.Net.Fetch.{continues}
use libe2c_cpp.Net.Handlers.{check_proposal, propose_handler}
use libe2c_cpp.Net.Async.{
  Async, Waiter, Callback, continue_delivery, receive_proposal, deliver_checked, undelivered,
  unfetched, continue_with, when_fetched, when_delivered, parse_proposal, expect_proposal,
  on_msg_propose,
}
use libe2c_cpp.Net.Async.Events.{got_propose, promise_resolved, callback_ready, step, run}
use libe2c_cpp.Net.Async.Accepts.{
  delivered_base, continued, delivered_now, resolved_now, received_now,
}
use libe2c_cpp.Net.Async.Received.{IsNew, read_proposal-IsNew}
use libe2c_cpp.Core.Receive.Once.{armed_blk, receive_first}
use libe2c_cpp.Core.{broadcast_proposal, resolve_receive_proposal}
use libe2c_cpp.Core.Propose.Storing.{add_new_blk-Kept}
use libe2c_cpp.Core.Deliver.Safety.{on_deliver_blk-IsValid}
use libe2c_cpp.Net.Async.Deliverable.{
  delivering, at_stored, stored_Holds, not_delivered_yet, async_deliver_blk-stored,
}

-- A proposal by the expected proposer, of a block that is new and verifies,
-- whose parents are delivered, the first one as `pb`.
pub record IsExpected (w : Salticidae) (l : Secp256k1) (s : List ℕ) (peer : ℕ) (b : Block) (p : ℕ)
    (rest : List ℕ) (pb : Block) (x : Base) : Type 0 where
  pub peer_known : peer ≢ 0
  pub parsed : (s' : List ℕ) × (read_proposal w l s ≡ ok (b, s'))
  pub proposer : b.proposer ≡ get_proposer x.pmaker
  pub high : b.height ≢ 0
  pub new : lookup b.hash x.core.storage.blk_cache ≡ none
  pub idle : lookup b.hash x.blk_delivery_waiting ≡ none
  pub valid : verify w l x.core.config b ≡ ok true
  pub parents : Links x.core b.parent_hashes (p ∷ rest)
  pub parent : Holds x.core p pb

module _ (w : Salticidae) (l : Secp256k1) (create_part_cert : ℕ → Result PartCert) (s : List ℕ)
    (peer : ℕ) (b : Block) (p : ℕ) (rest : List ℕ) (pb : Block) (a : Async)
    (e : IsExpected w l s peer b p rest pb a.base) where
  is_new_blk : IsNew b
  is_new_blk = let (s', read) = e.parsed in read_proposal-IsNew w l s (b, s') read

  abbrev r : ℕ
  r = length a.base.core.blocks

  parsed_fresh : parse_proposal w l s a.base.core ≡ ok (r, appended b a.base.core)
  unfolding parse_proposal
  parsed_fresh = let (s', read) = e.parsed in rw (read, add_new_blk_fresh b a.base.core e.new) refl

  handled :
      propose_handler w (parse_proposal w l) s peer a.base
      ≡ ok (some (continues r), delivering b peer a.base is_new_blk.0 e.new e.idle)
  unfolding propose_handler check_proposal
  handled =
      let known : (peer == 0) ≡ false = ground (arith, e.peer_known) in
      let low : (b.height == 0) ≡ false = ground (arith, e.high) in
      let same : (b.proposer == get_proposer a.base.pmaker) ≡ true = ground (arith, e.proposer) in
      rw
        (
          known,
          parsed_fresh,
          stored_Holds b peer a.base is_new_blk.0 e.new e.idle,
          async_deliver_blk-stored b peer a.base is_new_blk.0 e.new e.idle,
          low,
          same,
        )
        refl

  -- The first event: the proposal arrives.
  arrived :
      step w l create_part_cert (got_propose s peer) a
      ≡ ok (record a {
        base = delivering b peer a.base is_new_blk.0 e.new e.idle;
        fetches = a.fetches ++ [];
        deliveries =
            a.deliveries ++ record { missing = b.hash ∷ []; callback = receive_proposal r } ∷ [];
        ready = (a.ready ++ continue_delivery b.hash peer ∷ []) ++ [];
      })
  unfolding step on_msg_propose expect_proposal continue_with when_fetched when_delivered
      undelivered unfetched Storage.is_blk_fetched
  arrived =
      rw
        (
          handled,
          parsed_fresh,
          stored_Holds b peer a.base is_new_blk.0 e.new e.idle,
          at_stored b peer a.base is_new_blk.0 e.new e.idle,
          not_delivered_yet b peer a.base is_new_blk.0 e.new e.idle,
        )
        refl

  abbrev c₁ : Core
  c₁ = appended b a.base.core

  parents_stored : Links c₁ b.parent_hashes (p ∷ rest)
  parents_stored =
      Links-mono a.base.core c₁
        (λ h q at.
          ground (arith, at, e.new, lookup-insert b.hash h r a.base.core.storage.blk_cache))
        (λ q x at d. get_elem?-append_left a.base.core.blocks (b ∷ []) q at) b.parent_hashes
        (p ∷ rest) e.parents

  ne_genesis : IsValid a.base.core → r ≢ a.base.core.b0
  ne_genesis v =
      let (g, genesis, _) = v.genesis in
      let old : a.base.core.b0 < r = get_elem?_lt a.base.core.blocks a.base.core.b0 genesis in
      λ z. omega (arith, old, z)

  delivery_waits : lookup b.hash (insert b.hash tt a.base.blk_delivery_waiting) ≡ some tt
  delivery_waits =
      rw (lookup-insert b.hash b.hash tt a.base.blk_delivery_waiting, e.idle, ==-refl b.hash) refl

  delivered-IsValid : IsValid a.base.core → IsValid (after_delivery r b p rest pb c₁)
  delivered-IsValid v =
      let (fresh, open_, unarmed) = is_new_blk in
      let stored_v = add_new_blk-Kept b a.base.core fresh open_ unarmed v in
      let v₁ : IsValid c₁ = rw (add_new_blk_fresh b a.base.core e.new) at stored_v.0 in
      let held = stored_Holds b peer a.base fresh e.new e.idle in
      let parent = get_elem?-append_left a.base.core.blocks (b ∷ []) p e.parent in
      (on_deliver_blk-IsValid r c₁ _ true
        (Links-on_deliver_blk r b p rest pb c₁ held fresh parents_stored parent) v₁).0

  -- A replica with a well-formed core, in no other delivery, whose promises have all been seen to, is
  -- sent a proposal that it expects: from a peer with an identity, by the expected proposer, of a
  -- height that is not 0, of a block that is new and verifies and whose parents are delivered, at a
  -- height, one above its first parent's, that is free in the map. Then the callbacks run in their
  -- order, and none fails: the block is verified, delivered and received. In the end the map has it at
  -- its height, its commit timer is set to twice delta, and it is broadcast and its promise resolved,
  -- once each.
  pub proposal_accepted :
      IsValid a.base.core
      → a.ready ≡ []
      → a.deliveries ≡ []
      → a.n_resolved ≡ length a.base.sent
      → lookup ((pb.height + 1) % 2 ^ 32) a.base.core.ht_blk_map ≡ none
      → (a' : Async) × (run w l create_part_cert
            (got_propose s peer
              ∷ callback_ready 0
              ∷ callback_ready 0
              ∷ promise_resolved
              ∷ callback_ready 0
              ∷ [])
            a
          ≡ ok a')
        × (lookup ((pb.height + 1) % 2 ^ 32) a'.base.core.ht_blk_map ≡ some (some r))
        × Holds a'.base.core r (armed_blk a.base.core (delivered_blk b (p ∷ rest) pb))
        × (a'.base.core.outputs
            ≡ (a.base.core.outputs ++ broadcast_proposal r ∷ []) ++ resolve_receive_proposal r ∷ [])
  unfolding run
  proposal_accepted v ready idle seen free =
      let (fresh, open_, unarmed) = is_new_blk in
      let ne = ne_genesis v in
      let held = stored_Holds b peer a.base fresh e.new e.idle in
      let b₃ = delivered_blk b (p ∷ rest) pb in
      let c₃ = after_delivery r b p rest pb c₁ in
      let parent = get_elem?-append_left a.base.core.blocks (b ∷ []) p e.parent in
      let waiter : Waiter = record { missing = b.hash ∷ []; callback = receive_proposal r } in
      let quiet : Path (List Waiter × List Callback) (a.deliveries, a.ready) ([], []) =
        rw (idle, ready) refl in
      let x₁ : Async = record a {
        base = delivering b peer a.base fresh e.new e.idle;
        fetches = a.fetches ++ [];
        deliveries = waiter ∷ [];
        ready = continue_delivery b.hash peer ∷ [];
      } in
      let x₂ : Async = record x₁ { ready = deliver_checked true r ∷ [] } in
      let x₃ : Async = record x₂ { base = delivered_base r b c₃ x₂.base; ready = [] } in
      let x₄ : Async = record x₃ {
        n_resolved = x₃.n_resolved + 1;
        deliveries = [];
        ready = receive_proposal r ∷ [];
      } in
      let first : step w l create_part_cert (got_propose s peer) a ≡ ok x₁ =
        arrived
        ∙ ap
            (λ z. ok (record x₁ {
              deliveries = z.0 ++ waiter ∷ [];
              ready = (z.1 ++ continue_delivery b.hash peer ∷ []) ++ [];
            }))
            quiet in
      let second : step w l create_part_cert (callback_ready 0) x₁ ≡ ok x₂ =
        continued w l create_part_cert r b x₁ held peer (p ∷ rest) refl
          (at_stored b peer a.base fresh e.new e.idle) ne e.valid parents_stored in
      let third : step w l create_part_cert (callback_ready 0) x₂ ≡ ok x₃ =
        delivered_now w l create_part_cert r b x₂ held p rest pb refl fresh parents_stored parent
          delivery_waits in
      let held₃ : Holds c₃ r b₃ = Holds-put c₁ r held b₃ in
      let resolved : get_elem? x₃.base.sent x₃.n_resolved ≡ some (Message.delivered_blk r) =
        rw seen (get_elem?-append_last a.base.sent (Message.delivered_blk r)) in
      let fourth : step w l create_part_cert promise_resolved x₃ ≡ ok x₄ =
        resolved_now w l create_part_cert r b₃ (receive_proposal r) x₃ held₃ resolved refl refl in
      let (c', received, at, armed, out, _) =
        receive_first r b₃ c₃ (delivered-IsValid v) held₃ refl free in
      let fifth = received_now w l create_part_cert r x₄ c' refl received in
      (
        record x₄ { base = record x₄.base { core = c' }; ready = [] },
        rw (first, second, third, fourth, fifth) refl,
        at,
        armed,
        out,
      )

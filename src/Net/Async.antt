-- ===== src/Net/Async.antt =====
-- The continuations of src/e2c.cpp: what `async_deliver_blk`, `propose_handler` and `req_blk_handler`
-- do when the promises resolve that they wait for. A `promise::all` is a `Waiter`: the hashes that it
-- misses, and the callback behind `then`. A promise that resolves makes callbacks `ready`; the source
-- calls them at once and nested, here each call is a step of its own, and any ready one may be next.

pub mod Events
pub mod Frame
pub mod Received
pub mod Refines
pub mod Runs
pub mod Safety
pub mod Answers
pub mod Deliverable
pub mod Accepts
pub mod Expected
use libe2c_cpp.Prelude.{
  ℕ, zero, suc, ◌+◌, List, [], ◌∷◌, ◌++◌, Option, none, some, Bool, true, false, lookup, is_some,
  get_elem?, ◌==◌, if◌then◌else◌, Result, ok, err, null_pointer, ◌>>=◌, or_fail,
}
use libe2c_cpp.Wire.{Salticidae}
use libe2c_cpp.Crypto.{Secp256k1}
use libe2c_cpp.Entity.{Block}
use libe2c_cpp.Entity.Codec.{verify, read_proposal}
use libe2c_cpp.Entity.Storage
use libe2c_cpp.Core.{Core, deref, add_new_blk}
use libe2c_cpp.Core.Receive.{on_receive_proposal}
use libe2c_cpp.Net.{Base, Message, send, fetched_blk, delivered_blk, msg_resp_block}
use libe2c_cpp.Net.Fetch.{
  is_delivered, Delivery, resolved, waiting, continues, async_deliver_blk, on_deliver_blk,
}
use libe2c_cpp.Net.Handlers.{propose_handler, req_blk_handler}

pub data Callback : Type 0 where
  -- of `promise::all` in `async_deliver_blk`, with what `verify` was resolved with
  deliver_checked : (valid : Bool) (blk : ℕ) → Callback
  -- of the fetch in `async_deliver_blk`
  continue_delivery : (blk_hash replica : ℕ) → Callback
  -- of `promise::all` in `propose_handler`
  receive_proposal : (blk : ℕ) → Callback
  -- of `promise::all` in `req_blk_handler`
  send_blks : (hashes : List ℕ) (replica : ℕ) → Callback

pub record Waiter : Type 0 where
  pub missing : List ℕ
  pub callback : Callback

-- The replica with the callbacks that wait for a fetch or for a delivery. Of `base.sent`, the first
-- `n_resolved` messages have been seen by the promises, and of `base.core.outputs` the first `n_passed`
-- have been handed to the overrides.
pub record Async : Type 0 where
  pub base : Base
  pub fetches : List Waiter
  pub deliveries : List Waiter
  pub ready : List Callback
  pub n_resolved : ℕ
  pub n_passed : ℕ

abbrev pub with_base : Base → Async → Async
with_base b a = record a { base = b }

abbrev pub with_core : Core → Async → Async
with_core c a = record a { base = record a.base { core = c } }

-- A promise resolves: it goes from every list of missing ones, and a waiter whose list is empty is
-- ready.
unfoldable pub without : ℕ → List ℕ → List ℕ
without h [] = []
without h (x ∷ xs) = let rest = without h xs in if x == h then rest else x ∷ rest

abbrev pub keep_waiter : List ℕ → Callback → List Waiter → List Waiter
keep_waiter [] k ws = ws
keep_waiter (h ∷ hs) k ws = record { missing = h ∷ hs; callback = k } ∷ ws

abbrev pub add_ready : List ℕ → Callback → List Callback → List Callback
add_ready [] k ks = k ∷ ks
add_ready (h ∷ hs) k ks = ks

unfoldable pub still_waiting : (blk_hash : ℕ) → List Waiter → List Waiter
unfolding without
still_waiting h [] = []
still_waiting h (x ∷ ws) = keep_waiter (without h x.missing) x.callback (still_waiting h ws)

unfoldable pub now_ready : (blk_hash : ℕ) → List Waiter → List Callback
unfolding without
now_ready h [] = []
now_ready h (x ∷ ws) = add_ready (without h x.missing) x.callback (now_ready h ws)

unfoldable pub notify : Message → Async → Result Async
unfolding still_waiting now_ready
notify (fetched_blk r) a = do
  blk ← deref a.base.core r
  ok (record a {
    fetches = still_waiting blk.hash a.fetches;
    ready = a.ready ++ now_ready blk.hash a.fetches;
  })
notify (delivered_blk r) a = do
  blk ← deref a.base.core r
  ok (record a {
    deliveries = still_waiting blk.hash a.deliveries;
    ready = a.ready ++ now_ready blk.hash a.deliveries;
  })
notify m a = ok a

-- `promise::all(...).then(...)` on deliveries and on fetches: the ones that are there are resolved.
unfoldable pub undelivered : Core → List ℕ → List ℕ
unfolding is_delivered Storage.is_blk_delivered
undelivered c [] = []
undelivered c (h ∷ hs) =
    let rest = undelivered c hs in
    if Storage.is_blk_delivered c.storage (is_delivered c) h then rest else h ∷ rest

unfoldable pub unfetched : Core → List ℕ → List ℕ
unfolding Storage.is_blk_fetched
unfetched c [] = []
unfetched c (h ∷ hs) =
    let rest = unfetched c hs in if Storage.is_blk_fetched c.storage h then rest else h ∷ rest

unfoldable pub when_delivered : List ℕ → Callback → Async → Async
unfolding undelivered
when_delivered hs k a = record a {
  deliveries = a.deliveries ++ keep_waiter (undelivered a.base.core hs) k [];
  ready = a.ready ++ add_ready (undelivered a.base.core hs) k [];
}

unfoldable pub when_fetched : List ℕ → Callback → Async → Async
unfolding unfetched
when_fetched hs k a = record a {
  fetches = a.fetches ++ keep_waiter (unfetched a.base.core hs) k [];
  ready = a.ready ++ add_ready (unfetched a.base.core hs) k [];
}

-- `async_deliver_blk` with its `then`: a delivery that begins goes on when the block is fetched.
unfoldable pub continue_with : (begins : Bool) → (blk_hash replica : ℕ) → Delivery → Async → Async
unfolding when_fetched
continue_with begins h p (resolved _) a = a
continue_with false h p waiting a = a
continue_with true h p waiting a = when_fetched (h ∷ []) (continue_delivery h p) a
continue_with begins h p (continues r) a = when_fetched (h ∷ []) (continue_delivery h p) a

abbrev pub is_new : Option (Unit {0}) → Bool
is_new none = true
is_new (some _) = false

unfoldable pub begin_delivery : (blk_hash replica : ℕ) → Async → Async
unfolding continue_with async_deliver_blk lookup
begin_delivery h p a =
    let (d, b) = async_deliver_blk h p a.base in
    continue_with (is_new (lookup h a.base.blk_delivery_waiting)) h p d (with_base b a)

unfoldable pub begin_deliveries : List ℕ → (replica : ℕ) → Async → Async
unfolding begin_delivery
begin_deliveries [] p a = a
begin_deliveries (h ∷ hs) p a = begin_deliveries hs p (begin_delivery h p a)

-- `promise::values_t` of the fetches.
unfoldable pub found : Core → List ℕ → List ℕ
unfolding Storage.find_blk
found c [] = []
found c (h ∷ hs) = elim (Storage.find_blk c.storage h) [
  | none ↦ found c hs
  | some r ↦ r ∷ found c hs
]

module _ (w : Salticidae) (l : Secp256k1) where
  -- The genesis block is not verified.
  unfoldable pub verify_unless_genesis : (blk : ℕ) → Block → Core → Result Bool
  unfolding verify
  verify_unless_genesis r blk c = if r == c.b0 then ok true else verify w l c.config blk

  -- The callbacks
  unfoldable pub call : Callback → Async → Result Async
  unfolding verify_unless_genesis when_delivered begin_deliveries on_deliver_blk found
  call (deliver_checked false r) a = ok a
  call (deliver_checked true r) a = do (_, b) ← on_deliver_blk r a.base; ok (with_base b a)
  call (receive_proposal r) a = do c ← on_receive_proposal r a.base.core; ok (with_core c a)
  call (send_blks hs p) a = ok (with_base (send (msg_resp_block (found a.base.core hs) p) a.base) a)
  call (continue_delivery h p) a = do
    r ← or_fail (Storage.find_blk a.base.core.storage h) null_pointer
    blk ← deref a.base.core r
    valid ← verify_unless_genesis r blk a.base.core
    let a' = begin_deliveries blk.parent_hashes p a
    ok (when_delivered blk.parent_hashes (deliver_checked valid r) a')

  -- `MsgPropose::postponed_parse`
  unfoldable pub parse_proposal : List ℕ → Core → Result (ℕ × Core)
  unfolding read_proposal add_new_blk
  parse_proposal s c = do (b, s) ← read_proposal w l s; ok (add_new_blk b c)

  -- The handlers, with their continuations.
  unfoldable pub expect_proposal :
      (s : List ℕ) (peer : ℕ) → Option Delivery × Base → Async → Result Async
  unfolding parse_proposal continue_with when_delivered lookup
  expect_proposal s peer (none, b) a = ok (with_base b a)
  expect_proposal s peer (some d, b) a = do
    (r, c) ← parse_proposal s a.base.core
    blk ← deref b.core r
    let begins = is_new (lookup blk.hash a.base.blk_delivery_waiting)
    let a' = continue_with begins blk.hash peer d (with_base b a)
    ok (when_delivered (blk.hash ∷ []) (receive_proposal r) a')

  unfoldable pub on_msg_propose : (s : List ℕ) (peer : ℕ) → Async → Result Async
  unfolding propose_handler parse_proposal expect_proposal
  on_msg_propose s peer a = do
    x ← propose_handler w parse_proposal s peer a.base
    expect_proposal s peer x a

unfoldable pub on_msg_req_block : (hashes : List ℕ) (peer : ℕ) → Async → Result Async
unfolding req_blk_handler unfetched
on_msg_req_block hs peer a =
    let waiter = keep_waiter (unfetched a.base.core hs) (send_blks hs peer) [] in
    (do
      b ← req_blk_handler hs peer a.base
      let a' = with_base b a
      ok (if peer == 0 then a' else record a' { fetches = a'.fetches ++ waiter }))

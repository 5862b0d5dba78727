-- ===== src/Net/Fetch.antt =====
-- Fetching and delivering blocks: `FetchContext` of include/libe2c/e2c.h, and `on_fetch_blk`,
-- `on_deliver_blk`, `async_fetch_blk` of src/e2c.cpp, with `async_deliver_blk` up to the point where
-- the block is there. A promise that waits is an entry of a table; the block it is resolved with is
-- in `sent`. When a timeout fires is a step from outside.
pub mod Waiting
use libe2c_cpp.Prelude.{
  ℕ, ◌+◌, ◌%◌, ◌^◌, List, [], ◌∷◌, ◌++◌, Option, none, some, Bool, true, false, Assoc, lookup,
  insert, assign, erase, length, ◌==◌, if◌then◌else◌, Result, ok, err, assertion, ◌>>=◌, ◌>>◌,
  guard, get_elem?,
}
use libe2c_cpp.Entity.{Block}
use libe2c_cpp.Entity.Storage
use libe2c_cpp.Core.{Core, contains, set_insert, deref}
use libe2c_cpp.Core.Deliver
use libe2c_cpp.Net.{Base, Message, send, msg_req_block, fetched_blk, delivered_blk}

abbrev pub count_of : Option ℕ → ℕ
count_of none = 0
count_of (some n) = n

-- `FetchContext::send`
unfoldable pub send_fetch : (blk_hash replica : ℕ) → Base → Base
unfolding lookup assign
send_fetch h p b = send (msg_req_block (h ∷ []) p) (record b {
  part_fetched_replica =
      assign p ((count_of (lookup p b.part_fetched_replica) + 1) % 2 ^ 32) b.part_fetched_replica;
})

-- `FetchContext::add_replica`, for the context of `blk_hash` with these replicas.
unfoldable pub add_fetch_replica :
    (blk_hash : ℕ) (replicas : List ℕ) (replica : ℕ) (fetch_now : Bool) → Base → Base
unfolding send_fetch assign set_insert
add_fetch_replica h [] p fetch_now b =
    let b' = if fetch_now then send_fetch h p b else b in
    record b' { blk_fetch_waiting = assign h (set_insert p []) b'.blk_fetch_waiting }
add_fetch_replica h (q ∷ qs) p fetch_now b = record b {
  blk_fetch_waiting = assign h (set_insert p (q ∷ qs)) b.blk_fetch_waiting;
}

-- `FetchContext::timeout_cb`: everyone is asked again.
unfoldable pub send_fetch_all : (blk_hash : ℕ) → List ℕ → Base → Base
unfolding send_fetch
send_fetch_all h [] b = b
send_fetch_all h (p ∷ ps) b = send_fetch_all h ps (send_fetch h p b)

abbrev pub replicas_of : Option (List ℕ) → List ℕ
replicas_of none = []
replicas_of (some ps) = ps

unfoldable pub timeout_cb : (blk_hash : ℕ) → Base → Base
unfolding send_fetch_all lookup
timeout_cb h b = send_fetch_all h (replicas_of (lookup h b.blk_fetch_waiting)) b

unfoldable pub resolve_fetch : Option (List ℕ) → (blk_hash blk : ℕ) → Base → Base
unfolding erase
resolve_fetch none h r b = b
resolve_fetch (some _) h r b = record (send (fetched_blk r) b) {
  blk_fetch_waiting = erase h b.blk_fetch_waiting;
}

unfoldable pub on_fetch_blk : ℕ → Base → Result Base
unfolding resolve_fetch lookup
on_fetch_blk r b = do
  blk ← deref b.core r
  let b' = record b {
    part_fetched = (b.part_fetched + 1) % 2 ^ 32;
    fetched = (b.fetched + 1) % 2 ^ 64;
  }
  ok (resolve_fetch (lookup blk.hash b'.blk_fetch_waiting) blk.hash r b')

-- The promise that a fetch returns: resolved with a block, or waiting.
unfoldable pub fetch_missing : (blk_hash : ℕ) (replica : Option ℕ) (fetch_now : Bool) → Base → Base
unfolding insert lookup add_fetch_replica
fetch_missing h none fetch_now b = record b { blk_fetch_waiting = insert h [] b.blk_fetch_waiting }
fetch_missing h (some p) fetch_now b =
    let b' = record b { blk_fetch_waiting = insert h [] b.blk_fetch_waiting } in
    add_fetch_replica h (replicas_of (lookup h b'.blk_fetch_waiting)) p fetch_now b'

unfoldable pub async_fetch_blk :
    (blk_hash : ℕ) (replica : Option ℕ) (fetch_now : Bool) → Base → Option ℕ × Base
unfolding fetch_missing Storage.find_blk Storage.is_blk_fetched
async_fetch_blk h p fetch_now b =
    if Storage.is_blk_fetched b.core.storage h
    then (Storage.find_blk b.core.storage h, b)
    else (none, fetch_missing h p fetch_now b)

-- `is_delivered` of a block of the heap.
unfoldable pub is_delivered : Core → ℕ → Bool
is_delivered c r = elim (get_elem? c.blocks r) [ none ↦ false | some blk ↦ blk.delivered ]

-- What `async_deliver_blk` leads to: the block is delivered; it waits, for an earlier call or for
-- its fetch; or it is there, and is verified and its parents are delivered next.
pub data Delivery : Type 0 where
  resolved : Option ℕ → Delivery
  waiting : Delivery
  continues : ℕ → Delivery

abbrev pub after_fetch : Option ℕ × Base → Delivery × Base
after_fetch (none, b) = (waiting, b)
after_fetch (some r, b) = (continues r, b)

unfoldable pub deliver_missing : Option (Unit {0}) → (blk_hash replica : ℕ) → Base → Delivery × Base
unfolding insert async_fetch_blk
deliver_missing (some _) h p b = (waiting, b)
deliver_missing none h p b = after_fetch (
    async_fetch_blk h (some p) true
      (record b { blk_delivery_waiting = insert h tt b.blk_delivery_waiting }))

unfoldable pub async_deliver_blk : (blk_hash replica : ℕ) → Base → Delivery × Base
unfolding deliver_missing lookup is_delivered Storage.is_blk_delivered Storage.find_blk
async_deliver_blk h p b =
    if Storage.is_blk_delivered b.core.storage (is_delivered b.core) h
    then (resolved (Storage.find_blk b.core.storage h), b)
    else deliver_missing (lookup h b.blk_delivery_waiting) h p b

-- The assertion before the delivery.
unfoldable pub all_delivered : Core → List ℕ → Bool
unfolding is_delivered Storage.is_blk_delivered
all_delivered c [] = true
all_delivered c (h ∷ hs) =
    if Storage.is_blk_delivered c.storage (is_delivered c) h then all_delivered c hs else false

-- The statistics, and the promise that waits for the block.
unfoldable pub count_delivered : Bool → (n_parents : ℕ) → Base → Base
count_delivered false n b = b
count_delivered true n b = record b {
  part_parent_size = (b.part_parent_size + n) % 2 ^ 32;
  part_delivered = (b.part_delivered + 1) % 2 ^ 32;
  delivered = (b.delivered + 1) % 2 ^ 64;
}

unfoldable pub resolve_delivery :
    Option (Unit {0}) → (valid : Bool) → (blk_hash blk : ℕ) → Base → Bool × Base
unfolding erase
resolve_delivery none valid h r b = (true, b)
resolve_delivery (some _) valid h r b = (
  valid,
  record (send (if valid then delivered_blk r else Message.rejected_blk r) b) {
    blk_delivery_waiting = erase h b.blk_delivery_waiting;
  },
)

unfoldable pub on_deliver_blk : ℕ → Base → Result (Bool × Base)
unfolding all_delivered count_delivered resolve_delivery lookup Deliver.on_deliver_blk
on_deliver_blk r b = do
  blk ← deref b.core r
  guard (all_delivered b.core blk.parent_hashes) assertion
  (valid, c') ← Deliver.on_deliver_blk r b.core
  let b' = count_delivered valid (length blk.parent_hashes) (record b { core = c' })
  ok (resolve_delivery (lookup blk.hash b'.blk_delivery_waiting) valid blk.hash r b')

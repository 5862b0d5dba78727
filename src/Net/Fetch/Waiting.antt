-- ===== src/Net/Fetch/Waiting.antt =====
-- Fetches that wait.
use libe2c_cpp.Prelude.{
  ℕ, ◌+◌, ◌%◌, ◌^◌, ◌≡◌, refl, ◌≢◌, List, [], ◌∷◌, ◌++◌, none, some, true, false, lookup, insert,
  erase, lookup-erase, lookup-insert, lookup-assign, arith, ◌==◌, ==-refl, ok,
}
use libe2c_cpp.Entity.{Block}
use libe2c_cpp.Entity.Storage
use libe2c_cpp.Core.{set_insert, contains}
use libe2c_cpp.Core.History.{Holds}
use libe2c_cpp.Net.{Base, msg_req_block, fetched_blk}
use libe2c_cpp.Net.Fetch.{
  send_fetch, add_fetch_replica, send_fetch_all, timeout_cb, resolve_fetch, on_fetch_blk,
  fetch_missing, async_fetch_blk,
}

module _ (h p : ℕ) (b : Base) (missing : Storage.is_blk_fetched b.core.storage h ≡ false) where
  fetch_first :
      lookup h b.blk_fetch_waiting ≡ none
      → ((async_fetch_blk h (some p) true b).1.sent ≡ b.sent ++ msg_req_block (h ∷ []) p ∷ [])
        × (lookup h (async_fetch_blk h (some p) true b).1.blk_fetch_waiting ≡ some (p ∷ []))
        × ((async_fetch_blk h (some p) true b).1.core ≡ b.core)
  unfolding async_fetch_blk fetch_missing add_fetch_replica send_fetch set_insert contains
  fetch_first new =
      let first : lookup h (insert h [] b.blk_fetch_waiting) ≡ some [] =
        rw (lookup-insert h h [] b.blk_fetch_waiting, new, ==-refl h) refl in
      rw (missing, first)
        (
          refl,
          rw (lookup-assign h h (p ∷ []) (insert h [] b.blk_fetch_waiting), ==-refl h) refl,
          refl,
        )

  fetch_more :
      (q : ℕ)
      → lookup h b.blk_fetch_waiting ≡ some (q ∷ [])
      → q ≢ p
      → ((async_fetch_blk h (some p) true b).1.sent ≡ b.sent)
        × (lookup h (async_fetch_blk h (some p) true b).1.blk_fetch_waiting ≡ some (p ∷ q ∷ []))
  unfolding async_fetch_blk fetch_missing add_fetch_replica send_fetch set_insert contains
  fetch_more q old ne =
      let first : lookup h (insert h [] b.blk_fetch_waiting) ≡ some (q ∷ []) =
        rw (lookup-insert h h [] b.blk_fetch_waiting, old, ==-refl h) refl in
      let new : (q == p) ≡ false = ground arith in
      rw (missing, first)
        (refl, rw (lookup-assign h h _ (insert h [] b.blk_fetch_waiting), ==-refl h, new) refl)

timeout_asks :
    (h p q : ℕ) (b : Base)
    → lookup h b.blk_fetch_waiting ≡ some (q ∷ p ∷ [])
    → (timeout_cb h b).sent
      ≡ (b.sent ++ msg_req_block (h ∷ []) q ∷ []) ++ msg_req_block (h ∷ []) p ∷ []
unfolding timeout_cb send_fetch_all send_fetch
timeout_asks h p q b l = rw l refl

-- One peer is asked when the fetch of a block begins, and another that is named later is not, until
-- the timeout, which asks both.
pub async_fetch_twice :
    (h p q : ℕ) (b : Base)
    → Storage.is_blk_fetched b.core.storage h ≡ false
    → lookup h b.blk_fetch_waiting ≡ none
    → p ≢ q
    → let once = (async_fetch_blk h (some p) true b).1 in
      let twice = (async_fetch_blk h (some q) true once).1 in
      (once.sent ≡ b.sent ++ msg_req_block (h ∷ []) p ∷ [])
      × (twice.sent ≡ once.sent)
      × (lookup h twice.blk_fetch_waiting ≡ some (q ∷ p ∷ []))
      × ((timeout_cb h twice).sent
          ≡ (twice.sent ++ msg_req_block (h ∷ []) q ∷ []) ++ msg_req_block (h ∷ []) p ∷ [])
async_fetch_twice h p q b missing new ne =
    let (s₁, l₁, c₁) = fetch_first h p b missing new in
    let once = (async_fetch_blk h (some p) true b).1 in
    let (s₂, l₂) = fetch_more h q once (rw c₁ missing) p l₁ ne in
    (s₁, s₂, l₂, timeout_asks h p q (async_fetch_blk h (some q) true once).1 l₂)

-- The state after a block that was waited for.
abbrev fetched_state : (r h : ℕ) → Base → Base
fetched_state r h b = record b {
  part_fetched = (b.part_fetched + 1) % 2 ^ 32;
  fetched = (b.fetched + 1) % 2 ^ 64;
  sent = b.sent ++ fetched_blk r ∷ [];
  blk_fetch_waiting = erase h b.blk_fetch_waiting;
}

-- A block that arrives resolves the fetch that waits for its hash, once: the fetch is gone after it,
-- fetches of other blocks still wait, and a second copy of the block resolves nothing. The counter of
-- fetched blocks goes up by one, modulo 2 ^ 64.
pub on_fetch_blk_lem :
    (r h : ℕ) (blk : Block) (ps : List ℕ) (b : Base)
    → Holds b.core r blk
    → blk.hash ≡ h
    → lookup h b.blk_fetch_waiting ≡ some ps
    → (b' : Base) × (on_fetch_blk r b ≡ ok b')
      × (b'.sent ≡ b.sent ++ fetched_blk r ∷ [])
      × (b'.fetched ≡ (b.fetched + 1) % 2 ^ 64)
      × (lookup h b'.blk_fetch_waiting ≡ none)
      × ((k : ℕ) → k ≢ h → lookup k b'.blk_fetch_waiting ≡ lookup k b.blk_fetch_waiting)
      × ((b'' : Base) × (on_fetch_blk r b' ≡ ok b'') × (b''.sent ≡ b'.sent))
unfolding on_fetch_blk resolve_fetch
on_fetch_blk_lem r h blk ps b held eq l =
    let gone : lookup h (erase h b.blk_fetch_waiting) ≡ none =
      rw (lookup-erase h h b.blk_fetch_waiting) (ground arith) in
    (
      fetched_state r h b,
      rw (held, eq, l) refl,
      refl,
      refl,
      gone,
      λ k ne. rw (lookup-erase h k b.blk_fetch_waiting) (ground arith),
      (
        record (fetched_state r h b) {
          part_fetched = ((fetched_state r h b).part_fetched + 1) % 2 ^ 32;
          fetched = ((fetched_state r h b).fetched + 1) % 2 ^ 64;
        },
        rw (held, eq, gone) refl,
        refl,
      ),
    )

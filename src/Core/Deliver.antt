-- ===== src/Core/Deliver.antt =====
-- `get_delivered_blk`, `sanity_check_delivered` and `on_deliver_blk` of src/consensus.cpp.
pub mod Links
pub mod Linked
pub mod Safety
use libe2c_cpp.Prelude.{
  ℕ, ◌+◌, ◌%◌, ◌^◌, List, [], ◌∷◌, Bool, true, false, if◌then◌else◌, Result, ok, err, not_delivered,
  out_of_range, ◌>>=◌, ◌>>◌, guard, or_fail,
}
use libe2c_cpp.Entity.{Block}
use libe2c_cpp.Entity.Storage
use libe2c_cpp.Core.{Core, deref, put, set_insert, set_erase_all}

unfoldable pub sanity_check_delivered : Block → Result (Unit {0})
sanity_check_delivered blk = guard blk.delivered not_delivered

unfoldable pub get_delivered_blk : Core → ℕ → Result ℕ
unfolding Storage.find_blk
get_delivered_blk c h = do
  r ← or_fail (Storage.find_blk c.storage h) not_delivered
  blk ← deref c r
  guard blk.delivered not_delivered
  ok r

-- The loop that fills `blk->parents`.
unfoldable pub get_delivered_blks : Core → List ℕ → Result (List ℕ)
get_delivered_blks c [] = ok []
get_delivered_blks c (h ∷ hs) = do
  r ← get_delivered_blk c h
  rs ← get_delivered_blks c hs
  ok (r ∷ rs)

-- `parents[0]`
unfoldable pub first_of_parents : List ℕ → Result ℕ
first_of_parents [] = err out_of_range
first_of_parents (p ∷ ps) = ok p

unfoldable pub deliver : ℕ → Block → Core → Result Core
unfolding get_delivered_blks first_of_parents set_insert set_erase_all
deliver r blk c = do
  parents ← get_delivered_blks c blk.parent_hashes
  first ← first_of_parents parents
  pblk ← deref c first
  let blk' = record blk { parents = parents; height = (pblk.height + 1) % 2 ^ 32; delivered = true }
  ok (record (put r blk' c) { tails = set_insert r (set_erase_all parents c.tails) })

-- The early return at a block that is delivered already, and the rest. The result says whether the
-- block was delivered by this call.
unfoldable pub deliver_unless : Bool → ℕ → Block → Core → Result (Bool × Core)
unfolding deliver
deliver_unless true r blk c = ok (false, c)
deliver_unless false r blk c = do c' ← deliver r blk c; ok (true, c')

unfoldable pub on_deliver_blk : ℕ → Core → Result (Bool × Core)
unfolding deliver_unless
on_deliver_blk r c = do blk ← deref c r; deliver_unless blk.delivered r blk c

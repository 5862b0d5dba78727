-- ===== src/Core/Update.antt =====
-- `update` of src/consensus.cpp: the first block of a height is marked and gets its commit timer.
pub mod Cases
pub mod Safety
use libe2c_cpp.Prelude.{
  ℕ, ◌*◌, none, some, Option, Bool, true, false, lookup, assign, ltb, ◌==◌, if◌then◌else◌, Result,
  ok, err, null_pointer, ◌>>=◌,
}
use libe2c_cpp.Entity.{Block}
use libe2c_cpp.Core.{Core, deref, put, emit, equivocation}

-- The part after the two returns.
unfoldable pub install : ℕ → Block → Block → Core → Core
unfolding assign
install r nblk mark c =
    record (put r
      (record nblk {
        commit_timer = some (record { for_height = nblk.height; delay = 2 * c.delta });
      })
      c) {
        b_mark = if ltb mark.height nblk.height then r else c.b_mark;
        ht_blk_map = assign nblk.height (some r) c.ht_blk_map;
      }

-- The heights's entry of the map: absent, a null pointer, or a block.
unfoldable pub update_at : Option (Option ℕ) → ℕ → Block → Core → Result Core
unfolding install
update_at none r nblk c = do mark ← deref c c.b_mark; ok (install r nblk mark c)
update_at (some none) r nblk c = err null_pointer
update_at (some (some q)) r nblk c = do
  old ← deref c q
  if old.hash == nblk.hash then ok c else ok (emit (equivocation nblk.height) c)

unfoldable pub update : ℕ → Core → Result Core
unfolding update_at lookup
update r c = do nblk ← deref c r; update_at (lookup nblk.height c.ht_blk_map) r nblk c

-- ===== src/Core/Receive.antt =====
-- `on_receive_proposal` of src/consensus.cpp.
pub mod Safety
pub mod Once
use libe2c_cpp.Prelude.{
  ℕ, none, some, Option, true, false, lookup, ◌==◌, if◌then◌else◌, Result, ok, err, null_pointer,
  ◌>>=◌, ◌>>◌,
}
use libe2c_cpp.Entity.{Block}
use libe2c_cpp.Core.{Core, deref, emit, broadcast_proposal, resolve_receive_proposal}
use libe2c_cpp.Core.Deliver.{sanity_check_delivered}
use libe2c_cpp.Core.Update.{update}

unfoldable pub accept : ℕ → Core → Result Core
accept r c = do
  c' ← update r c
  ok (emit (resolve_receive_proposal r) (emit (broadcast_proposal r) c'))

-- A proposal that is at its height in the map already is discarded.
unfoldable pub receive_at : Option (Option ℕ) → ℕ → Block → Core → Result Core
unfolding accept
receive_at none r bnew c = accept r c
receive_at (some none) r bnew c = err null_pointer
receive_at (some (some q)) r bnew c = do
  old ← deref c q
  if old.hash == bnew.hash then ok c else accept r c

unfoldable pub on_receive_proposal : ℕ → Core → Result Core
unfolding receive_at lookup sanity_check_delivered
on_receive_proposal r c = do
  bnew ← deref c r
  sanity_check_delivered bnew
  receive_at (lookup bnew.height c.ht_blk_map) r bnew c

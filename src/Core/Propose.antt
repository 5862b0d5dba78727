-- ===== src/Core/Propose.antt =====
-- `get_parents` and `on_propose` of src/consensus.cpp. The part of the certificate that the crypto
-- classes make is a parameter, `create_part_cert`.
pub mod Storing
pub mod Parents
pub mod Unchanged
pub mod Safety
use libe2c_cpp.Prelude.{
  ℕ, zero, suc, ◌+◌, ◌%◌, ◌^◌, List, [], ◌∷◌, Option, none, some, true, lookup, assign, map, Result,
  ok, err, null_pointer, empty_parents, ◌>>=◌, ◌>>◌, or_fail, Assoc,
}
use libe2c_cpp.Wire.{Salticidae}
use libe2c_cpp.Crypto.{PartCert}
use libe2c_cpp.Entity.{Block, new_block}
use libe2c_cpp.Entity.Codec.{serialize}
use libe2c_cpp.Core.{
  Core, deref, put, emit, set_erase_all, add_new_blk, broadcast_proposal, resolve_proposal,
}
use libe2c_cpp.Core.Deliver.{on_deliver_blk}
use libe2c_cpp.Core.Update.{update}

-- `ht_blk_map[ht]`: a missing key is inserted with a null pointer.
unfoldable pub index_map : ℕ → Assoc (Option ℕ) → Option ℕ × Assoc (Option ℕ)
index_map ht m = elim (lookup ht m) [ none ↦ (none, assign ht none m) | some p ↦ (p, m) ]

-- The loop from the marked height down to 1, and the genesis block behind it.
unfoldable pub parents_from : ℕ → ℕ → Assoc (Option ℕ) → List (Option ℕ) × Assoc (Option ℕ)
unfolding index_map
parents_from b0 zero m = (some b0 ∷ [], m)
parents_from b0 (suc ht) m =
    let (p, m') = index_map (suc ht) m in let (ps, m'') = parents_from b0 ht m' in (p ∷ ps, m'')

unfoldable pub get_parents : Core → Result (List (Option ℕ) × Core)
unfolding parents_from
get_parents c = do
  mark ← deref c c.b_mark
  let (ps, m) = parents_from c.b0 mark.height c.ht_blk_map
  ok (ps, record c { ht_blk_map = m })

-- `get_hashes(parents)`, with the references, which it dereferences.
unfoldable pub get_hashes : Core → List (Option ℕ) → Result (List ℕ × List ℕ)
get_hashes c [] = ok ([], [])
get_hashes c (p ∷ ps) = do
  r ← or_fail p null_pointer
  b ← deref c r
  (rs, hs) ← get_hashes c ps
  ok (r ∷ rs, b.hash ∷ hs)

module _ (w : Salticidae) (create_part_cert : ℕ → Result PartCert) where
  -- `new Block(parents, cmds, extra, height, proposer)`
  unfoldable pub make_block : (rs hs cmds extra : List ℕ) → (height proposer : ℕ) → Block
  unfolding serialize
  make_block rs hs cmds extra height proposer =
      let b = record new_block {
        parent_hashes = hs;
        cmds = cmds;
        extra = extra;
        proposer = proposer;
        height = height;
        parents = rs;
      } in
      record b { hash = w.digest (serialize w b) }

  -- From the new block to the delivered one: it is hashed again and signed.
  unfoldable pub sign_block : ℕ → Core → Result Core
  unfolding serialize
  sign_block r c = do
    bnew ← deref c r
    let h = w.digest (serialize w bnew)
    cert ← create_part_cert h
    ok (put r (record bnew { hash = h; signature = some cert }) c)

  -- `parents[0]->height + 1`, of a vector that is not empty.
  unfoldable pub next_height : Core → List ℕ → Result ℕ
  next_height c [] = err empty_parents
  next_height c (p ∷ ps) = do b ← deref c p; ok ((b.height + 1) % 2 ^ 32)

  -- From the stored block on: sign, deliver, update, broadcast, resolve.
  unfoldable pub publish : ℕ → Core → Result Core
  unfolding sign_block
  publish r c = do
    c₂ ← sign_block r c
    (fresh, c₃) ← on_deliver_blk r c₂
    c₄ ← update r c₃
    ok (emit (resolve_proposal r) (emit (broadcast_proposal r) c₄))

  unfoldable pub on_propose :
      (cmds : List ℕ) → List (Option ℕ) → (extra : List ℕ) → Core → Result (ℕ × Core)
  unfolding get_hashes make_block publish next_height add_new_blk set_erase_all
  on_propose cmds parents extra c = do
    (rs, hs) ← get_hashes c parents
    height ← next_height c rs
    let x =
        add_new_blk (make_block rs hs cmds extra height c.id)
          (record c { tails = set_erase_all rs c.tails })
    c' ← publish x.0 x.1
    ok (x.0, c')

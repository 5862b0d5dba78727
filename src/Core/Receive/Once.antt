-- ===== src/Core/Receive/Once.antt =====
-- The first receipt of a proposal, its repetition, and an equivocating proposal.
use libe2c_cpp.Prelude.{
  ℕ, ◌*◌, ◌≡◌, refl, ◌≢◌, [], ◌∷◌, ◌++◌, none, some, true, lookup, lookup-assign, arith, ok,
}
use libe2c_cpp.Entity.{Block}
use libe2c_cpp.Core.{Core, emit, broadcast_proposal, resolve_receive_proposal, equivocation}
use libe2c_cpp.Core.History.{Holds, Holds-put}
use libe2c_cpp.Core.Invariant.{IsValid}
use libe2c_cpp.Core.Update.{install, update}
use libe2c_cpp.Core.Receive.{on_receive_proposal}

abbrev pub forwarded : ℕ → Core → Core
forwarded r c = emit (resolve_receive_proposal r) (emit (broadcast_proposal r) c)

abbrev pub armed_blk : Core → Block → Block
armed_blk c b = record b {
  commit_timer = some (record { for_height = b.height; delay = 2 * c.delta });
}

module _ (r : ℕ) (b : Block) (c : Core) (h : Holds c r b) where
  -- A block of the height in the map whose hash is the proposal's: nothing happens.
  pub receive_repeated :
      (q : ℕ) (old : Block)
      → b.delivered ≡ true
      → lookup b.height c.ht_blk_map ≡ some (some q)
      → Holds c q old
      → old.hash ≡ b.hash
      → on_receive_proposal r c ≡ ok c
  unfolding on_receive_proposal
  receive_repeated q old d l ho same = ground (arith, h, d, l, ho, same)

  update_new :
      (mark : Block)
      → lookup b.height c.ht_blk_map ≡ none
      → Holds c c.b_mark mark
      → update r c ≡ ok (install r b mark c)
  unfolding update
  update_new mark l hm = ground (arith, h, l, hm)

  pub receive_new :
      (mark : Block)
      → b.delivered ≡ true
      → lookup b.height c.ht_blk_map ≡ none
      → Holds c c.b_mark mark
      → on_receive_proposal r c ≡ ok (forwarded r (install r b mark c))
  unfolding on_receive_proposal
  receive_new mark d l hm = ground (arith, h, d, l, update_new mark l hm)

  receive_other :
      (q : ℕ) (old : Block)
      → b.delivered ≡ true
      → lookup b.height c.ht_blk_map ≡ some (some q)
      → Holds c q old
      → old.hash ≢ b.hash
      → on_receive_proposal r c ≡ ok (forwarded r (emit (equivocation b.height) c))
  unfolding on_receive_proposal update
  receive_other q old d l ho other = ground (arith, h, d, l, ho, other)

module _ (r : ℕ) (b : Block) (c : Core) (v : IsValid c) (h : Holds c r b)
    (d : b.delivered ≡ true) where
  -- In a well-formed state, a delivered proposal at a height that is free is accepted: afterwards
  -- the map has it at its height, its commit timer is set to twice delta for that height, it is
  -- broadcast and the waiting promise is resolved, in this order and once each; and receiving it
  -- again does nothing.
  pub receive_first :
      lookup b.height c.ht_blk_map ≡ none
      → (c' : Core) × (on_receive_proposal r c ≡ ok c')
        × (lookup b.height c'.ht_blk_map ≡ some (some r))
        × Holds c' r (armed_blk c b)
        × (c'.outputs ≡ (c.outputs ++ broadcast_proposal r ∷ []) ++ resolve_receive_proposal r ∷ [])
        × (on_receive_proposal r c' ≡ ok c')
  unfolding install
  receive_first l =
      let (mark, hm, dm, at, top) = v.marked in
      let c' = forwarded r (install r b mark c) in
      let held : lookup b.height c'.ht_blk_map ≡ some (some r) =
        ground (arith, lookup-assign b.height b.height (some r) c.ht_blk_map) in
      let here : Holds c' r (armed_blk c b) = Holds-put c r h (armed_blk c b) in
      (
        c',
        receive_new r b c h mark d l hm,
        held,
        here,
        refl,
        receive_repeated r (armed_blk c b) c' here r (armed_blk c b) d held here refl,
      )

  -- A delivered proposal at a height that the map holds for a block of another hash is reported as
  -- an equivocation and forwarded, and nothing else changes: the map, the mark and every block stay
  -- as they are.
  pub receive_conflict :
      (q : ℕ) (old : Block)
      → lookup b.height c.ht_blk_map ≡ some (some q)
      → Holds c q old
      → old.hash ≢ b.hash
      → on_receive_proposal r c
        ≡ ok (record c {
          outputs =
              ((c.outputs ++ equivocation b.height ∷ []) ++ broadcast_proposal r ∷ [])
              ++ resolve_receive_proposal r ∷ [];
        })
  receive_conflict q old l ho other = receive_other r b c h q old d l ho other

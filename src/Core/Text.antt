-- ===== src/Core/Text.antt =====
-- The conversions to strings of include/libe2c/consensus.h and src/consensus.cpp, and which blocks can
-- be converted.
use libe2c_cpp.Prelude.{
  ℕ, ◌≡◌, refl, ◌≢◌, List, [], ◌∷◌, ◌++◌, true, length, Result, ok, err, out_of_range, ◌>>=◌, arith,
}
use libe2c_cpp.Wire.{Salticidae}
use libe2c_cpp.Crypto.{PartCert}
use libe2c_cpp.Entity.{Block, new_block}
use libe2c_cpp.Entity.Text.{Formats, codes, block_line, block_text}
use libe2c_cpp.Core.{Core, Finality, deref, on_init, new_core}
use libe2c_cpp.Core.History.{Holds}
use libe2c_cpp.Core.Deliver.Links.{Links}
use libe2c_cpp.Core.System.{Reach, Reach-Kept, initial, initial-IsValid}
use libe2c_cpp.Core.Ancestry.Runs.{parents_stored}

module _ (f : Formats) where
  unfoldable pub finality_text : Finality → List ℕ
  finality_text fin =
      codes "<fin decision="
      ++ f.to_string fin.decision
      ++ codes " cmd_idx="
      ++ f.to_string fin.cmd_idx
      ++ codes " cmd_height="
      ++ f.to_string fin.cmd_height
      ++ codes " cmd="
      ++ f.get_hex10 fin.cmd_hash
      ++ codes " blk="
      ++ f.get_hex10 fin.blk_hash
      ++ codes ">"

  abbrev pub proposal_line : Block → (text : List ℕ) → List ℕ
  proposal_line b text =
      codes "<proposal rid="
      ++ f.to_string b.proposer
      ++ codes " blk="
      ++ f.get_hex10 b.hash
      ++ codes ">"
      ++ text

  -- A proposal of the block at `blk`.
  unfoldable pub proposal_text : Core → (blk : ℕ) → Result (List ℕ)
  unfolding block_text
  proposal_text c blk = do b ← deref c blk; text ← block_text f b; ok (proposal_line b text)

  unfoldable pub core_text : Core → Result (List ℕ)
  core_text c = do
    mark ← deref c c.b_mark
    comm ← deref c c.b_comm
    ok (
        codes "<E2C b_mark="
        ++ f.get_hex10 mark.hash
        ++ codes " b_comm="
        ++ f.get_hex10 comm.hash
        ++ codes " tails="
        ++ f.to_string (length c.tails)
        ++ codes ">")

Links-cons :
    (c : Core) (hs : List ℕ) (p : ℕ) (ps : List ℕ)
    → Links c hs (p ∷ ps)
    → (h : ℕ) × (rest : List ℕ) × (hs ≡ h ∷ rest)
Links-cons c [] p ps l = absurd l
Links-cons c (h ∷ hs) p ps l = (h, hs, refl)

Links-nil : (c : Core) (hs : List ℕ) → Links c hs [] → hs ≡ []
Links-nil c [] l = refl
Links-nil c (h ∷ hs) l = absurd l

unread_text :
    (f : Formats) (c : Core) (r : ℕ) (b : Block)
    → Holds c r b
    → b.parent_hashes ≡ []
    → (block_text f b ≡ err out_of_range) × (proposal_text f c r ≡ err out_of_range)
unfolding proposal_text block_text
unread_text f c r b held hs = (rw hs refl, rw (held, hs) refl)

read_text :
    (f : Formats) (c : Core) (r : ℕ) (b : Block) (h : ℕ) (rest : List ℕ)
    → Holds c r b
    → b.parent_hashes ≡ h ∷ rest
    → (block_text f b ≡ ok (block_line f b h))
      × (proposal_text f c r ≡ ok (proposal_line f b (block_line f b h)))
unfolding proposal_text block_text
read_text f c r b h rest held hs = (rw hs refl, rw (held, hs) refl)

module _ (w : Salticidae) (create_part_cert : ℕ → Result PartCert) (id g delta nfaulty : ℕ)
    (c : Core) (start : Reach w create_part_cert (initial id g delta nfaulty) c) where
  genesis_parents : (b : Block) → Holds c c.b0 b → (c.b0 ≡ 0) × (b.parents ≡ [])
  unfolding on_init new_core
  genesis_parents b h =
      let x = (Reach-Kept (initial-IsValid id g delta nfaulty) start).1 in
      let genesis = record new_block { delivered = true; decision = 1; proposer = 1; hash = g } in
      let at : c.b0 ≡ 0 = x.genesis in
      let (b', h', k) = x.blocks 0 genesis refl in
      let same : b ≡ b' = ground (arith, h, h', at) in (at, rw same (k.parents refl))

  -- In every state that a replica reaches, a delivered block can be converted to a string, and so
  -- can a proposal of it, unless it is the genesis block: it has a first parent hash, which is the
  -- one that the text shows. For the genesis block, delivered as well, both conversions read the
  -- first element of an empty vector.
  pub delivered_texts :
      (f : Formats) (r : ℕ) (b : Block)
      → Holds c r b
      → b.delivered ≡ true
      → (r ≢ c.b0
          → (h : ℕ) × (rest : List ℕ) × (b.parent_hashes ≡ h ∷ rest)
            × (block_text f b ≡ ok (block_line f b h))
            × (proposal_text f c r ≡ ok (proposal_line f b (block_line f b h))))
        × (r ≡ c.b0
            → (block_text f b ≡ err out_of_range) × (proposal_text f c r ≡ err out_of_range))
  delivered_texts f r b held d =
      let links = parents_stored w create_part_cert id g delta nfaulty c start r b held d in
      (
        λ other.
            let v = (Reach-Kept (initial-IsValid id g delta nfaulty) start).0 in
            let (p, ps, pb, eq, hp, dp, ht) = v.chained r b held d other in
            let (h, rest, hs) = Links-cons c b.parent_hashes p ps (rw eq at links) in
            let (block, proposal) = read_text f c r b h rest held hs in
            (h, rest, hs, block, proposal),
        λ same.
            let (at, none_) = genesis_parents b (rw same at held) in
            unread_text f c r b held (Links-nil c b.parent_hashes (rw none_ at links)),
      )

-- ===== src/Entity/Codec/Roundtrip.antt =====
-- A block that is written and read back.
use libe2c_cpp.Prelude.{ℕ, ◌%◌, ◌^◌, ◌<◌, ◌≡◌, refl, List, [], ◌∷◌, ◌++◌, length, All, arith, ok}
use mathlib.Core.List.{append_assoc}
use libe2c_cpp.Wire.{Salticidae, IsStream, IsHash, put_size, read_size}
use libe2c_cpp.Wire.Roundtrip.{read-put_size, read-put_hashes}
use libe2c_cpp.Entity.{Block, new_block}
use libe2c_cpp.Entity.Codec.{serialize, read_extra, unserialize}

-- The field's values are those of their C++ types.
pub record IsWire (b : Block) : Type 0 where
  pub parent_hashes : All IsHash b.parent_hashes
  pub cmds : All IsHash b.cmds
  pub n_parents : length b.parent_hashes < 2 ^ 32
  pub n_cmds : length b.cmds < 2 ^ 32
  pub n_extra : length b.extra < 2 ^ 32
  pub proposer : b.proposer < 2 ^ 16
  pub height : b.height < 2 ^ 32

-- The block that the reader makes: what was sent, its hash computed anew, and nothing else.
abbrev pub received : Salticidae → Block → Block
received w b = record new_block {
  parent_hashes = b.parent_hashes;
  cmds = b.cmds;
  extra = b.extra;
  proposer = b.proposer;
  height = b.height;
  hash = w.digest (serialize w b);
}

module _ (w : Salticidae) (s : IsStream w) where
  size_back :
      (n : ℕ) (rest : List ℕ)
      → n < 2 ^ 32
      → read_size w (put_size w (n % 2 ^ 32) ++ rest) ≡ ok (n, rest)
  size_back n rest h = let e : n % 2 ^ 32 ≡ n = omega arith in rw e (read-put_size w s n rest h)

  extra_back : (bs rest : List ℕ) → read_extra w (length bs) (w.put_data bs ++ rest) ≡ ok (bs, rest)
  unfolding read_extra
  extra_back [] rest = rw s.raw_empty refl
  extra_back (b ∷ bs) rest = rw (s.raw (b ∷ bs) rest) (ground arith)

  -- A block whose fields fit their types, written and read back: the fields that are sent are the
  -- same, the hash is computed anew from them, and all other fields are those of a fresh block. What
  -- follows the block in the stream is left.
  pub unserialize-serialize :
      (b : Block) (rest : List ℕ)
      → IsWire b
      → unserialize w (serialize w b ++ rest) ≡ ok (received w b, rest)
  unfolding unserialize serialize
  unserialize-serialize b rest v =
      rw
        (
          append_assoc, append_assoc, append_assoc, append_assoc, append_assoc, append_assoc,
          append_assoc,
        )
        (rw
          (
            size_back b.proposer _ (omega arith),
            size_back b.height _ v.height,
            size_back (length b.parent_hashes) _ v.n_parents,
            read-put_hashes w s b.parent_hashes _ v.parent_hashes,
            size_back (length b.cmds) _ v.n_cmds,
            read-put_hashes w s b.cmds _ v.cmds,
            size_back (length b.extra) _ v.n_extra,
            extra_back b.extra rest,
            small,
          )
          refl)
    where
      small : b.proposer % 2 ^ 16 ≡ b.proposer
      small = omega (arith, v.proposer)

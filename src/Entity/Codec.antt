-- ===== src/Entity/Codec.antt =====
-- `Block::serialize`, `Block::unserialize` and `Block::verify` of src/entity.cpp, and `Proposal`'s
-- serialization of include/libe2c/consensus.h. `unserialize` starts from a fresh `Block()`.
pub mod Roundtrip
pub mod Signed
use libe2c_cpp.Prelude.{
  ℕ, ◌%◌, ◌^◌, List, [], ◌++◌, some, Bool, length, ◌==◌, if◌then◌else◌, Result, ok, null_pointer,
  stream_failure, ◌>>=◌, or_fail,
}
use libe2c_cpp.Wire.{Salticidae, put_size, read_size, put_hashes, read_hashes}
use libe2c_cpp.Crypto.{Secp256k1, verify_cert, put_cert, parse_part_cert}
use libe2c_cpp.Entity.{Block, new_block}
use libe2c_cpp.Entity.Config.{ReplicaConfig, get_pubkey}

module _ (w : Salticidae) where
  unfoldable pub serialize : Block → List ℕ
  serialize b =
      put_size w (b.proposer % 2 ^ 32)
      ++ (put_size w (b.height % 2 ^ 32)
          ++ (put_size w (length b.parent_hashes % 2 ^ 32)
              ++ (put_hashes w b.parent_hashes
                  ++ (put_size w (length b.cmds % 2 ^ 32)
                      ++ (put_hashes w b.cmds
                          ++ (put_size w (length b.extra % 2 ^ 32) ++ w.put_data b.extra))))))

  -- `extra` is cleared at size 0, and read in place otherwise.
  unfoldable pub read_extra : ℕ → List ℕ → Result (List ℕ × List ℕ)
  read_extra n s = if n == 0 then ok ([], s) else or_fail (w.get_data n s) stream_failure

  unfoldable pub unserialize : List ℕ → Result (Block × List ℕ)
  unfolding read_extra
  unserialize s = do
    (proposer, s) ← read_size w s
    (height, s) ← read_size w s
    (n_parents, s) ← read_size w s
    (parent_hashes, s) ← read_hashes w n_parents s
    (n_cmds, s) ← read_size w s
    (cmds, s) ← read_hashes w n_cmds s
    (n_extra, s) ← read_size w s
    (extra, s) ← read_extra n_extra s
    let b = record new_block {
      proposer = proposer % 2 ^ 16;
      height = height;
      parent_hashes = parent_hashes;
      cmds = cmds;
      extra = extra;
    }
    ok (record b { hash = w.digest (serialize b) }, s)

module _ (w : Salticidae) (l : Secp256k1) where
  -- The key is looked up first; then the signature is dereferenced.
  unfoldable pub verify : ReplicaConfig → Block → Result Bool
  verify config b = do
    key ← get_pubkey config b.proposer
    cert ← or_fail b.signature null_pointer
    verify_cert w l cert key

  -- `Proposal::serialize`
  unfoldable pub put_proposal : Block → Result (List ℕ)
  unfolding serialize
  put_proposal b = do
    cert ← or_fail b.signature null_pointer
    ok (serialize w b ++ put_cert w l cert)

  -- `Proposal::unserialize`, up to the block that it hands to the storage.
  unfoldable pub read_proposal : List ℕ → Result (Block × List ℕ)
  unfolding unserialize
  read_proposal s = do
    (b, s) ← unserialize w s
    (cert, s) ← parse_part_cert w l s
    ok (record b { signature = some cert }, s)

-- ===== src/Entity.antt =====
-- include/libe2c/entity.h and src/entity.cpp: blocks, the replica configuration and the cache of
-- entities. A `block_t` is a reference, an index of the replica's list of blocks; `none` is null.
pub mod Config
pub mod Storage
pub mod Codec
pub mod Text
use libe2c_cpp.Prelude.{ℕ, List, [], Option, none, Bool, false}
use libe2c_cpp.Crypto.{PartCert}

-- The commit timer of a block: the height that its callback was given, and its delay.
pub record Timer : Type 0 where
  pub for_height : ℕ
  pub delay : ℕ

pub record Block : Type 0 where
  pub parent_hashes : List ℕ
  pub cmds : List ℕ
  pub extra : List ℕ
  pub proposer : ℕ
  pub height : ℕ
  pub signature : Option PartCert
  pub parents : List ℕ
  pub hash : ℕ
  pub delivered : Bool
  pub decision : ℕ
  pub commit_timer : Option Timer

-- `Block()`. The fields that it leaves uninitialised are 0 here.
abbrev pub new_block : Block
new_block = record {
  parent_hashes = [];
  cmds = [];
  extra = [];
  proposer = 0;
  height = 0;
  signature = none;
  parents = [];
  hash = 0;
  delivered = false;
  decision = 0;
  commit_timer = none;
}

-- ===== src/Core.antt =====
-- `E2CCore` of include/libe2c/consensus.h and src/consensus.cpp, a replica's protocol state without
-- the network. Blocks are shared through counted references and mutated in place, so the state has a
-- list of all blocks and a `block_t` is an index into it; a pointer that may be null is an `Option`.
-- What the core hands to its virtual functions and promises is the list `outputs`, oldest first.
-- Log lines have no effect and are left out, but for the report of an equivocation.
pub mod Deliver
pub mod Update
pub mod Propose
pub mod Receive
pub mod Commit
pub mod History
pub mod Invariant
pub mod System
pub mod Agreement
pub mod Ancestry
pub mod Waiting
pub mod Text
pub mod Equivocation
pub mod Replicas
use libe2c_cpp.Prelude.{
  ℕ, ◌+◌, ◌-◌, ◌%◌, ◌^◌, List, [], ◌∷◌, ◌++◌, Option, none, some, Bool, true, false, Assoc, assign,
  get_elem?, set, length, ◌==◌, if◌then◌else◌, Result, ok, null_pointer, ◌>>=◌, or_fail,
}
use libe2c_cpp.Entity.{Block, new_block}
use libe2c_cpp.Entity.Config
use libe2c_cpp.Entity.Config.{ReplicaConfig, ReplicaInfo, new_config}
use libe2c_cpp.Entity.Storage
use libe2c_cpp.Entity.Storage.{EntityStorage, new_storage}
use libe2c_cpp.Crypto.{PubKey}

-- A command is final: which one, in which block.
pub record Finality : Type 0 where
  pub rid : ℕ
  pub decision : ℕ
  pub cmd_idx : ℕ
  pub cmd_height : ℕ
  pub cmd_hash : ℕ
  pub blk_hash : ℕ

pub data Output : Type 0 where
  broadcast_proposal : ℕ → Output
  resolve_proposal : ℕ → Output
  resolve_receive_proposal : ℕ → Output
  consensus : ℕ → Output
  decide : Finality → Output
  equivocation : ℕ → Output

pub record Core : Type 0 where
  pub blocks : List Block
  pub b0 : ℕ
  pub b_mark : ℕ
  pub b_comm : ℕ
  pub delta : ℕ
  pub tails : List ℕ
  pub config : ReplicaConfig
  pub id : ℕ
  pub storage : EntityStorage
  pub ht_blk_map : Assoc (Option ℕ)
  pub outputs : List Output

-- `std::set<block_t>`
unfoldable pub contains : ℕ → List ℕ → Bool
contains r [] = false
contains r (x ∷ xs) = if x == r then true else contains r xs

unfoldable pub set_insert : ℕ → List ℕ → List ℕ
unfolding contains
set_insert r xs = if contains r xs then xs else r ∷ xs

unfoldable pub set_erase : ℕ → List ℕ → List ℕ
set_erase r [] = []
set_erase r (x ∷ xs) = let rest = set_erase r xs in if x == r then rest else x ∷ rest

unfoldable pub set_erase_all : List ℕ → List ℕ → List ℕ
unfolding set_erase
set_erase_all [] xs = xs
set_erase_all (r ∷ rs) xs = set_erase_all rs (set_erase r xs)

-- The access behind `blk->…`, and a write through it.
abbrev pub deref : Core → ℕ → Result Block
deref c r = or_fail (get_elem? c.blocks r) null_pointer

abbrev pub put : ℕ → Block → Core → Core
put r b c = record c { blocks = set c.blocks r b }

abbrev pub emit : Output → Core → Core
emit o c = record c { outputs = c.outputs ++ o ∷ [] }

-- `new Block(...)` for a block that is handed to the storage: kept if the hash is new there, and
-- freed again if not. The result is the block that the storage has.
unfoldable pub add_new_blk : Block → Core → ℕ × Core
unfolding Storage.add_blk
add_new_blk b c =
    let (r, storage) = Storage.add_blk c.storage b.hash (length c.blocks) in
    (
      r,
      if r == length c.blocks
          then record c { blocks = c.blocks ++ b ∷ []; storage = storage }
          else record c { storage = storage },
    )

-- The constructor. `genesis_hash` is `salticidae::get_hash(0)`.
unfoldable pub new_core : (id genesis_hash delta : ℕ) → Core
unfolding Storage.add_blk
new_core id genesis_hash delta = record {
  blocks =
      record new_block { delivered = true; decision = 1; proposer = 1; hash = genesis_hash } ∷ [];
  b0 = 0;
  b_mark = 0;
  b_comm = 0;
  delta = delta;
  tails = 0 ∷ [];
  config = new_config;
  id = id;
  storage = (Storage.add_blk new_storage genesis_hash 0).1;
  ht_blk_map = [];
  outputs = [];
}

-- The subtraction is on `size_t` and wraps.
unfoldable pub on_init : (nfaulty : ℕ) → Core → Core
on_init nfaulty c = record c {
  config = record c.config {
    nmajority = (c.config.nreplicas + 2 ^ 64 - nfaulty % 2 ^ 32) % 2 ^ 64;
  };
  ht_blk_map = assign 0 (some c.b0) c.ht_blk_map;
}

unfoldable pub add_replica : (rid peer_id : ℕ) → PubKey → Core → Core
unfolding Config.add_replica
add_replica rid peer_id key c = record c {
  config = Config.add_replica rid (record { id = rid; peer_id = peer_id; pubkey = key }) c.config;
}

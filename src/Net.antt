-- ===== src/Net.antt =====
-- `E2CBase` of include/libe2c/e2c.h and src/e2c.cpp: the replica with its queues, waiting tables and
-- statistics. A peer is a number, 0 for the null id. A commit callback is the client's address that
-- it answers to, which is what programs/application.cpp makes it. What goes out over the network or
-- to a promise is the list `sent`, oldest first.
pub mod Commands
pub mod Fetch
pub mod Handlers
pub mod Start
pub mod App
pub mod Async
use libe2c_cpp.Prelude.{ℕ, List, [], ◌∷◌, ◌++◌, Assoc, Bool}
use libe2c_cpp.Core.{Core, Finality}
use libe2c_cpp.PaceMaker.{PaceMaker}

pub data Message : Type 0 where
  -- `MsgPropose` to a list of peers, `MsgReqBlock` and `MsgRespBlock` to one
  msg_propose : (blk : ℕ) (peers : List ℕ) → Message
  msg_req_block : (hashes : List ℕ) (peer : ℕ) → Message
  msg_resp_block : (blks : List ℕ) (peer : ℕ) → Message
  -- a call of a commit callback, a promise that is resolved or rejected with a block
  reply : Finality → (addr : ℕ) → Message
  fetched_blk : (blk : ℕ) → Message
  delivered_blk : (blk : ℕ) → Message
  rejected_blk : (blk : ℕ) → Message
  -- `state_machine_execute`, and `on_consensus` of the pacemaker
  execute : Finality → Message
  reached_consensus : (blk : ℕ) → Message

pub record Base : Type 0 where
  pub core : Core
  pub listen_addr : ℕ
  pub blk_size : ℕ
  pub peers : List ℕ
  pub valid_tls_certs : List ℕ
  pub pmaker : PaceMaker
  -- the replicas that each fetch has asked or will ask
  pub blk_fetch_waiting : Assoc (List ℕ)
  pub blk_delivery_waiting : Assoc (Unit {0})
  pub decision_waiting : Assoc ℕ
  pub cmd_pending : List (ℕ × ℕ)
  pub cmd_pending_buffer : List ℕ
  pub fetched : ℕ
  pub delivered : ℕ
  pub part_parent_size : ℕ
  pub part_fetched : ℕ
  pub part_delivered : ℕ
  pub part_decided : ℕ
  pub part_gened : ℕ
  pub part_fetched_replica : Assoc ℕ
  pub sent : List Message

abbrev pub send : Message → Base → Base
send m b = record b { sent = b.sent ++ m ∷ [] }

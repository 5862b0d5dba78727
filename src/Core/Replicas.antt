-- ===== src/Core/Replicas.antt =====
-- Several replicas, each an `E2CCore`, that exchange blocks: one of them is the proposer and stays
-- it, and all run the code. What is sent stays in a pool, so a message may be read late, often,
-- never, in any order and by anybody. The proposer takes its parents from `get_parents`, as the
-- callback of `beat` in src/e2c.cpp does.
pub mod Sent
pub mod Chain
pub mod Quiet
pub mod Leader
pub mod Head
pub mod Publishing
pub mod Next
pub mod Proposing
pub mod Reading
pub mod Joint
pub mod Agreement
use libe2c_cpp.Prelude.{
  ℕ, ◌+◌, ◌^◌, ◌<◌, ◌≡◌, ◌≢◌, List, [], ◌∷◌, ◌++◌, Option, some, Bool, Result, ok, get_elem?, set,
  length, map,
}
use libe2c_cpp.Wire.{Salticidae}
use libe2c_cpp.Crypto.{Secp256k1, PartCert}
use libe2c_cpp.Entity.{Block, Timer}
use libe2c_cpp.Entity.Codec.{serialize, unserialize, put_proposal, read_proposal}
use libe2c_cpp.Entity.Codec.Roundtrip.{IsWire}
use libe2c_cpp.Core.{Core, add_new_blk}
use libe2c_cpp.Core.History.{Holds}
use libe2c_cpp.Core.Deliver.{on_deliver_blk}
use libe2c_cpp.Core.Receive.{on_receive_proposal}
use libe2c_cpp.Core.Propose.{get_parents, on_propose}
use libe2c_cpp.Core.Commit.{commit_timer_cb}
use libe2c_cpp.Core.System.{initial}

-- The bytes of a `MsgPropose`, or of one block of a `MsgRespBlock`.
pub data Message : Type 0 where
  proposal : List ℕ → Message
  response : List ℕ → Message

pub record Replicas : Type 0 where
  pub cores : List Core
  pub pool : List Message

-- A call that concerns no other replica.
pub data Local (c c' : Core) : Type 0 where
  deliver : (r : ℕ) (fresh : Bool) → on_deliver_blk r c ≡ ok (fresh, c') → Local c c'
  receive : (r : ℕ) → on_receive_proposal r c ≡ ok c' → Local c c'
  expire :
      (r : ℕ) (b : Block) (t : Timer)
      → Holds c r b
      → b.commit_timer ≡ some t
      → commit_timer_cb t.for_height c ≡ ok c'
      → Local c c'

abbrev pub Sends : Salticidae → Secp256k1 → Block → Message → Type 0
Sends w l b (proposal bytes) = put_proposal w l b ≡ ok bytes
Sends w l b (response bytes) = bytes ≡ serialize w b

-- In a response other blocks may follow.
abbrev pub Reads : Salticidae → Secp256k1 → Message → Block → Type 0
Reads w l (proposal bytes) b = (rest : List ℕ) × (read_proposal w l bytes ≡ ok (b, rest))
Reads w l (response bytes) b =
    (more : List ℕ) × (rest : List ℕ) × (unserialize w (bytes ++ more) ≡ ok (b, rest))

-- `leader` is the place of the proposer among the replicas. A proposal is for a counter of heights
-- that does not wrap, and its hash is not in use. The genesis block, which all have, is not sent,
-- and what is sent fits its types.
pub data Act (w : Salticidae) (l : Secp256k1) (create_part_cert : ℕ → Result PartCert) (leader : ℕ)
    (s s' : Replicas) : Type 0 where
  propose :
      (c c₁ c' : Core) (cmds : List ℕ) (ps : List (Option ℕ)) (r : ℕ) (mark : Block)
      → get_elem? s.cores leader ≡ some c
      → get_parents c ≡ ok (ps, c₁)
      → on_propose w create_part_cert cmds ps [] c₁ ≡ ok (r, c')
      → Holds c c.b_mark mark
      → mark.height + 1 < 2 ^ 32
      → r ≡ length c.blocks
      → s' ≡ record s { cores = set s.cores leader c' }
      → Act w l create_part_cert leader s s'
  call :
      (i : ℕ) (c c' : Core)
      → get_elem? s.cores i ≡ some c
      → Local c c'
      → s' ≡ record s { cores = set s.cores i c' }
      → Act w l create_part_cert leader s s'
  send :
      (i r : ℕ) (c : Core) (b : Block) (m : Message)
      → get_elem? s.cores i ≡ some c
      → Holds c r b
      → r ≢ c.b0
      → IsWire b
      → Sends w l b m
      → s' ≡ record s { pool = m ∷ s.pool }
      → Act w l create_part_cert leader s s'
  read :
      (i k : ℕ) (c : Core) (m : Message) (b : Block)
      → get_elem? s.cores i ≡ some c
      → get_elem? s.pool k ≡ some m
      → Reads w l m b
      → s' ≡ record s { cores = set s.cores i (add_new_blk b c).1 }
      → Act w l create_part_cert leader s s'

pub data Run (w : Salticidae) (l : Secp256k1) (create_part_cert : ℕ → Result PartCert) (leader : ℕ)
    (s : Replicas) : Replicas → Type 0 where
  here : Run w l create_part_cert leader s s
  next :
      {t u : Replicas}
      → Run w l create_part_cert leader s t
      → Act w l create_part_cert leader t u
      → Run w l create_part_cert leader s u

-- Replicas with these identities, before any message.
unfoldable pub started : (ids : List ℕ) → (genesis_hash delta nfaulty : ℕ) → Replicas
started ids g delta nfaulty = record {
  cores = map (λ id. initial id g delta nfaulty) ids;
  pool = [];
}

-- ===== src/Net/Commands.antt =====
-- Commands from clients: `exec_command`, the handler of `cmd_pending` that `start` registers, and
-- `do_decide`, `do_consensus`, `do_broadcast_proposal` of src/e2c.cpp.
pub mod Batches
pub mod Answers
pub mod Decided
use libe2c_cpp.Prelude.{
  ℕ, ◌+◌, ◌%◌, ◌^◌, List, [], ◌∷◌, ◌++◌, Option, none, some, Bool, true, false, lookup, insert,
  erase, length, take, drop, leb, ◌==◌, if◌then◌else◌, Result, ok, ◌>>=◌,
}
use libe2c_cpp.Wire.{Salticidae}
use libe2c_cpp.Crypto.{PartCert}
use libe2c_cpp.Core.{
  Core, Finality, Output, broadcast_proposal, resolve_proposal, resolve_receive_proposal, consensus,
  decide, equivocation,
}
use libe2c_cpp.Core.Propose.{get_parents, on_propose}
use libe2c_cpp.PaceMaker.{get_proposer, beat}
use libe2c_cpp.Net.{Base, send, reply, execute, reached_consensus, msg_propose}

unfoldable pub exec_command : (cmd_hash callback : ℕ) → Base → Base
exec_command h cb b = record b { cmd_pending = b.cmd_pending ++ (h, cb) ∷ [] }

-- The answer to a command that is waiting already.
abbrev pub duplicate : (id cmd_hash : ℕ) → Finality
duplicate id h = record {
  rid = id;
  decision = 0;
  cmd_idx = 0;
  cmd_height = 0;
  cmd_hash = h;
  blk_hash = 0;
}

-- A command is entered in `decision_waiting`, or answered at once if it is there.
unfoldable pub enter_at : Option ℕ → (cmd_hash callback : ℕ) → Base → Base
unfolding insert
enter_at none h cb b = record b { decision_waiting = insert h cb b.decision_waiting }
enter_at (some _) h cb b = send (reply (duplicate b.core.id h) cb) b

unfoldable pub enter : (cmd_hash callback : ℕ) → Base → Base
unfolding enter_at lookup
enter h cb b = enter_at (lookup h b.decision_waiting) h cb b

-- The loop of the handler, up to the proposal: the commands to propose, if a block is full.
unfoldable pub drain : List (ℕ × ℕ) → Base → Option (List ℕ) × Base
unfolding enter get_proposer
drain [] b = (none, record b { cmd_pending = [] })
drain ((h, cb) ∷ q) b =
    let b₁ = enter h cb b in
    let b₂ = record b₁ { cmd_pending_buffer = b₁.cmd_pending_buffer ++ h ∷ [] } in
    let buffer = b₂.cmd_pending_buffer in
    let skip = drain q b₁ in
    let more = drain q b₂ in
    let full : Option (List ℕ) × Base = (
      some (take b.blk_size buffer),
      record b₂ { cmd_pending_buffer = drop b.blk_size buffer; cmd_pending = q },
    ) in
    if get_proposer b.pmaker == b.core.id
    then (if leb b.blk_size (length buffer) then full else more)
    else skip

module _ (w : Salticidae) (create_part_cert : ℕ → Result PartCert) where
  -- `on_propose(cmds, get_parents())`
  unfoldable pub propose_next : List ℕ → Core → Result (ℕ × Core)
  propose_next cmds c = do (ps, c') ← get_parents c; on_propose w create_part_cert cmds ps [] c'

  -- The continuation of `pmaker->beat()`.
  unfoldable pub propose_batch : Option (List ℕ) → Base → Result (Bool × Base)
  unfolding propose_next beat
  propose_batch none b = ok (false, b)
  propose_batch (some cmds) b =
      if beat b.pmaker == b.core.id
      then (do (r, c) ← propose_next cmds b.core; ok (true, record b { core = c }))
      else ok (true, b)

  -- The handler of `cmd_pending`. The result says whether it wants to be called again.
  unfoldable pub pending_handler : Base → Result (Bool × Base)
  unfolding drain propose_batch
  pending_handler b = let (cmds, b') = drain b.cmd_pending b in propose_batch cmds b'

-- `do_decide`: the application executes, and a waiting callback is called and forgotten.
unfoldable pub answer_at : Option ℕ → Finality → Base → Base
unfolding erase
answer_at none fin b = b
answer_at (some cb) fin b = record (send (reply fin cb) b) {
  decision_waiting = erase fin.cmd_hash b.decision_waiting;
}

unfoldable pub do_decide : Finality → Base → Base
unfolding answer_at lookup
do_decide fin b =
    let b' = send (execute fin) (record b { part_decided = (b.part_decided + 1) % 2 ^ 32 }) in
    answer_at (lookup fin.cmd_hash b'.decision_waiting) fin b'

unfoldable pub do_consensus : (blk : ℕ) → Base → Base
do_consensus r b = send (reached_consensus r) b

unfoldable pub do_broadcast_proposal : (blk : ℕ) → Base → Base
do_broadcast_proposal r b = send (msg_propose r b.peers) b

-- What the core has put out, handed to the functions above. Nobody waits on the other promises.
unfoldable pub handle : Output → Base → Base
unfolding do_decide do_consensus do_broadcast_proposal
handle (broadcast_proposal r) b = do_broadcast_proposal r b
handle (resolve_proposal r) b = b
handle (resolve_receive_proposal r) b = b
handle (consensus r) b = do_consensus r b
handle (decide fin) b = do_decide fin b
handle (equivocation ht) b = b

unfoldable pub handle_all : List Output → Base → Base
unfolding handle
handle_all [] b = b
handle_all (o ∷ os) b = handle_all os (handle o b)

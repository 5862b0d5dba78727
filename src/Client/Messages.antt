-- ===== src/Client/Messages.antt =====
-- The messages between client and replica: `CommandDummy`, `MsgReqCmd`, `MsgRespCmd` and the
-- serialization of `Finality` (include/libe2c/consensus.h).
use libe2c_cpp.Prelude.{
  ℕ, ◌^◌, ◌<◌, ◌≡◌, refl, List, [], ◌++◌, Result, ok, stream_failure, ◌>>=◌, or_fail, ◌==◌,
  if◌then◌else◌, Bool-cases, inl, inr,
}
use mathlib.Core.List.{append_assoc}
use libe2c_cpp.Wire.{Salticidae, IsStream, IsHash}
use libe2c_cpp.Core.{Finality}
use libe2c_cpp.Client.{CommandDummy, put_command, new_command}

module _ (w : Salticidae) where
  unfoldable pub read_command : List ℕ → Result (CommandDummy × List ℕ)
  read_command s = do
    (cid, s) ← or_fail (w.get_u32 s) stream_failure
    (n, s) ← or_fail (w.get_u32 s) stream_failure
    ok (record { cid = cid; n = n; hash = w.digest (w.put_u32 cid ++ w.put_u32 n) }, s)

  -- `blk_hash` is sent with decision 1 only. An `int8_t` is its byte here.
  unfoldable pub put_finality : Finality → List ℕ
  put_finality fin =
      w.put_u16 fin.rid
      ++ (w.put_u8 fin.decision
          ++ (w.put_u32 fin.cmd_idx
              ++ (w.put_u32 fin.cmd_height
                  ++ (w.put_hash fin.cmd_hash
                      ++ (if fin.decision == 1 then w.put_hash fin.blk_hash else [])))))

  unfoldable pub read_blk_hash : (decision : ℕ) → List ℕ → Result (ℕ × List ℕ)
  read_blk_hash decision s =
      if decision == 1 then or_fail (w.get_hash s) stream_failure else ok (0, s)

  unfoldable pub read_finality : List ℕ → Result (Finality × List ℕ)
  unfolding read_blk_hash
  read_finality s = do
    (rid, s) ← or_fail (w.get_u16 s) stream_failure
    (decision, s) ← or_fail (w.get_u8 s) stream_failure
    (cmd_idx, s) ← or_fail (w.get_u32 s) stream_failure
    (cmd_height, s) ← or_fail (w.get_u32 s) stream_failure
    (cmd_hash, s) ← or_fail (w.get_hash s) stream_failure
    (blk_hash, s) ← read_blk_hash decision s
    ok (
      record {
        rid = rid;
        decision = decision;
        cmd_idx = cmd_idx;
        cmd_height = cmd_height;
        cmd_hash = cmd_hash;
        blk_hash = blk_hash;
      },
      s,
    )

pub record IsWireFinality (fin : Finality) : Type 0 where
  pub rid : fin.rid < 2 ^ 16
  pub decision : fin.decision < 2 ^ 8
  pub cmd_idx : fin.cmd_idx < 2 ^ 32
  pub cmd_height : fin.cmd_height < 2 ^ 32
  pub cmd_hash : IsHash fin.cmd_hash
  pub blk_hash : IsHash fin.blk_hash

-- What of a finality the receiver sees.
abbrev pub visible : Finality → Finality
visible fin = record fin { blk_hash = if fin.decision == 1 then fin.blk_hash else 0 }

module _ (w : Salticidae) (s : IsStream w) where
  blk_hash_back :
      (fin : Finality) (rest : List ℕ)
      → IsHash fin.blk_hash
      → read_blk_hash w fin.decision
          ((if fin.decision == 1 then w.put_hash fin.blk_hash else []) ++ rest)
        ≡ ok ((visible fin).blk_hash, rest)
  unfolding read_blk_hash
  blk_hash_back fin rest h = elim (Bool-cases (fin.decision == 1)) [
    | inl one ↦ rw one (rw (s.hash fin.blk_hash rest h) refl)
    | inr other ↦ rw other refl
  ]

  -- A finality whose fields fit their types, written and read back, is the same, but for the
  -- block's hash, which arrives with decision 1 and is 0 with any other.
  pub read-put_finality :
      (fin : Finality) (rest : List ℕ)
      → IsWireFinality fin
      → read_finality w (put_finality w fin ++ rest) ≡ ok (visible fin, rest)
  unfolding read_finality put_finality
  read-put_finality fin rest v =
      rw (append_assoc, append_assoc, append_assoc, append_assoc, append_assoc)
        (rw
          (
            s.u16 fin.rid _ v.rid,
            s.u8 fin.decision _ v.decision,
            s.u32 fin.cmd_idx _ v.cmd_idx,
            s.u32 fin.cmd_height _ v.cmd_height,
            s.hash fin.cmd_hash _ v.cmd_hash,
            blk_hash_back fin rest v.blk_hash,
          )
          refl)

  -- For a client's id and counter below 2 ^ 32, the replica's copy of a command is the client's,
  -- its hash included.
  pub read-put_command :
      (cid n : ℕ) (rest : List ℕ)
      → cid < 2 ^ 32
      → n < 2 ^ 32
      → read_command w (put_command w (new_command w cid n) ++ rest)
        ≡ ok (new_command w cid n, rest)
  unfolding read_command put_command new_command
  read-put_command cid n rest hc hn = rw (append_assoc, s.u32 cid _ hc, s.u32 n rest hn) refl

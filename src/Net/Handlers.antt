-- ===== src/Net/Handlers.antt =====
-- The message handlers `propose_handler`, `req_blk_handler`, `resp_blk_handler`, `conn_handler` and
-- `print_stat` of src/e2c.cpp, and the block messages. The stream is a list of bytes.
pub mod Blocks
pub mod Proposals
use libe2c_cpp.Prelude.{
  ℕ, zero, suc, ◌+◌, ◌%◌, ◌^◌, List, [], ◌∷◌, ◌++◌, Option, none, some, Bool, true, false, lookup,
  assign, length, ◌==◌, if◌then◌else◌, Result, ok, err, null_pointer, ◌>>=◌, ◌>>◌, empty_promises,
  out_of_range,
}
use libe2c_cpp.Wire.{Salticidae, put_size, read_size, put_hashes, read_hashes}
use libe2c_cpp.Entity.{Block}
use libe2c_cpp.Entity.Text.{head_or_fail}
use libe2c_cpp.Entity.Codec.{serialize, unserialize}
use libe2c_cpp.Core.{Core, contains, deref, add_new_blk}
use libe2c_cpp.PaceMaker.{get_proposer}
use libe2c_cpp.Net.{Base, send, msg_resp_block}
use libe2c_cpp.Net.Fetch.{on_fetch_blk, async_fetch_blk, async_deliver_blk, Delivery}

module _ (w : Salticidae) where
  -- `MsgReqBlock`, written and parsed
  unfoldable pub put_req_block : List ℕ → List ℕ
  put_req_block hashes = put_size w (length hashes % 2 ^ 32) ++ put_hashes w hashes

  unfoldable pub read_req_block : List ℕ → Result (List ℕ × List ℕ)
  read_req_block s = do (n, s) ← read_size w s; read_hashes w n s

  -- `MsgRespBlock`, written and parsed
  unfoldable pub put_blks : List Block → List ℕ
  unfolding serialize
  put_blks [] = []
  put_blks (b ∷ bs) = serialize w b ++ put_blks bs

  unfoldable pub put_resp_block : List Block → List ℕ
  unfolding put_blks
  put_resp_block bs = put_size w (length bs % 2 ^ 32) ++ put_blks bs

  unfoldable pub parse_blks : ℕ → List ℕ → Core → Result (List ℕ × Core)
  unfolding unserialize add_new_blk
  parse_blks zero s c = ok ([], c)
  parse_blks (suc n) s c = do
    (b, s) ← unserialize w s
    let (r, c₁) = add_new_blk b c
    (rs, c₂) ← parse_blks n s c₁
    ok (r ∷ rs, c₂)

  unfoldable pub parse_resp_block : List ℕ → Core → Result (List ℕ × Core)
  unfolding parse_blks
  parse_resp_block s c = do (n, s) ← read_size w s; parse_blks n s c

  unfoldable pub fetch_each : List ℕ → Base → Result Base
  unfolding on_fetch_blk
  fetch_each [] b = ok b
  fetch_each (r ∷ rs) b = do b' ← on_fetch_blk r b; fetch_each rs b'

  unfoldable pub resp_blk_handler : List ℕ → Base → Result Base
  unfolding parse_resp_block fetch_each
  resp_blk_handler s b = do
    (rs, c) ← parse_resp_block s b.core
    fetch_each rs (record b { core = c })

  -- `parent_hashes[0]`, which the text of a block reads.
  unfoldable pub first_parent_hash : Block → Result ℕ
  first_parent_hash blk = head_or_fail blk.parent_hashes

  -- The stored block of a proposal: dropped at height 0 or from a wrong proposer, else delivered.
  -- The log line about a wrong proposer has the text of the block.
  unfoldable pub check_proposal :
      (blk : ℕ) → Block → (peer : ℕ) → Base → Result (Option Delivery × Base)
  unfolding async_deliver_blk get_proposer first_parent_hash
  check_proposal r blk peer b =
      let (d, b') = async_deliver_blk blk.hash peer b in
      let logged = (do parent ← first_parent_hash blk; ok (none, b)) in
      if blk.height == 0
      then ok (none, b)
      else (if blk.proposer == get_proposer b.pmaker then ok (some d, b') else logged)

  -- `parse` is `MsgPropose::postponed_parse`.
  unfoldable pub propose_handler :
      (parse : List ℕ → Core → Result (ℕ × Core))
      → List ℕ
      → (peer : ℕ) → Base
      → Result (Option Delivery × Base)
  unfolding check_proposal
  propose_handler parse s peer b =
      let parsed = (do
        (r, c) ← parse s b.core
        blk ← deref c r
        check_proposal r blk peer (record b { core = c })) in
      if peer == 0 then ok (none, b) else parsed

-- The blocks that are there, once all are; else the handler waits.
abbrev pub join : Option ℕ → Option (List ℕ) → Option (List ℕ)
join (some r) (some rs) = some (r ∷ rs)
join none rs = none
join (some r) none = none

unfoldable pub fetch_all : List ℕ → Base → Option (List ℕ) × Base
unfolding async_fetch_blk
fetch_all [] b = (some [], b)
fetch_all (h ∷ hs) b =
    let (r, b₁) = async_fetch_blk h none true b in let (rs, b₂) = fetch_all hs b₁ in (join r rs, b₂)

abbrev pub respond : (peer : ℕ) → Option (List ℕ) × Base → Base
respond peer (none, b) = b
respond peer (some rs, b) = send (msg_resp_block rs peer) b

-- `promise::all` throws when it is given no promise.
unfoldable pub answer_request : List ℕ → (peer : ℕ) → Base → Result Base
unfolding fetch_all
answer_request [] peer b = err empty_promises
answer_request (h ∷ hs) peer b = ok (respond peer (fetch_all (h ∷ hs) b))

unfoldable pub req_blk_handler : List ℕ → (peer : ℕ) → Base → Result Base
unfolding answer_request
req_blk_handler hashes peer b =
    let answered = answer_request hashes peer b in if peer == 0 then ok b else answered

-- `conn_handler`: the hash of the peer's certificate, if it has one.
unfoldable pub conn_handler : (cert_hash : Option ℕ) (connected : Bool) → Base → Bool
unfolding contains
conn_handler cert false b = true
conn_handler none true b = true
conn_handler (some h) true b = contains h b.valid_tls_certs

-- `print_stat` resets the statistics of the last period. `up` says whether a peer is connected.
unfoldable pub reset_replicas : (up : ℕ → Bool) → List ℕ → Base → Base
unfolding assign
reset_replicas up [] b = b
reset_replicas up (p ∷ ps) b =
    let rest = reset_replicas up ps in
    if up p
    then rest (record b { part_fetched_replica = assign p 0 b.part_fetched_replica })
    else rest b

unfoldable pub print_stat : (up : ℕ → Bool) → Base → Base
unfolding reset_replicas
print_stat up b = reset_replicas up b.peers (record b {
  part_parent_size = 0;
  part_fetched = 0;
  part_delivered = 0;
  part_decided = 0;
  part_gened = 0;
})

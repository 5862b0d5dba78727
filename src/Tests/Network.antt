-- ===== src/Tests/Network.antt =====
-- Three replicas, of which the first is the proposer: its start, its commands and its messages.
use libe2c_cpp.Prelude.{
  out_of_range, ℕ, ◌+◌, ◌≡◌, ◌≢◌, ◌⊎◌, refl, List, [], ◌∷◌, ◌++◌, Option, none, some, true, ok, err,
  null_pointer, empty_promises, arith, lookup, insert, length,
}
use libe2c_cpp.Crypto.{PubKey, PartCert}
use libe2c_cpp.Wire.{put_hashes}
use libe2c_cpp.Entity.Codec.{serialize, put_proposal}
use libe2c_cpp.Entity.Codec.Roundtrip.{IsWire}
use libe2c_cpp.Net.Async.{parse_proposal}
use libe2c_cpp.Entity.{Block, new_block}
use libe2c_cpp.Core.{Core, Finality, new_core}
use libe2c_cpp.Core.Propose.{get_parents, get_hashes}
use libe2c_cpp.Core.Propose.Parents.{get_parents_gap}
use libe2c_cpp.PaceMaker.{get_proposer}
use libe2c_cpp.Net.{Base, send, reply, execute, msg_resp_block}
use libe2c_cpp.Net.Commands.{enter_at, enter, drain, do_decide}
use libe2c_cpp.Net.Commands.Batches.{Batched, drain-Batched}
use libe2c_cpp.Net.Commands.Answers.{do_decide_lem}
use libe2c_cpp.Net.Fetch.{continues}
use libe2c_cpp.Net.Handlers.{req_blk_handler, propose_handler}
use libe2c_cpp.Net.Handlers.Blocks.{AreStored, req_blk_handler_lem}
use libe2c_cpp.Net.Handlers.Proposals.{with_proposed, propose_handler_lem}
use libe2c_cpp.Net.App.{App}
use libe2c_cpp.Client.Messages.{IsWireFinality}
use libe2c_cpp.Net.Start.{Replica, new_base}
use libe2c_cpp.Tests.World.{stream, stream-IsStream, curve, curve-IsSecp256k1, zeros}

abbrev replica : ℕ → Replica
replica a = record { addr = a; key = PubKey.dummy; cert_hash = 100 + a }

abbrev replicas : List Replica
replicas = replica 0 ∷ replica 1 ∷ replica 2 ∷ []

abbrev fresh : Base
fresh = new_base 0 5 3 0 2 (record { proposer = 0 })

abbrev queue : List (ℕ × ℕ)
queue = (31, 201) ∷ (32, 202) ∷ (33, 203) ∷ []

drain-Batched_example :
    (get_proposer fresh.pmaker ≡ fresh.core.id
      → Batched fresh.cmd_pending_buffer queue fresh.blk_size (drain queue fresh))
    × (get_proposer fresh.pmaker ≢ fresh.core.id
        → ((drain queue fresh).0 ≡ none)
          × ((drain queue fresh).1.cmd_pending_buffer ≡ fresh.cmd_pending_buffer)
          × ((drain queue fresh).1.cmd_pending ≡ []))
unfolding new_base
drain-Batched_example = drain-Batched queue fresh (omega arith)

-- Two commands make a block, and the third stays in the queue.
drain_test : (drain queue fresh).0 ≡ some (31 ∷ 32 ∷ [])
unfolding drain enter enter_at lookup insert get_proposer new_base new_core
drain_test = refl

abbrev waiting : Base
waiting = record fresh {
  decision_waiting = (31, 201) ∷ [];
  blk_fetch_waiting = (60, 101 ∷ []) ∷ [];
}

abbrev fin : Finality
fin = record { rid = 0; decision = 1; cmd_idx = 0; cmd_height = 1; cmd_hash = 31; blk_hash = 60 }

waits : lookup 31 waiting.decision_waiting ≡ some 201
unfolding lookup
waits = refl

do_decide_lem_example :
    ((cb : ℕ)
      → lookup 31 waiting.decision_waiting ≡ some cb
      → ((do_decide fin waiting).sent ≡ (waiting.sent ++ execute fin ∷ []) ++ reply fin cb ∷ [])
        × (lookup 31 (do_decide fin waiting).decision_waiting ≡ none)
        × ((k : ℕ)
            → k ≢ 31
            → lookup k (do_decide fin waiting).decision_waiting ≡ lookup k waiting.decision_waiting)
        × ((do_decide fin (do_decide fin waiting)).sent
            ≡ (do_decide fin waiting).sent ++ execute fin ∷ []))
    × (lookup 31 waiting.decision_waiting ≡ none
        → ((do_decide fin waiting).sent ≡ waiting.sent ++ execute fin ∷ [])
          × ((do_decide fin waiting).decision_waiting ≡ waiting.decision_waiting))
do_decide_lem_example = do_decide_lem fin 31 waiting refl

abbrev blk : Block
blk = record new_block {
  parent_hashes = 5 ∷ [];
  cmds = 31 ∷ 32 ∷ [];
  proposer = 0;
  height = 2;
  hash = 60;
}

-- A core with a block at height 2 and none at height 1.
abbrev gapped : Core
gapped = record (new_core 0 5 3) {
  blocks = new_block ∷ record blk { delivered = true } ∷ [];
  b_mark = 1;
  ht_blk_map = (0, some 0) ∷ (2, some 1) ∷ [];
  storage = record { blk_cache = (5, 0) ∷ (60, 1) ∷ []; cmd_cache = [] };
}

gap : lookup 1 gapped.ht_blk_map ≡ none
unfolding lookup
gap = refl

get_parents_gap_example :
    (ps : List (Option ℕ)) × (c' : Core) × (get_parents gapped ≡ ok (ps, c'))
    × (get_hashes c' ps ≡ err null_pointer)
get_parents_gap_example =
    get_parents_gap gapped (record blk { delivered = true }) 1 refl (omega arith) (omega arith) gap

abbrev holding : Base
holding = record waiting { core = gapped }

fetch_waits : lookup 60 holding.blk_fetch_waiting ≡ some (101 ∷ [])
unfolding lookup
fetch_waits = refl

-- A block without parents, of a replica that is not the expected proposer, with its certificate.
abbrev sig : List ℕ
sig = 9 ∷ zeros 31 ++ (4 ∷ zeros 31)

abbrev rootless : Block
rootless = record new_block {
  cmds = 31 ∷ [];
  proposer = 1;
  height = 2;
  signature = some (PartCert.secp256k1 9 sig);
}

rootless-IsWire : IsWire rootless
rootless-IsWire = record {
  parent_hashes = tt;
  cmds = (omega arith, tt);
  n_parents = omega arith;
  n_cmds = omega arith;
  n_extra = omega arith;
  proposer = omega arith;
  height = omega arith;
}

not_stored : lookup (stream.digest (serialize stream rootless)) fresh.core.storage.blk_cache ≡ none
unfolding new_base new_core lookup insert serialize put_hashes
not_stored = refl

propose_handler_lem_example :
    (bytes : List ℕ) × (put_proposal stream curve rootless ≡ ok bytes)
    × ((Path ℕ 2 0) ⊎ ((1 ≢ get_proposer fresh.pmaker) × (rootless.parent_hashes ≢ []))
        → propose_handler stream (parse_proposal stream curve) (bytes ++ 5 ∷ []) 101 fresh
          ≡ ok (none, with_proposed stream rootless 9 sig fresh))
    × ((Path ℕ 2 0 → ⊥)
        → 1 ≡ get_proposer fresh.pmaker
        → lookup (stream.digest (serialize stream rootless)) fresh.blk_delivery_waiting ≡ none
        → propose_handler stream (parse_proposal stream curve) (bytes ++ 5 ∷ []) 101 fresh
          ≡ ok (
            some (continues (length fresh.core.blocks)),
            record (with_proposed stream rootless 9 sig fresh) {
              blk_delivery_waiting =
                  insert (stream.digest (serialize stream rootless)) tt fresh.blk_delivery_waiting;
            },
          ))
    × ((Path ℕ 2 0 → ⊥)
        → 1 ≢ get_proposer fresh.pmaker
        → rootless.parent_hashes ≡ []
        → propose_handler stream (parse_proposal stream curve) (bytes ++ 5 ∷ []) 101 fresh
          ≡ err out_of_range)
propose_handler_lem_example =
    propose_handler_lem stream curve (λ key. key) stream-IsStream curve-IsSecp256k1 rootless 9 sig
      (5 ∷ []) 101 fresh rootless-IsWire refl (omega arith) refl not_stored (λ e. cc)

stored : AreStored holding (60 ∷ 5 ∷ []) (1 ∷ 0 ∷ [])
unfolding lookup
stored = (refl, (refl, tt))

req_blk_handler_lem_example :
    (req_blk_handler (60 ∷ 5 ∷ []) 101 holding
      ≡ ok (send (msg_resp_block (1 ∷ 0 ∷ []) 101) holding))
    × (req_blk_handler [] 101 holding ≡ err empty_promises)
req_blk_handler_lem_example =
    req_blk_handler_lem 60 1 (5 ∷ []) (0 ∷ []) 101 holding (λ e. cc) stored

abbrev app : App
app = record { base = holding; resp_queue = []; responses = []; impeach_timer = none }

fin-IsWireFinality : IsWireFinality fin
fin-IsWireFinality = record {
  rid = omega arith;
  decision = omega arith;
  cmd_idx = omega arith;
  cmd_height = omega arith;
  cmd_hash = omega arith;
  blk_hash = omega arith;
}

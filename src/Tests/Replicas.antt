-- ===== src/Tests/Replicas.antt =====
-- Two replicas of one proposer: it proposes, and the other one reads the proposal, delivers,
-- receives and decides it.
use libe2c_cpp.Prelude.{
  ℕ, ◌≡◌, ◌≢◌, refl, List, [], ◌∷◌, ◌++◌, none, some, true, Result, ok, arith, lookup, insert,
  assign, get_elem?,
}
use libe2c_cpp.Wire.{put_hashes, read_hashes}
use libe2c_cpp.Crypto.{
  PartCert, create_part_cert, sign, check_msg_length, put_cert, put_sig, parse_part_cert, read_sig,
}
use libe2c_cpp.Entity.{Block, new_block}
use libe2c_cpp.Entity.Storage
use libe2c_cpp.Entity.Codec.{serialize, unserialize, read_extra, put_proposal, read_proposal}
use libe2c_cpp.Entity.Codec.Roundtrip.{IsWire}
use libe2c_cpp.Core.{
  Core, add_new_blk, new_core, on_init, contains, set_insert, set_erase, set_erase_all,
  broadcast_proposal, resolve_proposal, resolve_receive_proposal, equivocation,
}
use libe2c_cpp.Core.Deliver
use libe2c_cpp.Core.Deliver.{
  on_deliver_blk, deliver_unless, get_delivered_blks, get_delivered_blk, first_of_parents,
  sanity_check_delivered,
}
use libe2c_cpp.Core.Update.{install, update_at, update}
use libe2c_cpp.Core.Receive.{accept, receive_at, on_receive_proposal}
use libe2c_cpp.Core.Propose.{
  index_map, parents_from, get_parents, get_hashes, make_block, sign_block, next_height, publish,
  on_propose,
}
use libe2c_cpp.Core.Commit.{commit_blk, commit_loop, commit_timer_cb}
use libe2c_cpp.Core.System.{initial}
use libe2c_cpp.Core.Replicas.{
  Message, proposal, Replicas, Local, deliver, receive, expire, Act, propose, call, send, read, Run,
  here, next, started,
}
use libe2c_cpp.Core.Replicas.Sent.{IsSame}
use libe2c_cpp.Core.Replicas.Agreement.{replicas_agree, none_accused}
use libe2c_cpp.Tests.World.{stream, stream-IsStream, curve, zeros}

abbrev key : List ℕ
key = 4 ∷ zeros 31

abbrev cert : ℕ → Result PartCert
cert h = create_part_cert stream curve key h

abbrev first : Replicas
first = started (0 ∷ 1 ∷ []) 5 3 1

abbrev sig : List ℕ
sig = 20640 ∷ zeros 31 ++ key

-- The block as it is sent, and as its proposer has it.
abbrev sent : Block
sent = record new_block {
  parent_hashes = 5 ∷ [];
  cmds = 21 ∷ [];
  height = 1;
  hash = 20640;
  signature = some (PartCert.secp256k1 20640 sig);
}

abbrev own : Block
own = record sent {
  parents = 0 ∷ [];
  delivered = true;
  commit_timer = some (record { for_height = 1; delay = 6 });
}

abbrev genesis : Block
genesis = record new_block { delivered = true; decision = 1; proposer = 1; hash = 5 }

abbrev proposed : Core
proposed = record (initial 0 5 3 1) {
  blocks = genesis ∷ own ∷ [];
  b_mark = 1;
  tails = 1 ∷ [];
  storage = record { blk_cache = (5, 0) ∷ (20640, 1) ∷ []; cmd_cache = [] };
  ht_blk_map = (0, some 0) ∷ (1, some 1) ∷ [];
  outputs = broadcast_proposal 1 ∷ resolve_proposal 1 ∷ [];
}

parents : get_parents (initial 0 5 3 1) ≡ ok (some 0 ∷ [], initial 0 5 3 1)
unfolding get_parents parents_from new_core on_init
parents = refl

run_propose : on_propose stream cert (21 ∷ []) (some 0 ∷ []) [] (initial 0 5 3 1) ≡ ok (1, proposed)
unfolding on_propose get_hashes next_height make_block publish sign_block serialize put_hashes
    create_part_cert sign check_msg_length on_deliver_blk deliver_unless Deliver.deliver
    get_delivered_blks get_delivered_blk first_of_parents set_insert set_erase set_erase_all
    contains add_new_blk Storage.add_blk Storage.find_blk lookup insert assign update update_at
    install new_core on_init
run_propose = refl

abbrev pair : Core → Core → List Message → Replicas
pair a b pool = record { cores = a ∷ b ∷ []; pool = pool }

act₁ : Act stream curve cert 0 first (pair proposed (initial 1 5 3 1) [])
unfolding started
act₁ =
    propose (initial 0 5 3 1) (initial 0 5 3 1) proposed (21 ∷ []) (some 0 ∷ []) 1 genesis refl
      parents run_propose (unfold new_core on_init in refl) (omega arith)
      (unfold new_core on_init in refl) refl

abbrev bytes : List ℕ
bytes = serialize stream sent ++ 20640 ∷ sig

writes : put_proposal stream curve own ≡ ok bytes
unfolding put_proposal serialize put_hashes put_cert put_sig
writes = refl

own-IsWire : IsWire own
own-IsWire = record {
  parent_hashes = (omega arith, tt);
  cmds = (omega arith, tt);
  n_parents = omega arith;
  n_cmds = omega arith;
  n_extra = omega arith;
  proposer = omega arith;
  height = omega arith;
}

act₂ :
    Act stream curve cert 0
      (pair proposed (initial 1 5 3 1) [])
      (pair proposed (initial 1 5 3 1) (proposal bytes ∷ []))
unfolding on_init new_core
act₂ = send 0 1 proposed own (proposal bytes) refl refl (omega arith) own-IsWire writes refl

reads : read_proposal stream curve bytes ≡ ok (sent, [])
unfolding read_proposal unserialize serialize put_hashes read_hashes read_extra parse_part_cert
    read_sig
reads = refl

abbrev stored : Core
stored = record (initial 1 5 3 1) {
  blocks = genesis ∷ sent ∷ [];
  storage = record { blk_cache = (5, 0) ∷ (20640, 1) ∷ []; cmd_cache = [] };
}

act₃ :
    Act stream curve cert 0
      (pair proposed (initial 1 5 3 1) (proposal bytes ∷ []))
      (pair proposed stored (proposal bytes ∷ []))
unfolding add_new_blk Storage.add_blk lookup insert new_core on_init
act₃ = read 1 0 (initial 1 5 3 1) (proposal bytes) sent refl refl ([], reads) refl

abbrev delivered : Core
delivered = record stored {
  blocks = genesis ∷ record sent { parents = 0 ∷ []; delivered = true } ∷ [];
  tails = 1 ∷ [];
}

delivers : Local stored delivered
unfolding on_deliver_blk deliver_unless Deliver.deliver get_delivered_blks get_delivered_blk
    first_of_parents set_insert set_erase set_erase_all contains Storage.find_blk lookup new_core
    on_init
delivers = deliver 1 true refl

abbrev received_core : Core
received_core = record delivered {
  blocks = genesis ∷ own ∷ [];
  b_mark = 1;
  ht_blk_map = (0, some 0) ∷ (1, some 1) ∷ [];
  outputs = broadcast_proposal 1 ∷ resolve_receive_proposal 1 ∷ [];
}

receives : Local delivered received_core
unfolding on_receive_proposal sanity_check_delivered receive_at accept update update_at install
    lookup assign new_core on_init
receives = receive 1 refl

abbrev decided : Core
decided = commit_blk 1 own received_core

decides : Local received_core decided
unfolding commit_timer_cb commit_loop commit_blk index_map lookup assign new_core on_init
decides = expire 1 own (record { for_height = 1; delay = 6 }) refl refl refl

abbrev last : Replicas
last = pair proposed decided (proposal bytes ∷ [])

whole-Run : Run stream curve cert 0 first last
whole-Run =
    next
      (next
        (next (next (next (next here act₁) act₂) act₃) (call 1 stored delivered refl delivers refl))
        (call 1 delivered received_core refl receives refl))
      (call 1 received_core decided refl decides refl)

abbrev decided_blk : Block
decided_blk = record own { commit_timer = none; decision = 1 }

-- The proposer's block, not decided yet, and the other replica's.
replicas_agree_example : IsSame own decided_blk
unfolding commit_blk
replicas_agree_example =
    replicas_agree stream curve cert 0 (0 ∷ 1 ∷ []) 5 3 1 last 0 1 proposed decided 1 1 own
      decided_blk stream-IsStream whole-Run refl refl refl refl refl

none_accused_example : get_elem? decided.outputs 0 ≢ some (equivocation 1)
none_accused_example =
    none_accused stream curve cert 0 (0 ∷ 1 ∷ []) 5 3 1 last 1 0 1 decided stream-IsStream whole-Run
      refl

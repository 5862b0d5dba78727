-- ===== src/Tests/Runs.antt =====
-- Replica 1 of three, whose proposer is replica 0: a client's commands and a proposal, from the first
-- byte to the reply.
use libe2c_cpp.Prelude.{some, true, ◌≡◌, refl, ok, ℕ, List, [], ◌∷◌, ◌++◌, Result}
use libe2c_cpp.Crypto.{PubKey, PartCert, create_part_cert}
use libe2c_cpp.Entity.{Block, new_block}
use libe2c_cpp.Entity.Codec.{serialize}
use libe2c_cpp.Net.Start.{Replica, new_base, start}
use libe2c_cpp.Net.Async.{Async}
use libe2c_cpp.Net.Async.Events.{
  Event, impeach_timeout, got_req_block, got_propose, got_command, commands_pending, commit_timeout,
  promise_resolved, core_output, callback_ready, run, async_base,
}
use libe2c_cpp.Prelude.{lookup, insert, assign, erase}
use libe2c_cpp.Wire.{put_hashes, read_hashes}
use libe2c_cpp.Crypto.{check_msg_length, verify_sig, verify_cert, read_sig, parse_part_cert}
use libe2c_cpp.Entity.Config.{get_info, get_pubkey}
use libe2c_cpp.Entity.Codec.{serialize, read_extra, unserialize, verify, read_proposal}
use libe2c_cpp.Core.{contains, set_insert, set_erase, set_erase_all, add_new_blk, new_core, on_init}
use libe2c_cpp.Core.Deliver.{
  get_delivered_blk, get_delivered_blks, first_of_parents, deliver, deliver_unless,
  sanity_check_delivered,
}
use libe2c_cpp.Core.Update.{install, update_at, update}
use libe2c_cpp.Core.Receive.{accept, receive_at, on_receive_proposal}
use libe2c_cpp.Core.Commit.{decisions, commit_blk, commit_loop, commit_timer_cb}
use libe2c_cpp.Core.Propose.{index_map}
use libe2c_cpp.PaceMaker.{get_proposer}
use libe2c_cpp.Net.Commands.{
  exec_command, enter_at, enter, drain, propose_batch, pending_handler, answer_at, do_decide,
  do_consensus, do_broadcast_proposal, handle,
}
use libe2c_cpp.Net.Fetch.{
  is_delivered, async_deliver_blk, deliver_missing, async_fetch_blk, all_delivered, count_delivered,
  resolve_delivery,
}
use libe2c_cpp.Net.Handlers.{check_proposal, propose_handler}
use libe2c_cpp.Net.Start.{new_base, add_one, add_all, nfaulty_of, start}
use libe2c_cpp.Net.Async.{
  without, still_waiting, now_ready, notify, undelivered, unfetched, when_delivered, when_fetched,
  continue_with, begin_delivery, begin_deliveries, verify_unless_genesis, call, parse_proposal,
  expect_proposal, on_msg_propose,
}
use libe2c_cpp.Net.Async.Events.{fire, notify_next, pass_output, call_at, step, run}
use libe2c_cpp.Entity.Config
use libe2c_cpp.Entity.Storage
use libe2c_cpp.Core
use libe2c_cpp.Core.Deliver
use libe2c_cpp.Net.Fetch
use libe2c_cpp.Entity.Codec.Roundtrip.{received}
use libe2c_cpp.Entity.Config.{ReplicaConfig}
use libe2c_cpp.Core.{broadcast_proposal, resolve_receive_proposal, consensus, decide}
use libe2c_cpp.Net.{Message, msg_propose, reply, execute, reached_consensus, msg_resp_block}
use libe2c_cpp.Net.Commands.Decided.{answer}
use libe2c_cpp.Tests.World.{stream, curve, zeros}

abbrev pub key : ℕ → List ℕ
key i = (i ∷ zeros 31)

abbrev pub replicas : List Replica
replicas =
    record { addr = 0; key = PubKey.secp256k1 (key 70); cert_hash = 100 }
    ∷ record { addr = 1; key = PubKey.secp256k1 (key 71); cert_hash = 101 }
    ∷ record { addr = 2; key = PubKey.secp256k1 (key 72); cert_hash = 102 }
    ∷ []

abbrev pub begun : Async
begun = async_base (start replicas (new_base 1 5 3 1 2 (record { proposer = 0 })))

abbrev pub body : Block
body = record new_block { parent_hashes = 5 ∷ []; cmds = 31 ∷ 32 ∷ []; proposer = 0; height = 1 }

abbrev pub sig : List ℕ
sig = 9 ∷ zeros 31 ++ key 70

abbrev pub proposal : List ℕ
proposal = serialize stream body ++ 9 ∷ [] ++ sig

abbrev pub make : ℕ → Result PartCert
make h = create_part_cert stream curve (key 71) h

abbrev pub start_events : List Event
start_events = got_command 31 201 ∷ commands_pending ∷ []

abbrev pub accepted : List Event
accepted =
    got_propose proposal 100
    ∷ callback_ready 0
    ∷ callback_ready 0
    ∷ promise_resolved
    ∷ callback_ready 0
    ∷ []

abbrev pub committed : List Event
committed = commit_timeout 1 ∷ core_output ∷ core_output ∷ core_output ∷ []

abbrev pub arriving : Block
arriving = record (received stream body) { signature = some (PartCert.secp256k1 9 sig) }

abbrev pub blk : Block
blk = record arriving { delivered = true; parents = 0 ∷ [] }

abbrev pub decided_blk : Block
decided_blk = record blk { decision = 1 }

abbrev pub armed_blk : Block
armed_blk = record blk { commit_timer = some (record { for_height = 1; delay = 6 }) }

abbrev pub config : ReplicaConfig
config = record {
  replica_map =
      (0, record { id = 0; peer_id = 100; pubkey = PubKey.secp256k1 (key 70) })
      ∷ (1, record { id = 1; peer_id = 101; pubkey = PubKey.secp256k1 (key 71) })
      ∷ (2, record { id = 2; peer_id = 102; pubkey = PubKey.secp256k1 (key 72) })
      ∷ [];
  nreplicas = 3;
  nmajority = 3;
}

abbrev pub genesis : Block
genesis = record new_block { delivered = true; decision = 1; proposer = 1; hash = 5 }

-- When a client waits for command 31.
abbrev pub asked : Async
asked = async_base (record {
  core = record {
    blocks = genesis ∷ [];
    b0 = 0;
    b_mark = 0;
    b_comm = 0;
    delta = 3;
    tails = 0 ∷ [];
    config = config;
    id = 1;
    storage = record { blk_cache = (5, 0) ∷ []; cmd_cache = [] };
    ht_blk_map = (0, some 0) ∷ [];
    outputs = [];
  };
  listen_addr = 1;
  blk_size = 2;
  peers = 100 ∷ 102 ∷ [];
  valid_tls_certs = 102 ∷ 101 ∷ 100 ∷ [];
  pmaker = record { proposer = 0 };
  blk_fetch_waiting = [];
  blk_delivery_waiting = [];
  decision_waiting = (31, 201) ∷ [];
  cmd_pending = [];
  cmd_pending_buffer = [];
  fetched = 0;
  delivered = 0;
  part_parent_size = 0;
  part_fetched = 0;
  part_delivered = 0;
  part_decided = 0;
  part_gened = 0;
  part_fetched_replica = [];
  sent = [];
})

-- When the proposal has been accepted and forwarded.
abbrev pub before : Async
before = record asked {
  base = record asked.base {
    core = record asked.base.core {
      blocks = genesis ∷ armed_blk ∷ [];
      b_mark = 1;
      tails = 1 ∷ [];
      storage = record { blk_cache = (5, 0) ∷ (77097, 1) ∷ []; cmd_cache = [] };
      ht_blk_map = (0, some 0) ∷ (1, some 1) ∷ [];
      outputs = broadcast_proposal 1 ∷ resolve_receive_proposal 1 ∷ [];
    };
    delivered = 1;
    part_parent_size = 1;
    part_delivered = 1;
    sent = Message.delivered_blk 1 ∷ msg_propose 1 (100 ∷ 102 ∷ []) ∷ [];
  };
  n_resolved = 1;
  n_passed = 2;
}

-- When its commit timer has expired and the client has its reply.
abbrev pub after : Async
after = record before {
  base = record before.base {
    core = record before.base.core {
      blocks = genesis ∷ decided_blk ∷ [];
      outputs =
          broadcast_proposal 1
          ∷ resolve_receive_proposal 1
          ∷ consensus 1
          ∷ decide (answer 1 decided_blk 0 31)
          ∷ decide (answer 1 decided_blk 1 32)
          ∷ [];
    };
    decision_waiting = [];
    part_decided = 2;
    sent =
        Message.delivered_blk 1
        ∷ msg_propose 1 (100 ∷ 102 ∷ [])
        ∷ reached_consensus 1
        ∷ execute (answer 1 decided_blk 0 31)
        ∷ reply (answer 1 decided_blk 0 31) 201
        ∷ execute (answer 1 decided_blk 1 32)
        ∷ [];
  };
  n_passed = 5;
}

abbrev pub later : List Event
later = commit_timeout 1 ∷ impeach_timeout ∷ got_req_block (5 ∷ []) 102 ∷ []

abbrev pub last : Async
last = record after {
  base = record after.base {
    pmaker = record { proposer = 1 };
    sent = after.base.sent ++ msg_resp_block (0 ∷ []) 102 ∷ [];
  };
}

pub ran :
    run stream curve make
      (start_events ++ (accepted ++ (core_output ∷ core_output ∷ committed)))
      begun
    ≡ ok after
unfolding lookup insert assign erase put_hashes read_hashes check_msg_length verify_sig verify_cert
    read_sig parse_part_cert get_info get_pubkey serialize read_extra unserialize verify
    read_proposal contains set_insert set_erase set_erase_all add_new_blk new_core on_init
    get_delivered_blk get_delivered_blks first_of_parents deliver deliver_unless
    sanity_check_delivered install update_at update accept receive_at on_receive_proposal decisions
    commit_blk commit_loop commit_timer_cb index_map get_proposer exec_command enter_at enter drain
    propose_batch pending_handler answer_at do_decide do_consensus do_broadcast_proposal handle
    is_delivered async_deliver_blk deliver_missing async_fetch_blk all_delivered count_delivered
    resolve_delivery check_proposal propose_handler new_base add_one add_all nfaulty_of start
    without still_waiting now_ready notify undelivered unfetched when_delivered when_fetched
    continue_with begin_delivery begin_deliveries verify_unless_genesis call parse_proposal
    expect_proposal on_msg_propose fire notify_next pass_output call_at step run Config.add_replica
    Storage.add_blk Storage.find_blk Storage.is_blk_fetched Storage.is_blk_delivered
    Core.add_replica Deliver.on_deliver_blk Fetch.on_deliver_blk
ran = refl

pub ran_asked : run stream curve make start_events begun ≡ ok asked
unfolding lookup insert assign erase put_hashes read_hashes check_msg_length verify_sig verify_cert
    read_sig parse_part_cert get_info get_pubkey serialize read_extra unserialize verify
    read_proposal contains set_insert set_erase set_erase_all add_new_blk new_core on_init
    get_delivered_blk get_delivered_blks first_of_parents deliver deliver_unless
    sanity_check_delivered install update_at update accept receive_at on_receive_proposal decisions
    commit_blk commit_loop commit_timer_cb index_map get_proposer exec_command enter_at enter drain
    propose_batch pending_handler answer_at do_decide do_consensus do_broadcast_proposal handle
    is_delivered async_deliver_blk deliver_missing async_fetch_blk all_delivered count_delivered
    resolve_delivery check_proposal propose_handler new_base add_one add_all nfaulty_of start
    without still_waiting now_ready notify undelivered unfetched when_delivered when_fetched
    continue_with begin_delivery begin_deliveries verify_unless_genesis call parse_proposal
    expect_proposal on_msg_propose fire notify_next pass_output call_at step run Config.add_replica
    Storage.add_blk Storage.find_blk Storage.is_blk_fetched Storage.is_blk_delivered
    Core.add_replica Deliver.on_deliver_blk Fetch.on_deliver_blk
ran_asked = refl

pub ran_before :
    run stream curve make (start_events ++ (accepted ++ core_output ∷ core_output ∷ [])) begun
    ≡ ok before
unfolding lookup insert assign erase put_hashes read_hashes check_msg_length verify_sig verify_cert
    read_sig parse_part_cert get_info get_pubkey serialize read_extra unserialize verify
    read_proposal contains set_insert set_erase set_erase_all add_new_blk new_core on_init
    get_delivered_blk get_delivered_blks first_of_parents deliver deliver_unless
    sanity_check_delivered install update_at update accept receive_at on_receive_proposal decisions
    commit_blk commit_loop commit_timer_cb index_map get_proposer exec_command enter_at enter drain
    propose_batch pending_handler answer_at do_decide do_consensus do_broadcast_proposal handle
    is_delivered async_deliver_blk deliver_missing async_fetch_blk all_delivered count_delivered
    resolve_delivery check_proposal propose_handler new_base add_one add_all nfaulty_of start
    without still_waiting now_ready notify undelivered unfetched when_delivered when_fetched
    continue_with begin_delivery begin_deliveries verify_unless_genesis call parse_proposal
    expect_proposal on_msg_propose fire notify_next pass_output call_at step run Config.add_replica
    Storage.add_blk Storage.find_blk Storage.is_blk_fetched Storage.is_blk_delivered
    Core.add_replica Deliver.on_deliver_blk Fetch.on_deliver_blk
ran_before = refl

pub ran_later : run stream curve make later after ≡ ok last
unfolding lookup insert assign erase put_hashes read_hashes check_msg_length verify_sig verify_cert
    read_sig parse_part_cert get_info get_pubkey serialize read_extra unserialize verify
    read_proposal contains set_insert set_erase set_erase_all add_new_blk new_core on_init
    get_delivered_blk get_delivered_blks first_of_parents deliver deliver_unless
    sanity_check_delivered install update_at update accept receive_at on_receive_proposal decisions
    commit_blk commit_loop commit_timer_cb index_map get_proposer exec_command enter_at enter drain
    propose_batch pending_handler answer_at do_decide do_consensus do_broadcast_proposal handle
    is_delivered async_deliver_blk deliver_missing async_fetch_blk all_delivered count_delivered
    resolve_delivery check_proposal propose_handler new_base add_one add_all nfaulty_of start
    without still_waiting now_ready notify undelivered unfetched when_delivered when_fetched
    continue_with begin_delivery begin_deliveries verify_unless_genesis call parse_proposal
    expect_proposal on_msg_propose fire notify_next pass_output call_at step run Config.add_replica
    Storage.add_blk Storage.find_blk Storage.is_blk_fetched Storage.is_blk_delivered
    Core.add_replica Deliver.on_deliver_blk Fetch.on_deliver_blk
ran_later = refl

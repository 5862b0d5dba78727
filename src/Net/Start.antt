-- ===== src/Net/Start.antt =====
-- `E2CBase` and `start` of src/e2c.cpp up to the event loop. The network registrations have no
-- effect on the state.
pub mod Sizes
use libe2c_cpp.Prelude.{
  ℕ, suc, ◌+◌, ◌-◌, ◌%◌, ◌/◌, ◌^◌, List, [], ◌∷◌, ◌++◌, Bool, length, ◌==◌, if◌then◌else◌,
}
use libe2c_cpp.Crypto.{PubKey}
use libe2c_cpp.Core
use libe2c_cpp.Core.{contains, set_insert, new_core}
use libe2c_cpp.PaceMaker.{PaceMaker}
use libe2c_cpp.Net.{Base}

-- `start` is given a replica's address, key and certificate hash.
pub record Replica : Type 0 where
  pub addr : ℕ
  pub key : PubKey
  pub cert_hash : ℕ

-- The constructor, with the `delta` of `set_delta`.
unfoldable pub new_base : (id genesis_hash delta listen_addr blk_size : ℕ) → PaceMaker → Base
unfolding new_core
new_base id g delta listen_addr blk_size pmaker = record {
  core = new_core id g delta;
  listen_addr = listen_addr;
  blk_size = blk_size;
  peers = [];
  valid_tls_certs = [];
  pmaker = pmaker;
  blk_fetch_waiting = [];
  blk_delivery_waiting = [];
  decision_waiting = [];
  cmd_pending = [];
  cmd_pending_buffer = [];
  fetched = 0;
  delivered = 0;
  part_parent_size = 0;
  part_fetched = 0;
  part_delivered = 0;
  part_decided = 0;
  part_gened = 0;
  part_fetched_replica = [];
  sent = [];
}

-- One turn of the loop over the replicas. The index becomes a `ReplicaID` of 16 bits.
unfoldable pub add_one : (i : ℕ) → Replica → Base → Base
unfolding set_insert Core.add_replica
add_one i r b =
    let b' = record b {
      valid_tls_certs = set_insert r.cert_hash b.valid_tls_certs;
      core = Core.add_replica (i % 2 ^ 16) r.cert_hash r.key b.core;
    } in
    if r.addr == b.listen_addr then b' else record b' { peers = b'.peers ++ r.cert_hash ∷ [] }

unfoldable pub add_all : (i : ℕ) → List Replica → Base → Base
unfolding add_one
add_all i [] b = b
add_all i (r ∷ rs) b = add_all (suc i) rs (add_one i r b)

-- `(peers.size()-1) / 2`, on `size_t`, cut to 32 bits.
unfoldable pub nfaulty_of : (n_peers : ℕ) → ℕ
nfaulty_of n = (n + 2 ^ 64 - 1) % 2 ^ 64 / 2 % 2 ^ 32

unfoldable pub start : List Replica → Base → Base
unfolding add_all nfaulty_of Core.on_init
start rs b =
    let b' = add_all 0 rs b in
    record b' { core = Core.on_init (nfaulty_of (length b'.peers)) b'.core }

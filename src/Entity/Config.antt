-- ===== src/Entity/Config.antt =====
-- `ReplicaInfo` and `ReplicaConfig` of include/libe2c/entity.h.
use libe2c_cpp.Prelude.{
  ℕ, ◌+◌, ◌%◌, ◌^◌, [], Assoc, lookup, insert, Result, ok, rid_not_found, ◌>>=◌, or_fail,
}
use libe2c_cpp.Crypto.{PubKey}

pub record ReplicaInfo : Type 0 where
  pub id : ℕ
  pub peer_id : ℕ
  pub pubkey : PubKey

pub record ReplicaConfig : Type 0 where
  pub replica_map : Assoc ReplicaInfo
  pub nreplicas : ℕ
  pub nmajority : ℕ

abbrev pub new_config : ReplicaConfig
new_config = record { replica_map = []; nreplicas = 0; nmajority = 0 }

-- The counter goes up also where the map has the replica already. It is a `size_t`.
unfoldable pub add_replica : ℕ → ReplicaInfo → ReplicaConfig → ReplicaConfig
unfolding insert
add_replica rid info c = record c {
  replica_map = insert rid info c.replica_map;
  nreplicas = (c.nreplicas + 1) % 2 ^ 64;
}

unfoldable pub get_info : ReplicaConfig → ℕ → Result ReplicaInfo
get_info c rid = or_fail (lookup rid c.replica_map) rid_not_found

unfoldable pub get_pubkey : ReplicaConfig → ℕ → Result PubKey
unfolding get_info
get_pubkey c rid = do info ← get_info c rid; ok info.pubkey

unfoldable pub get_peer_id : ReplicaConfig → ℕ → Result ℕ
unfolding get_info
get_peer_id c rid = do info ← get_info c rid; ok info.peer_id

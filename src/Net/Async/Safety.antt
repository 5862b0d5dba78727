-- ===== src/Net/Async/Safety.antt =====
-- What holds of a replica with its network from its start on.
use libe2c_cpp.Prelude.{ℕ, suc, ◌≡◌, refl, List, [], ◌∷◌, arith, Result, ok, lookup, some}
use libe2c_cpp.Wire.{Salticidae}
use libe2c_cpp.Crypto.{Secp256k1, PartCert}
use libe2c_cpp.Entity.{Block}
use libe2c_cpp.Core
use libe2c_cpp.Core.{Core, on_init, new_core}
use libe2c_cpp.Core.History.{Holds}
use libe2c_cpp.Core.Invariant.{IsValid, Kept-same}
use libe2c_cpp.Core.System.{Reach-Kept, initial, initial-IsValid}
use libe2c_cpp.PaceMaker.{PaceMaker}
use libe2c_cpp.Net.{Base}
use libe2c_cpp.Net.Start.{Replica, new_base, start, add_one, add_all}
use libe2c_cpp.Net.Async.{Async}
use libe2c_cpp.Net.Async.Events.{Event, run, async_base}
use libe2c_cpp.Net.Async.Runs.{run-Reach}

-- `start` only adds replicas and peers.
add_all_same :
    (rs : List Replica) (i : ℕ) (b : Base)
    → ((add_all i rs b).core.blocks ≡ b.core.blocks)
      × ((add_all i rs b).core.b0 ≡ b.core.b0)
      × ((add_all i rs b).core.b_mark ≡ b.core.b_mark)
      × ((add_all i rs b).core.ht_blk_map ≡ b.core.ht_blk_map)
      × ((add_all i rs b).core.storage ≡ b.core.storage)
unfolding add_all add_one Core.add_replica
add_all_same [] i b = (refl, refl, refl, refl, refl)
add_all_same (r ∷ rs) i b = ground (arith, add_all_same rs (suc i) (add_one i r b))

pub start-IsValid :
    (id g delta addr blk_size : ℕ) (pmaker : PaceMaker) (rs : List Replica)
    → IsValid (start rs (new_base id g delta addr blk_size pmaker)).core
unfolding start on_init new_base
start-IsValid id g delta addr blk_size pmaker rs =
    let b = new_base id g delta addr blk_size pmaker in
    let (blocks, b0, mark, map, storage) = add_all_same rs 0 b in
    (Kept-same (initial id g delta 0) (start rs b).core blocks b0 mark (rw (map, b0) refl) storage
      (initial-IsValid id g delta 0)).0

module _ (w : Salticidae) (l : Secp256k1) (create_part_cert : ℕ → Result PartCert)
    (id g delta addr blk_size : ℕ) (pmaker : PaceMaker) (rs : List Replica) (es : List Event)
    {a : Async}
    (before : run w l create_part_cert es
        (async_base (start rs (new_base id g delta addr blk_size pmaker)))
      ≡ ok a) where
  -- A replica that is started, and then meets any messages, commands, timeouts and callbacks in any
  -- order, has a well-formed core for as long as no handler fails.
  pub run-IsValid : IsValid a.base.core
  run-IsValid =
      (Reach-Kept (start-IsValid id g delta addr blk_size pmaker rs)
        (run-Reach w l create_part_cert es _ a before)).0

  -- A replica that is started, and then meets any messages, commands, timeouts and callbacks in any
  -- order, never decides two blocks of one height: a block that is decided at some time and one that
  -- is decided after any further events are the same block if their heights are equal.
  pub run_decides_once :
      (es' : List Event) (a' : Async) (r q : ℕ) (b d : Block)
      → run w l create_part_cert es' a ≡ ok a'
      → Holds a.base.core r b
      → b.decision ≡ 1
      → Holds a'.base.core q d
      → d.decision ≡ 1
      → d.height ≡ b.height
      → q ≡ r
  run_decides_once es' a' r q b d after hb db hd dd same =
      let k = Reach-Kept run-IsValid (run-Reach w l create_part_cert es' a a' after) in
      let now = k.1.held b.height r (run-IsValid.decided r b hb db) in
      let later : lookup d.height a'.base.core.ht_blk_map ≡ some (some q) = k.0.decided q d hd dd in
      ground arith

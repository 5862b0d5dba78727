-- ===== src/Net/Start/Sizes.antt =====
-- How many faults a replica and a client reckon with.
use libe2c_cpp.Prelude.{
  ℕ, suc, ◌+◌, ◌-◌, ◌/◌, ◌%◌, ◌^◌, ◌≤◌, ◌<◌, ◌≡◌, ◌∙◌, List, [], ◌∷◌, length, length-append, arith,
  ◌==◌, if◌then◌else◌,
}
use libe2c_cpp.Core
use libe2c_cpp.Entity.Config
use libe2c_cpp.PaceMaker.{PaceMaker}
use libe2c_cpp.Net.{Base}
use libe2c_cpp.Net.Start.{Replica, new_base, add_one, add_all, nfaulty_of, start}
use libe2c_cpp.Client.{client_nfaulty}

-- The replicas at other addresses.
abbrev pub others : (listen_addr : ℕ) → List Replica → ℕ
others a [] = 0
others a (r ∷ rs) = let n = others a rs in if r.addr == a then n else suc n

others_le : (a : ℕ) (rs : List Replica) → others a rs ≤ length rs
others_le a [] = omega arith
others_le a (r ∷ rs) = ground (arith, others_le a rs)

add_one_sizes :
    (i : ℕ) (r : Replica) (b : Base)
    → (length (add_one i r b).peers ≡ length b.peers + others b.listen_addr (r ∷ []))
      × ((add_one i r b).core.config.nreplicas ≡ (b.core.config.nreplicas + 1) % 2 ^ 64)
      × ((add_one i r b).listen_addr ≡ b.listen_addr)
unfolding add_one Core.add_replica Config.add_replica
add_one_sizes i r b = ground (arith, length-append b.peers (r.cert_hash ∷ []))

add_all_sizes :
    (rs : List Replica) (i : ℕ) (b : Base)
    → b.core.config.nreplicas + length rs < 2 ^ 64
    → (length (add_all i rs b).peers ≡ length b.peers + others b.listen_addr rs)
      × ((add_all i rs b).core.config.nreplicas ≡ b.core.config.nreplicas + length rs)
unfolding add_all
add_all_sizes [] i b h = ground arith
add_all_sizes (r ∷ rs) i b h =
    let (p, n, a) = add_one_sizes i r b in
    let small : (add_one i r b).core.config.nreplicas ≡ b.core.config.nreplicas + 1 =
      n ∙ omega (arith, h) in
    let (p', n') = add_all_sizes rs (suc i) (add_one i r b) (omega (arith, h, small)) in
    (p' ∙ ground (arith, p, a), n' ∙ omega (arith, small))

-- A fresh replica that is started with n replicas, n below 2 ^ 16, of which k ≥ 1 are at other
-- addresses, counts n replicas and k peers, and its majority is n less (k - 1) / 2.
pub start_lem :
    (id g delta addr blk_size : ℕ) (pmaker : PaceMaker) (rs : List Replica)
    → length rs < 2 ^ 16
    → 1 ≤ others addr rs
    → let b = start rs (new_base id g delta addr blk_size pmaker) in
      (b.core.config.nreplicas ≡ length rs)
      × (length b.peers ≡ others addr rs)
      × (b.core.config.nmajority ≡ length rs - (others addr rs - 1) / 2)
unfolding start nfaulty_of Core.on_init new_base
start_lem id g delta addr blk_size pmaker rs small some_ =
    let le = others_le addr rs in
    let (p, n) =
      add_all_sizes rs 0 (new_base id g delta addr blk_size pmaker) (omega (arith, small)) in
    (omega (arith, n), omega (arith, p), rw (n, p) (omega (arith, small, le, some_)))

-- The faults that a replica reckons with from its n - 1 peers, and a client from the n replicas,
-- for n from 2 to below 2 ^ 32: the same for an even n, one fewer for an odd n.
pub nfaulty_differs : (n : ℕ) → 2 ≤ n → n < 2 ^ 32 → client_nfaulty n ≡ nfaulty_of (n - 1) + n % 2
unfolding nfaulty_of client_nfaulty
nfaulty_differs n two small = omega arith

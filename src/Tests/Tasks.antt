-- ===== src/Tests/Tasks.antt =====
-- Two tasks in the thread pool; the second one is finished first.
use libe2c_cpp.Prelude.{arith, ℕ, ◌≡◌, refl, [], ◌∷◌, Bool, true, false, ok, ◌==◌, assign}
use libe2c_cpp.Crypto.Pool.{
  VeriPool, new_pool, count, remove, submit, Reach, submitted, taken, finished, here, next,
}
use libe2c_cpp.Crypto.Pool.Turns.{rounds}
use libe2c_cpp.Crypto.Pool.Rounds.{pool_drains}

-- The first task's signature is valid, the second one's is not.
abbrev verdict : ℕ → Bool
verdict t = t == 1

abbrev p₁ : VeriPool
p₁ = record new_pool { pms = 1 ∷ []; in_queue = 1 ∷ [] }

abbrev p₂ : VeriPool
p₂ = record new_pool { pms = 2 ∷ 1 ∷ []; in_queue = 1 ∷ 2 ∷ [] }

abbrev p₃ : VeriPool
p₃ = record p₂ { in_queue = 2 ∷ []; running = 1 ∷ [] }

abbrev p₄ : VeriPool
p₄ = record p₂ { in_queue = []; running = 2 ∷ 1 ∷ [] }

abbrev p₅ : VeriPool
p₅ = record p₄ { running = 1 ∷ []; result = (2, false) ∷ []; out_queue = 2 ∷ [] }

run : Reach verdict new_pool p₅
unfolding submit count remove assign
run =
    next
      (next
        (next (next (next here (submitted 1 refl)) (submitted 2 refl)) (taken 1 (2 ∷ []) refl refl))
        (taken 2 [] refl refl))
      (finished 2 refl refl)

abbrev p₆ : VeriPool
p₆ = record p₅ { running = []; result = (2, false) ∷ (1, true) ∷ []; out_queue = 2 ∷ 1 ∷ [] }

run₆ : Reach verdict new_pool p₆
unfolding count remove assign
run₆ = next run (finished 1 refl refl)

abbrev p₇ : VeriPool
p₇ = record p₆ { pms = 3 ∷ 2 ∷ 1 ∷ []; in_queue = 3 ∷ [] }

run₇ : Reach verdict new_pool p₇
unfolding submit count
run₇ = next run₆ (submitted 3 refl)

-- Two rounds of one task each leave one of the three; three rounds are enough.
pool_drains_example :
    (q : VeriPool) × (rounds verdict 3 1 p₇ ≡ ok q)
    × (q.in_queue ≡ [])
    × (q.out_queue ≡ [])
    × (q.resolved ≡ (2, false) ∷ (1, true) ∷ (3, false) ∷ [])
    × ((t : ℕ) → count t q.pms ≡ 0)
pool_drains_example = pool_drains verdict 1 3 p₇ run₇ refl (omega arith) (omega arith) (omega arith)

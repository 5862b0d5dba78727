-- ===== src/Crypto/Pool/Turns.antt =====
-- The handlers of the two queues of include/libe2c/task.h, a whole turn at a time: a turn ends when
-- the queue is empty, or after `burst_size` tasks, and says whether it wants another turn. The
-- steps of Crypto/Pool are the single tasks of such turns, with other threads in between.
use libe2c_cpp.Prelude.{
  ℕ, zero, suc, ◌+◌, ◌-◌, ◌%◌, ◌^◌, List, [], ◌∷◌, ◌++◌, map, Bool, true, false, assign, ◌==◌,
  if◌then◌else◌, Result, ok, ◌>>=◌,
}
use libe2c_cpp.Crypto.Pool.{VeriPool, resolve, new_pool}

-- `--cnt` on a `size_t`
abbrev pub one_less : ℕ → ℕ
one_less n = (n + 2 ^ 64 - 1) % 2 ^ 64

module _ (verdict : ℕ → Bool) where
  -- One task of a worker: off the queue, verified, and handed on.
  unfoldable pub work : (task : ℕ) → (rest : List ℕ) → VeriPool → VeriPool
  unfolding assign
  work t ts p = record p {
    in_queue = ts;
    result = assign t (verdict t) p.result;
    out_queue = p.out_queue ++ t ∷ [];
  }

  -- The handler of `in_queue`; the queue is an argument.
  unfoldable pub work_turn : (cnt : ℕ) → List ℕ → VeriPool → Bool × VeriPool
  unfolding work
  work_turn cnt [] p = (false, p)
  work_turn cnt (t ∷ ts) p =
      let rest = work_turn (one_less cnt) ts (work t ts p) in
      if one_less cnt == 0 then (true, work t ts p) else rest

-- The handler of `out_queue`
unfoldable pub collect_turn : (cnt : ℕ) → List ℕ → VeriPool → Result (Bool × VeriPool)
unfolding resolve
collect_turn cnt [] p = ok (false, p)
collect_turn cnt (t ∷ ts) p = do
  p' ← resolve t (record p { out_queue = ts })
  let rest = collect_turn (one_less cnt) ts p'
  if one_less cnt == 0 then ok (true, p') else rest

-- A pool: its burst size, and whether each worker's thread runs.
pub record Pool : Type 0 where
  pub burst_size : ℕ
  pub workers : List Bool
  pub tasks : VeriPool

abbrev pub replicate : ℕ → Bool → List Bool
replicate zero b = []
replicate (suc n) b = b ∷ replicate n b

-- `VeriPool(ec, nworker, burst_size)` and `~VeriPool()`
unfoldable pub make_pool : (nworker burst_size : ℕ) → Pool
make_pool n burst = record { burst_size = burst; workers = replicate n true; tasks = new_pool }

unfoldable pub delete_pool : Pool → Pool
delete_pool p = record p { workers = map (λ _. false) p.workers }

-- A round: a worker has its turn, then the main thread has its own.
unfoldable pub round : (verdict : ℕ → Bool) → (burst : ℕ) → VeriPool → Result VeriPool
unfolding work_turn collect_turn
round verdict burst p = do
  let q = (work_turn verdict burst p.in_queue p).1
  (again, r) ← collect_turn burst q.out_queue q
  ok r

unfoldable pub rounds : (verdict : ℕ → Bool) → (n burst : ℕ) → VeriPool → Result VeriPool
unfolding round
rounds verdict zero burst p = ok p
rounds verdict (suc n) burst p = do q ← round verdict burst p; rounds verdict n burst q

-- ===== src/Crypto/Pool.antt =====
-- `VeriPool` of include/libe2c/task.h: tasks wait in a queue for a worker thread, and finished tasks
-- in a second one for the main thread. A task is a number, and `verdict` says what its `verify`
-- returns. A worker's turn is two steps, since others run between them: it takes a task off the
-- queue, and later hands it on with its result.
pub mod Verdicts
pub mod Turns
pub mod Handled
pub mod Rounds
use libe2c_cpp.Prelude.{
  ℕ, zero, suc, ◌+◌, ◌-◌, ◌≡◌, List, [], ◌∷◌, ◌++◌, Option, none, some, Bool, true, false, Assoc,
  lookup, assign, ◌==◌, if◌then◌else◌, Result, ok, err, null_pointer, assertion, ◌>>=◌, or_fail,
}

pub record VeriPool : Type 0 where
  pub in_queue : List ℕ
  pub running : List ℕ
  pub out_queue : List ℕ
  pub result : Assoc Bool
  pub pms : List ℕ
  -- the promises that were resolved, oldest first
  pub resolved : List (ℕ × Bool)

abbrev pub new_pool : VeriPool
new_pool = record {
  in_queue = [];
  running = [];
  out_queue = [];
  result = [];
  pms = [];
  resolved = [];
}

unfoldable pub count : ℕ → List ℕ → ℕ
count t [] = 0
count t (x ∷ xs) = let n = count t xs in if x == t then suc n else n

-- One occurrence less.
unfoldable pub remove : ℕ → List ℕ → List ℕ
remove t [] = []
remove t (x ∷ xs) = let rest = remove t xs in if x == t then xs else x ∷ rest

-- `VeriPool::verify`
unfoldable pub submit : (task : ℕ) → VeriPool → Result VeriPool
unfolding count
submit t p =
    if count t p.pms == 0
    then ok (record p { pms = t ∷ p.pms; in_queue = p.in_queue ++ t ∷ [] })
    else err assertion

-- The body of the handler of `out_queue`.
unfoldable pub resolve : (task : ℕ) → VeriPool → Result VeriPool
unfolding count remove lookup
resolve t p = do
  valid ← or_fail (lookup t p.result) null_pointer
  if count t p.pms == 0
      then err null_pointer
      else ok (record p { resolved = p.resolved ++ (t, valid) ∷ []; pms = remove t p.pms })

module _ (verdict : ℕ → Bool) where
  pub data Step (p p' : VeriPool) : Type 0 where
    submitted : (t : ℕ) → submit t p ≡ ok p' → Step p p'
    taken :
        (t : ℕ) (ts : List ℕ)
        → p.in_queue ≡ t ∷ ts
        → p' ≡ record p { in_queue = ts; running = t ∷ p.running }
        → Step p p'
    finished :
        (t : ℕ)
        → (count t p.running == 0) ≡ false
        → p' ≡ record p {
          running = remove t p.running;
          result = assign t (verdict t) p.result;
          out_queue = p.out_queue ++ t ∷ [];
        }
        → Step p p'
    collected :
        (t : ℕ) (ts : List ℕ)
        → p.out_queue ≡ t ∷ ts
        → resolve t (record p { out_queue = ts }) ≡ ok p'
        → Step p p'

  pub data Reach (p : VeriPool) : VeriPool → Type 0 where
    here : Reach p p
    next : {q r : VeriPool} → Reach p q → Step q r → Reach p r

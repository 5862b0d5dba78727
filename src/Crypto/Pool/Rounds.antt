-- ===== src/Crypto/Pool/Rounds.antt =====
-- Rounds of turns, and the tasks that are left after each.
use libe2c_cpp.Prelude.{
  ℕ, zero, suc, ◌-◌, ◌*◌, ◌^◌, ◌≤◌, ◌<◌, ◌≡◌, refl, ◌∙◌, sym, ap, List, [], ◌∷◌, ◌++◌, map, Bool,
  length, take, drop, take-append-drop, arith, ok,
}
use mathlib.Core.List.{append_assoc, append-nil, map-append}
use libe2c_cpp.Crypto.Pool.{VeriPool, count, new_pool, Reach}
use libe2c_cpp.Crypto.Pool.Verdicts.{IsPooled, Reach-IsPooled, new_pool-IsPooled}
use libe2c_cpp.Crypto.Pool.Turns.{work_turn, round, rounds}
use libe2c_cpp.Crypto.Pool.Handled.{work_turn-Worked, collect_turn-Collected}

length-drop {ℓ} : {A : Type ℓ} (n : ℕ) (xs : List A) → length (drop n xs) ≡ length xs - n
length-drop zero xs = omega arith
length-drop (suc n) [] = omega arith
length-drop (suc n) (x ∷ xs) = omega (arith, length-drop n xs)

length-eq-zero {ℓ} : {A : Type ℓ} (xs : List A) → length xs ≡ 0 → xs ≡ []
length-eq-zero [] e = refl
length-eq-zero (x ∷ xs) e = absurd (omega arith)

-- The tasks that are not resolved yet, the finished ones first.
abbrev pub pending : VeriPool → List ℕ
pending p = p.out_queue ++ p.in_queue

take-append-take : (b m : ℕ) (xs ys : List ℕ) → b ≤ m → take b (xs ++ take m ys) ≡ take b (xs ++ ys)
take-append-take zero m xs ys h = refl
take-append-take (suc b) m (x ∷ xs) ys h =
    ap (λ l. x ∷ l) (take-append-take b m xs ys (omega arith))
take-append-take (suc b) zero [] ys h = absurd (omega arith)
take-append-take (suc b) (suc m) [] [] h = refl
take-append-take (suc b) (suc m) [] (y ∷ ys) h =
    ap (λ l. y ∷ l) (take-append-take b m [] ys (omega arith))

drop-append-take :
    (b m : ℕ) (xs ys : List ℕ) → b ≤ m → drop b (xs ++ take m ys) ++ drop m ys ≡ drop b (xs ++ ys)
drop-append-take zero m xs ys h =
    append_assoc xs (take m ys) (drop m ys) ∙ ap (λ l. xs ++ l) (take-append-drop m ys)
drop-append-take (suc b) m (x ∷ xs) ys h = drop-append-take b m xs ys (omega arith)
drop-append-take (suc b) zero [] ys h = absurd (omega arith)
drop-append-take (suc b) (suc m) [] [] h = refl
drop-append-take (suc b) (suc m) [] (y ∷ ys) h = drop-append-take b m [] ys (omega arith)

module _ (verdict : ℕ → Bool) (burst : ℕ) (lo : 0 < burst) (hi : burst < 2 ^ 64) where
  round_lem :
      (p : VeriPool)
      → IsPooled verdict p
      → (q : VeriPool) × (round verdict burst p ≡ ok q)
        × (pending q ≡ drop burst (pending p))
        × (q.running ≡ p.running)
        × (q.resolved ≡ p.resolved ++ map (λ t. (t, verdict t)) (take burst (pending p)))
        × IsPooled verdict q
  round_lem p v =
      let w = work_turn-Worked burst p.in_queue p lo hi refl v in
      let q = (work_turn verdict burst p.in_queue p).1 in
      let (x, run, c) = collect_turn-Collected burst q.out_queue q lo hi refl w.pooled in
      (
        x.1,
        unfold round in rw run refl,
        rw (c.out_queue, c.in_queue, w.in_queue, w.out_queue)
            (drop-append-take burst burst p.out_queue p.in_queue (omega arith)),
        c.running ∙ w.running,
        c.resolved
            ∙ rw
                (
                  w.resolved,
                  w.out_queue,
                  take-append-take burst burst p.out_queue p.in_queue (omega arith),
                )
                refl,
        c.pooled,
      )

  rounds-suc :
      (n : ℕ) (p q : VeriPool)
      → round verdict burst p ≡ ok q
      → rounds verdict (suc n) burst p ≡ rounds verdict n burst q
  unfolding rounds
  rounds-suc n p q run = rw run refl

  rounds_lem :
      (n : ℕ) (p : VeriPool)
      → IsPooled verdict p
      → length (pending p) ≤ n * burst
      → (q : VeriPool) × (rounds verdict n burst p ≡ ok q)
        × (pending q ≡ [])
        × (q.running ≡ p.running)
        × (q.resolved ≡ p.resolved ++ map (λ t. (t, verdict t)) (pending p))
        × IsPooled verdict q
  rounds_lem zero p v few =
      let none_ : pending p ≡ [] = length-eq-zero (pending p) (omega arith) in
      (p, unfold rounds in refl, none_, refl, rw none_ (sym (append-nil _)), v)
  rounds_lem (suc n) p v few =
      let (q, run, left, idle, done, v') = round_lem p v in
      let fewer : length (pending q) ≤ n * burst =
        rw left (rw (length-drop burst (pending p)) (grind (arith, few))) in
      let (r, run', none_, idle', done', v'') = rounds_lem n q v' fewer in
      (
        r,
        rounds-suc n p q run ∙ run',
        none_,
        idle' ∙ idle,
        done'
            ∙ rw (done, left)
                (append_assoc p.resolved _ _
                  ∙ ap (λ l. p.resolved ++ l)
                      (sym (
                          map-append (λ t. (t, verdict t)) (take burst (pending p))
                            (drop burst (pending p)))
                        ∙ ap (map (λ t. (t, verdict t))) (take-append-drop burst (pending p)))),
        v'',
      )

nil_of_append {ℓ} : {A : Type ℓ} (xs ys : List A) → xs ++ ys ≡ [] → (xs ≡ []) × (ys ≡ [])
nil_of_append [] ys e = (refl, e)
nil_of_append (x ∷ xs) ys e = absurd (let n : ⊥ = cc in n)

-- Tasks were submitted, verified and collected in any order; no worker is busy; and from now on a
-- worker and the main thread take turns, of at most `burst` tasks, a positive number, each. If
-- `n * burst` is at least the number of tasks that are left, then n rounds return, both queues are
-- empty, and every promise has been resolved: those that were left, in the order of the queues, with
-- their own tasks' verdicts. No promise waits any more.
pub pool_drains :
    (verdict : ℕ → Bool) (burst n : ℕ) (p : VeriPool)
    → Reach verdict new_pool p
    → p.running ≡ []
    → 0 < burst
    → burst < 2 ^ 64
    → length (pending p) ≤ n * burst
    → (q : VeriPool) × (rounds verdict n burst p ≡ ok q)
      × (q.in_queue ≡ [])
      × (q.out_queue ≡ [])
      × (q.resolved ≡ p.resolved ++ map (λ t. (t, verdict t)) (pending p))
      × ((t : ℕ) → count t q.pms ≡ 0)
pool_drains verdict burst n p reached idle lo hi few =
    let v = Reach-IsPooled reached new_pool-IsPooled in
    let (q, run, left, same, done, v') = rounds_lem verdict burst lo hi n p v few in
    let (out, in_) = nil_of_append q.out_queue q.in_queue left in
    (
      q,
      run,
      in_,
      out,
      done,
      λ t.
          let sum = rw (in_, out, same ∙ idle) at (v'.once t) in
          unfold count in ground (arith, sum),
    )

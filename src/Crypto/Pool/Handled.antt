-- ===== src/Crypto/Pool/Handled.antt =====
-- What one turn of a worker, and one of the main thread, does.
use libe2c_cpp.Prelude.{
  ℕ, zero, suc, ◌^◌, ◌<◌, ◌≡◌, refl, ◌∙◌, sym, List, [], ◌∷◌, ◌++◌, map, Bool, true, false, length,
  take, drop, leb, ◌==◌, ==-refl, ==_iff, Bool-cases, inl, inr, arith, ok,
}
use mathlib.Core.List.{append_assoc, append-nil}
use libe2c_cpp.Crypto.Pool.{VeriPool, count, remove, Reach, Step, here, next, taken, finished}
use libe2c_cpp.Crypto.Pool.Verdicts.{IsPooled, resolve_lem, take-IsPooled, finish-IsPooled}
use libe2c_cpp.Crypto.Pool.Turns.{one_less, work, work_turn, collect_turn}

one_less-suc : (n : ℕ) → suc n < 2 ^ 64 → one_less (suc n) ≡ n
one_less-suc n h = omega arith

-- What a worker's turn has done: the first tasks are handed on, in order, and another turn is wanted
-- if there were as many as a turn may take.
pub record Worked (verdict : ℕ → Bool) (burst : ℕ) (ts : List ℕ) (p : VeriPool)
    (x : Bool × VeriPool) : Type 0 where
  pub again : x.0 ≡ leb burst (length ts)
  pub in_queue : x.1.in_queue ≡ drop burst ts
  pub out_queue : x.1.out_queue ≡ p.out_queue ++ take burst ts
  pub running : x.1.running ≡ p.running
  pub pms : x.1.pms ≡ p.pms
  pub resolved : x.1.resolved ≡ p.resolved
  pub pooled : IsPooled verdict x.1

module _ {verdict : ℕ → Bool} where
  work-IsPooled :
      (t : ℕ) (ts : List ℕ) (p : VeriPool)
      → p.in_queue ≡ t ∷ ts
      → IsPooled verdict p
      → IsPooled verdict (work verdict t ts p)
  unfolding work
  work-IsPooled t ts p e v =
      let q = record p { in_queue = ts; running = t ∷ p.running } in
      let taken : IsPooled verdict q = take-IsPooled v t ts e in
      let first : remove t (t ∷ p.running) ≡ p.running = unfold remove in rw (==-refl t) refl in
      rw first at (finish-IsPooled taken t (unfold count in ground (arith, ==-refl t)))

  pub work_turn-Worked :
      (burst : ℕ) (ts : List ℕ) (p : VeriPool)
      → 0 < burst
      → burst < 2 ^ 64
      → p.in_queue ≡ ts
      → IsPooled verdict p
      → Worked verdict burst ts p (work_turn verdict burst ts p)
  work_turn-Worked zero ts p lo hi e v = absurd (omega arith)
  work_turn-Worked (suc k) [] p lo hi e v =
      unfold work_turn in
      record {
        again = ground arith;
        in_queue = e;
        out_queue = sym (append-nil _);
        running = refl;
        pms = refl;
        resolved = refl;
        pooled = v;
      }
  work_turn-Worked (suc k) (t ∷ ts) p lo hi e v =
      let q = work verdict t ts p in
      let v' : IsPooled verdict q = work-IsPooled t ts p e v in
      let less : one_less (suc k) ≡ k = one_less-suc k hi in
      elim (Bool-cases (k == 0)) [
        | inl last ↦
            let is : work_turn verdict (suc k) (t ∷ ts) p ≡ (true, q) =
              unfold work_turn in rw (less, last) refl in
            let zero_ : k ≡ 0 = (==_iff k 0).0 last in
            rw is (
              unfold work in
              record {
                again = ground arith;
                in_queue = rw zero_ refl;
                out_queue = rw zero_ refl;
                running = refl;
                pms = refl;
                resolved = refl;
                pooled = v';
              })
        | inr more ↦
            let is : work_turn verdict (suc k) (t ∷ ts) p ≡ work_turn verdict k ts q =
              unfold work_turn in rw (less, more) refl in
            let x = work_turn-Worked k ts q (ground arith) (omega arith) (unfold work in refl) v' in
            rw is (record {
              again = x.again ∙ ground arith;
              in_queue = x.in_queue;
              out_queue =
                  x.out_queue ∙ (unfold work in append_assoc p.out_queue (t ∷ []) (take k ts));
              running = x.running ∙ (unfold work in refl);
              pms = x.pms ∙ (unfold work in refl);
              resolved = x.resolved ∙ (unfold work in refl);
              pooled = x.pooled;
            })
      ]

-- What the main thread's turn has done: the first finished tasks are resolved, each with its verdict.
pub record Collected (verdict : ℕ → Bool) (burst : ℕ) (ts : List ℕ) (p : VeriPool)
    (x : Bool × VeriPool) : Type 0 where
  pub again : x.0 ≡ leb burst (length ts)
  pub in_queue : x.1.in_queue ≡ p.in_queue
  pub out_queue : x.1.out_queue ≡ drop burst ts
  pub running : x.1.running ≡ p.running
  pub resolved : x.1.resolved ≡ p.resolved ++ map (λ t. (t, verdict t)) (take burst ts)
  pub pooled : IsPooled verdict x.1

module _ {verdict : ℕ → Bool} where
  pub collect_turn-Collected :
      (burst : ℕ) (ts : List ℕ) (p : VeriPool)
      → 0 < burst
      → burst < 2 ^ 64
      → p.out_queue ≡ ts
      → IsPooled verdict p
      → (x : Bool × VeriPool) × (collect_turn burst ts p ≡ ok x) × Collected verdict burst ts p x
  collect_turn-Collected zero ts p lo hi e v = absurd (omega arith)
  collect_turn-Collected (suc k) [] p lo hi e v = (
    (false, p),
    unfold collect_turn in refl,
    record {
      again = ground arith;
      in_queue = refl;
      out_queue = e;
      running = refl;
      resolved = sym (append-nil _);
      pooled = v;
    },
  )
  collect_turn-Collected (suc k) (t ∷ ts) p lo hi e v =
      let q = record p {
        out_queue = ts;
        resolved = p.resolved ++ (t, verdict t) ∷ [];
        pms = remove t p.pms;
      } in
      let (run, v') = resolve_lem v t ts e in
      let less : one_less (suc k) ≡ k = one_less-suc k hi in
      elim (Bool-cases (k == 0)) [
        | inl last ↦
            let zero_ : k ≡ 0 = (==_iff k 0).0 last in
            (
              (true, q),
              unfold collect_turn in rw (run, less, last) refl,
              record {
                again = ground arith;
                in_queue = refl;
                out_queue = rw zero_ refl;
                running = refl;
                resolved = rw zero_ refl;
                pooled = v';
              },
            )
        | inr more ↦
            let (x, rest, c) = collect_turn-Collected k ts q (ground arith) (omega arith) refl v' in
            let is : collect_turn (suc k) (t ∷ ts) p ≡ collect_turn k ts q =
              unfold collect_turn in rw (run, less, more) refl in
            (
              x,
              is ∙ rest,
              record {
                again = c.again ∙ ground arith;
                in_queue = c.in_queue;
                out_queue = c.out_queue;
                running = c.running;
                resolved = c.resolved ∙ append_assoc p.resolved ((t, verdict t) ∷ []) _;
                pooled = c.pooled;
              },
            )
      ]

-- A worker's turn is a run of the pool's steps.
module _ {verdict : ℕ → Bool} where
  Reach-trans : {p q r : VeriPool} → Reach verdict p q → Reach verdict q r → Reach verdict p r
  Reach-trans a here = a
  Reach-trans a (next b s) = next (Reach-trans a b) s

  work-Reach :
      (t : ℕ) (ts : List ℕ) (p : VeriPool)
      → p.in_queue ≡ t ∷ ts
      → Reach verdict p (work verdict t ts p)
  unfolding work remove count
  work-Reach t ts p e =
      let q = record p { in_queue = ts; running = t ∷ p.running } in
      let done : Step verdict q (work verdict t ts p) =
        finished t (ground (arith, ==-refl t)) (rw (==-refl t) refl) in
      next (next here (taken t ts e refl)) done

  pub work_turn-Reach :
      (burst : ℕ) (ts : List ℕ) (p : VeriPool)
      → p.in_queue ≡ ts
      → Reach verdict p (work_turn verdict burst ts p).1
  unfolding work_turn
  work_turn-Reach burst [] p e = here
  work_turn-Reach burst (t ∷ ts) p e = elim (Bool-cases (one_less burst == 0)) [
    | inl last ↦ rw last (work-Reach t ts p e)
    | inr more ↦ rw more (
        Reach-trans (work-Reach t ts p e)
          (work_turn-Reach (one_less burst) ts (work verdict t ts p) (unfold work in refl)))
  ]

-- ===== src/Crypto/Pool/Verdicts.antt =====
-- Every task is resolved with its own verdict.
use libe2c_cpp.Prelude.{
  ℕ, ◌+◌, ◌-◌, ◌≤◌, ◌≡◌, refl, List, [], ◌∷◌, ◌++◌, some, Bool, false, lookup, assign,
  lookup-assign, arith, ◌==◌, ==_iff, if◌then◌else◌, ok, Bool-cases, inl, inr, All, All-append,
}
use libe2c_cpp.Crypto.Pool.{
  VeriPool, new_pool, count, remove, submit, resolve, Step, submitted, taken, finished, collected,
  Reach, here, next,
}

count-append : (t : ℕ) (xs ys : List ℕ) → count t (xs ++ ys) ≡ count t xs + count t ys
unfolding count
count-append t [] ys = omega arith
count-append t (x ∷ xs) ys = ground (arith, count-append t xs ys)

count-remove :
    (t s : ℕ) (xs : List ℕ)
    → count t (remove s xs) ≡ (if s == t then count t xs - 1 else count t xs)
unfolding count remove
count-remove t s [] = ground arith
count-remove t s (x ∷ xs) = ground (arith, count-remove t s xs)

-- Every task that has a promise is in exactly one of the three places, once; a finished one has its
-- verdict; and so has every promise that was resolved.
pub record IsPooled (verdict : ℕ → Bool) (p : VeriPool) : Type 0 where
  pub once : (t : ℕ) → count t p.in_queue + count t p.running + count t p.out_queue ≡ count t p.pms
  pub single : (t : ℕ) → count t p.pms ≤ 1
  pub judged : (t : ℕ) → 1 ≤ count t p.out_queue → lookup t p.result ≡ some (verdict t)
  pub resolved : All (λ e. e.1 ≡ verdict e.0) p.resolved

module _ {verdict : ℕ → Bool} {p : VeriPool} (v : IsPooled verdict p) (t : ℕ) where
  submit-IsPooled :
      count t p.pms ≡ 0
      → IsPooled verdict (record p { pms = t ∷ p.pms; in_queue = p.in_queue ++ t ∷ [] })
  unfolding count
  submit-IsPooled new = record {
    once = λ s. ground (arith, count-append s p.in_queue (t ∷ []), v.once s);
    single = λ s. ground (arith, v.single s, new);
    judged = v.judged;
    resolved = v.resolved;
  }

  pub take-IsPooled :
      (ts : List ℕ)
      → p.in_queue ≡ t ∷ ts
      → IsPooled verdict (record p { in_queue = ts; running = t ∷ p.running })
  unfolding count
  take-IsPooled ts e = record {
    once = λ s. let old = rw e at (v.once s) in ground (arith, old);
    single = v.single;
    judged = v.judged;
    resolved = v.resolved;
  }

  pub finish-IsPooled :
      1 ≤ count t p.running
      → IsPooled verdict (record p {
        running = remove t p.running;
        result = assign t (verdict t) p.result;
        out_queue = p.out_queue ++ t ∷ [];
      })
  unfolding count
  finish-IsPooled busy = record {
    once = λ s.
        ground
          (arith, count-append s p.out_queue (t ∷ []), count-remove s t p.running, v.once s, busy);
    single = v.single;
    judged = λ s h. ground (
      arith,
      count-append s p.out_queue (t ∷ []),
      lookup-assign t s (verdict t) p.result,
      v.judged s,
      h,
    );
    resolved = v.resolved;
  }

  pub resolve_lem :
      (ts : List ℕ)
      → p.out_queue ≡ t ∷ ts
      → (resolve t (record p { out_queue = ts })
          ≡ ok (record p {
            out_queue = ts;
            resolved = p.resolved ++ (t, verdict t) ∷ [];
            pms = remove t p.pms;
          }))
        × IsPooled verdict (record p {
          out_queue = ts;
          resolved = p.resolved ++ (t, verdict t) ∷ [];
          pms = remove t p.pms;
        })
  unfolding resolve count
  resolve_lem ts e =
      let first : 1 ≤ count t p.out_queue = rw e (ground arith) in
      let judged = v.judged t first in
      let old : (s : ℕ)
          → count s p.in_queue + count s p.running + count s (t ∷ ts) ≡ count s p.pms =
        λ s. rw e at (v.once s) in
      let known : (count t p.pms == 0) ≡ false = ground (arith, old t) in
      (
        rw (judged, known) refl,
        record {
          once = λ s. ground (arith, count-remove s t p.pms, old s);
          single = λ s. ground (arith, count-remove s t p.pms, v.single s);
          judged = λ s h. v.judged s (rw e (ground (arith, h)));
          resolved =
              All-append (λ x. x.1 ≡ verdict x.0) p.resolved ((t, verdict t) ∷ []) v.resolved
                (refl, tt);
        },
      )

submit-eq-ok :
    (t : ℕ) (p p' : VeriPool)
    → submit t p ≡ ok p'
    → (count t p.pms ≡ 0) × (p' ≡ record p { pms = t ∷ p.pms; in_queue = p.in_queue ++ t ∷ [] })
unfolding submit
submit-eq-ok t p p' e = elim (Bool-cases (count t p.pms == 0)) [
  | inl new ↦ ((==_iff (count t p.pms) 0).0 new, ground (arith, e, new))
  | inr old ↦ absurd (ground (arith, e, old))
]

module _ {verdict : ℕ → Bool} where
  Step-IsPooled : {p p' : VeriPool} → Step verdict p p' → IsPooled verdict p → IsPooled verdict p'
  Step-IsPooled {p} {p'} (submitted t e) v =
      let (new, eq) = submit-eq-ok t p p' e in rw eq (submit-IsPooled v t new)
  Step-IsPooled (taken t ts e eq) v = rw eq (take-IsPooled v t ts e)
  Step-IsPooled (finished t busy eq) v = rw eq (finish-IsPooled v t (ground (arith, busy)))
  Step-IsPooled {p} {p'} (collected t ts e run) v =
      let (ran, kept) = resolve_lem v t ts e in
      let eq : p' ≡ record p {
        out_queue = ts;
        resolved = p.resolved ++ (t, verdict t) ∷ [];
        pms = remove t p.pms;
      } =
        ground (arith, ran, run) in
      rw eq kept

  pub Reach-IsPooled :
      {p p' : VeriPool} → Reach verdict p p' → IsPooled verdict p → IsPooled verdict p'
  Reach-IsPooled here v = v
  Reach-IsPooled (next r s) v = Step-IsPooled s (Reach-IsPooled r v)

  pub new_pool-IsPooled : IsPooled verdict new_pool
  unfolding count
  new_pool-IsPooled = record {
    once = λ t. omega arith;
    single = λ t. omega arith;
    judged = λ t h. absurd (omega (arith, h));
    resolved = tt;
  }

  -- In whatever order tasks are submitted, taken, finished and collected: every promise that was
  -- resolved carries its own task's verdict, and collecting the next finished task never fails. It
  -- resolves the task's promise, with its verdict, and after it no promise waits for the task.
  pub collect_returns :
      (p : VeriPool)
      → Reach verdict new_pool p
      → All (λ e. e.1 ≡ verdict e.0) p.resolved
        × ((t : ℕ) (ts : List ℕ)
            → p.out_queue ≡ t ∷ ts
            → (p' : VeriPool) × (resolve t (record p { out_queue = ts }) ≡ ok p')
              × (p'.resolved ≡ p.resolved ++ (t, verdict t) ∷ [])
              × (count t p'.pms ≡ 0))
  collect_returns p r =
      let v = Reach-IsPooled r new_pool-IsPooled in
      (
        v.resolved,
        λ t ts e. (
          record p {
            out_queue = ts;
            resolved = p.resolved ++ (t, verdict t) ∷ [];
            pms = remove t p.pms;
          },
          (resolve_lem v t ts e).0,
          refl,
          ground (arith, count-remove t t p.pms, v.single t),
        ),
      )

-- ===== src/PaceMaker/Rotation.antt =====
-- The proposers that impeachments go through.
use libe2c_cpp.Prelude.{
  ℕ, zero, suc, ◌+◌, ◌-◌, ◌%◌, ◌^◌, ◌≤◌, ◌<◌, ◌≡◌, refl, ◌∙◌, ap, arith, ok, ltb, ltb→lt,
  Bool-cases, inl, inr, if◌then◌else◌,
}
use native.Mathlib.Nat.{mod-lt, mod-eq_of_lt, mod-add-mod, add-mod_right}
use libe2c_cpp.PaceMaker.{PaceMaker, impeach, impeach_times}

abbrev pub at : ℕ → PaceMaker
at p = record { proposer = p }

impeach_lem : (n p : ℕ) → 0 < n → n ≤ 2 ^ 16 → impeach n (at p) ≡ ok (at ((p + 1) % n))
unfolding impeach
impeach_lem n p h small =
    let e : (p + 1) % n % 2 ^ 16 ≡ (p + 1) % n = omega (arith, mod-lt (p + 1) h) in
    rw e (ground arith)

-- k impeachments move the proposer k places on, modulo the number of replicas.
pub impeach_times_lem :
    (n k p : ℕ) → 0 < n → n ≤ 2 ^ 16 → p < n → impeach_times n k (at p) ≡ ok (at ((p + k) % n))
unfolding impeach_times
impeach_times_lem n zero p h small lt =
    let here : p + 0 ≡ p = omega arith in
    let e : (p + 0) % n ≡ p = rw here (mod-eq_of_lt lt) in rw e refl
impeach_times_lem n (suc k) p h small lt =
    let step : p + 1 + k ≡ p + suc k = omega arith in
    let e : ((p + 1) % n + k) % n ≡ (p + suc k) % n =
      mod-add-mod (p + 1) n k ∙ ap (λ x. x % n) step in
    rw (impeach_lem n p h small)
      (rw (← e) (impeach_times_lem n k ((p + 1) % n) h small (mod-lt (p + 1) h)))

steps_to : (n p q : ℕ) → ℕ
steps_to n p q = if ltb q p then n + q - p else q - p

-- No leader is skipped: from any proposer every replica becomes the proposer within fewer than n
-- impeachments, and n of them come back to the first. This is for at most 2 ^ 16 replicas, as many
-- as a `ReplicaID` has values.
pub impeach_rotates :
    (n p q : ℕ)
    → n ≤ 2 ^ 16
    → p < n
    → q < n
    → ((k : ℕ) × (k < n) × (impeach_times n k (at p) ≡ ok (at q)))
      × (impeach_times n n (at p) ≡ ok (at p))
unfolding steps_to
impeach_rotates n p q small lp lq =
    let k = steps_to n p q in
    let reach : (p + k) % n ≡ q = elim (Bool-cases (ltb q p)) [
      | inl before ↦
          let less = ltb→lt q p before in
          let sum : p + (n + q - p) ≡ q + n = omega arith in
          rw (before, sum, add-mod_right) (mod-eq_of_lt lq)
      | inr after ↦
          let more : p ≤ q = ground arith in
          let sum : p + (q - p) ≡ q = omega arith in rw (after, sum) (mod-eq_of_lt lq)
    ] in
    let back : (p + n) % n ≡ p = rw add-mod_right (mod-eq_of_lt lp) in
    (
      (k, ground arith, rw (impeach_times_lem n k p (omega arith) small lp, reach) refl),
      rw (impeach_times_lem n n p (omega arith) small lp, back) refl,
    )

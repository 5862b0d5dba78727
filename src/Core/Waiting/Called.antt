-- ===== src/Core/Waiting/Called.antt =====
-- When the callbacks of Core/Waiting are called, over a run of outputs and new waiters.
use libe2c_cpp.Prelude.{
  ℕ, zero, suc, ◌≡◌, refl, List, [], ◌∷◌, ◌++◌, map, All, false, ◌==◌, ==-refl, if◌then◌else◌,
  arith, sym, ◌∙◌,
}
use mathlib.Core.List.{append-nil}
use libe2c_cpp.Core.{
  Output, broadcast_proposal, resolve_proposal, resolve_receive_proposal, consensus, decide,
  equivocation,
}
use libe2c_cpp.Core.Waiting.{
  Waiting, async_wait_proposal, async_wait_receive_proposal, on_propose_, on_receive_proposal_,
  WaitEvent, wait_proposal, wait_receive_proposal, put_out, resolve_waiting, wait_all, nobody,
}

-- The block of the first proposal that this replica makes.
abbrev pub first_proposed : List WaitEvent → List ℕ
first_proposed [] = []
first_proposed (put_out (resolve_proposal blk) ∷ es) = blk ∷ []
first_proposed (e ∷ es) = first_proposed es

-- The block of the first proposal that it receives.
abbrev pub first_received : List WaitEvent → List ℕ
first_received [] = []
first_received (put_out (resolve_receive_proposal blk) ∷ es) = blk ∷ []
first_received (e ∷ es) = first_received es

-- The event is not that this callback starts to wait.
abbrev pub IsOther : ℕ → WaitEvent → Type 0
IsOther t (wait_proposal s) = (s == t) ≡ false
IsOther t (wait_receive_proposal s) = (s == t) ≡ false
IsOther t (put_out o) = Unit {0}

-- With which blocks a callback was called.
abbrev pub calls : ℕ → List (ℕ × ℕ) → List ℕ
calls t [] = []
calls t ((s, blk) ∷ cs) = let rest = calls t cs in if s == t then blk ∷ rest else rest

abbrev times : ℕ → List ℕ → ℕ
times t [] = 0
times t (s ∷ ss) = let n = times t ss in if s == t then suc n else n

abbrev copies : ℕ → List ℕ → List ℕ
copies zero bs = []
copies (suc n) bs = bs ++ copies n bs

calls-append : (t : ℕ) (xs ys : List (ℕ × ℕ)) → calls t (xs ++ ys) ≡ calls t xs ++ calls t ys
calls-append t [] ys = refl
calls-append t ((s, blk) ∷ xs) ys = ground (arith, calls-append t xs ys)

calls-map :
    (t blk : ℕ) (ss : List ℕ) → calls t (map (λ s. (s, blk)) ss) ≡ copies (times t ss) (blk ∷ [])
calls-map t blk [] = refl
calls-map t blk (s ∷ ss) = ground (arith, calls-map t blk ss)

times-snoc :
    (t s : ℕ) (ss : List ℕ)
    → times t (ss ++ s ∷ []) ≡ (if s == t then suc (times t ss) else times t ss)
times-snoc t s [] = refl
times-snoc t s (r ∷ ss) = ground (arith, times-snoc t s ss)

copies-nil : (n : ℕ) → copies n [] ≡ []
copies-nil zero = refl
copies-nil (suc n) = copies-nil n

wait_all-append :
    (xs ys : List WaitEvent) (w : Waiting) → wait_all (xs ++ ys) w ≡ wait_all ys (wait_all xs w)
unfolding wait_all
wait_all-append [] ys w = refl
wait_all-append (wait_proposal t ∷ xs) ys w = wait_all-append xs ys (async_wait_proposal t w)
wait_all-append (wait_receive_proposal t ∷ xs) ys w =
    wait_all-append xs ys (async_wait_receive_proposal t w)
wait_all-append (put_out o ∷ xs) ys w = wait_all-append xs ys (resolve_waiting o w)

-- What one event does to the callbacks that wait, and to the calls.
module _ (t : ℕ) where
  abbrev IsAbsent : Waiting → Type 0
  IsAbsent w = (times t w.propose_waiting ≡ 0) × (times t w.receive_proposal_waiting ≡ 0)

  resolve-IsAbsent : (o : Output) (w : Waiting) → IsAbsent w → IsAbsent (resolve_waiting o w)
  unfolding resolve_waiting on_propose_ on_receive_proposal_
  resolve-IsAbsent (broadcast_proposal r) w a = a
  resolve-IsAbsent (resolve_proposal r) w (p, q) = (refl, q)
  resolve-IsAbsent (resolve_receive_proposal r) w (p, q) = (p, refl)
  resolve-IsAbsent (consensus r) w a = a
  resolve-IsAbsent (decide fin) w a = a
  resolve-IsAbsent (equivocation ht) w a = a

  wait_all-IsAbsent :
      (es : List WaitEvent) (w : Waiting)
      → All (IsOther t) es
      → IsAbsent w
      → IsAbsent (wait_all es w)
  unfolding wait_all async_wait_proposal async_wait_receive_proposal
  wait_all-IsAbsent [] w h a = a
  wait_all-IsAbsent (wait_proposal s ∷ es) w (h, hs) (p, q) =
      wait_all-IsAbsent es (async_wait_proposal s w) hs
        (rw (times-snoc t s w.propose_waiting, h) p, q)
  wait_all-IsAbsent (wait_receive_proposal s ∷ es) w (h, hs) (p, q) =
      wait_all-IsAbsent es (async_wait_receive_proposal s w) hs
        (p, rw (times-snoc t s w.receive_proposal_waiting, h) q)
  wait_all-IsAbsent (put_out o ∷ es) w (h, hs) a =
      wait_all-IsAbsent es (resolve_waiting o w) hs (resolve-IsAbsent o w a)

  called_with :
      (ss : List ℕ) (blk : ℕ) (cs : List (ℕ × ℕ))
      → calls t (cs ++ map (λ s. (s, blk)) ss) ≡ calls t cs ++ copies (times t ss) (blk ∷ [])
  called_with ss blk cs = rw (calls-append t cs (map (λ s. (s, blk)) ss), calls-map t blk ss) refl

  called_proposed :
      (es : List WaitEvent) (w : Waiting)
      → All (IsOther t) es
      → times t w.receive_proposal_waiting ≡ 0
      → calls t (wait_all es w).called
        ≡ calls t w.called ++ copies (times t w.propose_waiting) (first_proposed es)
  unfolding wait_all async_wait_proposal async_wait_receive_proposal resolve_waiting on_propose_
      on_receive_proposal_
  called_proposed [] w h q = rw (copies-nil (times t w.propose_waiting)) (sym (append-nil _))
  called_proposed (wait_proposal s ∷ es) w (h, hs) q =
      let same = rw h at (times-snoc t s w.propose_waiting) in
      called_proposed es (async_wait_proposal s w) hs q ∙ rw same refl
  called_proposed (wait_receive_proposal s ∷ es) w (h, hs) q =
      let same = rw h at (times-snoc t s w.receive_proposal_waiting) in
      called_proposed es (async_wait_receive_proposal s w) hs (same ∙ q)
  called_proposed (put_out (broadcast_proposal r) ∷ es) w (h, hs) q = called_proposed es w hs q
  called_proposed (put_out (resolve_proposal r) ∷ es) w (h, hs) q =
      called_proposed es (on_propose_ r w) hs q
      ∙ append-nil _
      ∙ called_with w.propose_waiting r w.called
  called_proposed (put_out (resolve_receive_proposal r) ∷ es) w (h, hs) q =
      let none_ = called_with w.receive_proposal_waiting r w.called in
      let same = rw (q, append-nil (calls t w.called)) at none_ in
      called_proposed es (on_receive_proposal_ r w) hs refl ∙ rw same refl
  called_proposed (put_out (consensus r) ∷ es) w (h, hs) q = called_proposed es w hs q
  called_proposed (put_out (decide fin) ∷ es) w (h, hs) q = called_proposed es w hs q
  called_proposed (put_out (equivocation ht) ∷ es) w (h, hs) q = called_proposed es w hs q

  called_received :
      (es : List WaitEvent) (w : Waiting)
      → All (IsOther t) es
      → times t w.propose_waiting ≡ 0
      → calls t (wait_all es w).called
        ≡ calls t w.called ++ copies (times t w.receive_proposal_waiting) (first_received es)
  unfolding wait_all async_wait_proposal async_wait_receive_proposal resolve_waiting on_propose_
      on_receive_proposal_
  called_received [] w h q =
      rw (copies-nil (times t w.receive_proposal_waiting)) (sym (append-nil _))
  called_received (wait_receive_proposal s ∷ es) w (h, hs) q =
      let same = rw h at (times-snoc t s w.receive_proposal_waiting) in
      called_received es (async_wait_receive_proposal s w) hs q ∙ rw same refl
  called_received (wait_proposal s ∷ es) w (h, hs) q =
      let same = rw h at (times-snoc t s w.propose_waiting) in
      called_received es (async_wait_proposal s w) hs (same ∙ q)
  called_received (put_out (broadcast_proposal r) ∷ es) w (h, hs) q = called_received es w hs q
  called_received (put_out (resolve_receive_proposal r) ∷ es) w (h, hs) q =
      called_received es (on_receive_proposal_ r w) hs q
      ∙ append-nil _
      ∙ called_with w.receive_proposal_waiting r w.called
  called_received (put_out (resolve_proposal r) ∷ es) w (h, hs) q =
      let none_ = called_with w.propose_waiting r w.called in
      let same = rw (q, append-nil (calls t w.called)) at none_ in
      called_received es (on_propose_ r w) hs refl ∙ rw same refl
  called_received (put_out (consensus r) ∷ es) w (h, hs) q = called_received es w hs q
  called_received (put_out (decide fin) ∷ es) w (h, hs) q = called_received es w hs q
  called_received (put_out (equivocation ht) ∷ es) w (h, hs) q = called_received es w hs q

-- Somebody starts to wait for a proposal at one point of a run, and at no other point of it. If it
-- waits for a proposal that this replica makes, its callback is called once, with the first block
-- that is proposed afterwards, and not at all if there is none; if it waits for a proposal that is
-- received, likewise with the first block that is received afterwards. Proposals of the other kind,
-- proposals before, and the other outputs and callbacks do not matter.
pub called_once :
    (t : ℕ) (before after : List WaitEvent)
    → All (IsOther t) before
    → All (IsOther t) after
    → (calls t (wait_all (before ++ wait_proposal t ∷ after) nobody).called ≡ first_proposed after)
      × (calls t (wait_all (before ++ wait_receive_proposal t ∷ after) nobody).called
          ≡ first_received after)
unfolding wait_all async_wait_proposal async_wait_receive_proposal
called_once t before after hb ha =
    let w = wait_all before nobody in
    let (p, q) = wait_all-IsAbsent t before nobody hb (refl, refl) in
    let quiet : calls t w.called ≡ [] = called_proposed t before nobody hb refl in
    let one = times-snoc t t w.propose_waiting in
    let one' = times-snoc t t w.receive_proposal_waiting in
    (
      rw (wait_all-append before (wait_proposal t ∷ after) nobody) (
          called_proposed t after (async_wait_proposal t w) ha q
          ∙ rw (quiet, one, ==-refl t, p) (append-nil (first_proposed after))),
      rw (wait_all-append before (wait_receive_proposal t ∷ after) nobody) (
          called_received t after (async_wait_receive_proposal t w) ha p
          ∙ rw (quiet, one', ==-refl t, q) (append-nil (first_received after))),
    )

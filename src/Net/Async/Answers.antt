-- ===== src/Net/Async/Answers.antt =====
-- From the timer of a block to the replies for its commands.
use libe2c_cpp.Prelude.{
  ℕ, ◌+◌, ◌<◌, ◌≡◌, ◌≢◌, refl, ◌∙◌, sym, ap, List, [], ◌∷◌, ◌++◌, none, some, false, arith, Result,
  ok, lookup, length, length-append, get_elem?, ◌==◌,
}
use mathlib.Core.List.{append_assoc}
use libe2c_cpp.Wire.{Salticidae}
use libe2c_cpp.Crypto.{Secp256k1, PartCert}
use libe2c_cpp.Entity.{Block, Timer}
use libe2c_cpp.Core.{Output, consensus}
use libe2c_cpp.Core.Commit.{commit_blk, commit_timer_cb, decisions}
use libe2c_cpp.Core.Commit.Rounds.{commit_blk_self}
use libe2c_cpp.Core.History.{Holds}
use libe2c_cpp.Core.Invariant.{IsValid}
use libe2c_cpp.Core.System.{expire_returns}
use libe2c_cpp.Net.{reply}
use libe2c_cpp.Net.Commands.{do_consensus, handle, handle_all}
use libe2c_cpp.Net.Commands.Decided.{IsSent, answer, answered}
use libe2c_cpp.Net.Async.{Async, with_core}
use libe2c_cpp.Net.Async.Events.{Event, commit_timeout, core_output, pass_output, fire, step, run}
use libe2c_cpp.Net.Async.Frame

-- The events that hand over the next outputs.
abbrev pub for_each : List Output → List Event
for_each [] = []
for_each (o ∷ os) = core_output ∷ for_each os

get_elem?-append_at :
    (os : List Output) (o : Output) (rest : List Output)
    → get_elem? (os ++ o ∷ rest) (length os) ≡ some o
get_elem?-append_at [] o rest = refl
get_elem?-append_at (p ∷ os) o rest = get_elem?-append_at os o rest

module _ (w : Salticidae) (l : Secp256k1) (create_part_cert : ℕ → Result PartCert) where
  for_each_passed :
      (os before : List Output) (a : Async)
      → a.base.core.outputs ≡ before ++ os
      → a.n_passed ≡ length before
      → (a' : Async) × (run w l create_part_cert (for_each os) a ≡ ok a')
        × (a'.base ≡ handle_all os a.base)
        × (a'.base.core ≡ a.base.core)
        × (a'.n_passed ≡ length a.base.core.outputs)
  unfolding run step handle_all pass_output
  for_each_passed [] before a out n =
      (a, refl, refl, refl, rw out (n ∙ omega (arith, length-append before [])))
  for_each_passed (o ∷ os) before a out n =
      let at : get_elem? a.base.core.outputs a.n_passed ≡ some o =
        rw (out, n) (get_elem?-append_at before o os) in
      let same = Frame.pass_output_core (some o) a in
      let a₁ = pass_output (some o) a in
      let out₁ : a₁.base.core.outputs ≡ (before ++ o ∷ []) ++ os =
        ap (λ c. c.outputs) same ∙ (out ∙ sym (append_assoc before (o ∷ []) os)) in
      let n₁ : a₁.n_passed ≡ length (before ++ o ∷ []) =
        omega (arith, n, length-append before (o ∷ [])) in
      let (a₂, ran, base, core, passed) = for_each_passed os (before ++ o ∷ []) a₁ out₁ n₁ in
      (a₂, rw at ran, base, core ∙ same, passed ∙ ap (λ c. length c.outputs) same)

  -- The commit timer of a block expires, and the replica hands over what its core puts out: neither
  -- fails, and then the block is decided. Every command of the block that a callback waited for has
  -- been answered: a reply with the decision 1, the place of the command in the block, where it stands
  -- first, and the block's height and hash went to its callback, and no callback waits for it any
  -- more. The core is well-formed before, the block was not decided, and all earlier outputs had been
  -- handed over.
  pub commit_answers :
      (a : Async) (r : ℕ) (b : Block) (t : Timer)
      → IsValid a.base.core
      → a.n_passed ≡ length a.base.core.outputs
      → Holds a.base.core r b
      → b.commit_timer ≡ some t
      → b.decision ≢ 1
      → (a' : Async) × (run w l create_part_cert
            (commit_timeout r ∷ for_each (consensus r ∷ decisions a.base.core.id b 0 b.cmds))
            a
          ≡ ok a')
        × Holds a'.base.core r (record b { commit_timer = none; decision = 1 })
        × ((i h cb : ℕ)
            → get_elem? b.cmds i ≡ some h
            → ((j : ℕ) → j < i → get_elem? b.cmds j ≢ some h)
            → lookup h a.base.decision_waiting ≡ some cb
            → IsSent (reply (answer a.base.core.id b i h) cb) a'.base
              × (lookup h a'.base.decision_waiting ≡ none))
  unfolding step run fire commit_blk handle_all handle do_consensus
  commit_answers a r b t v n at armed open_ =
      let c = commit_blk r b a.base.core in
      let os = consensus r ∷ decisions a.base.core.id b 0 b.cmds in
      let not_yet : (b.decision == 1) ≡ false = ground arith in
      let fired : commit_timer_cb t.for_height a.base.core ≡ ok c =
        rw not_yet at (expire_returns a.base.core r b t v at armed) in
      let (a', ran, base, core, passed) =
        for_each_passed os a.base.core.outputs (with_core c a) refl n in
      let now = commit_blk_self t.for_height r b a.base.core (v.armed r b t at armed) at in
      (
        a',
        rw (at, armed, fired) ran,
        rw core now,
        λ i h cb place first waits.
            let from_first : i ≡ 0 + i = omega arith in
            rw (base, from_first) (answered a.base.core.id b b.cmds 0 i h cb _ place first waits),
      )

-- ===== src/Net/Commands/Answers.antt =====
-- What a client is told about its command.
use libe2c_cpp.Prelude.{
  ℕ, ◌≡◌, refl, ◌≢◌, [], ◌∷◌, ◌++◌, none, some, lookup, erase, lookup-erase, arith,
}
use libe2c_cpp.Core.{Finality}
use libe2c_cpp.Net.{Base, reply, execute}
use libe2c_cpp.Net.Commands.{answer_at, do_decide}

-- A decided command is executed, whoever waits for it. If a callback waits for its hash, it is
-- called with the decision, and after that no callback waits for this hash, so that deciding the
-- same command once more executes it once more but answers nobody; callbacks that wait for other
-- commands still wait. If none waits, nobody is answered and the table is as it was.
pub do_decide_lem :
    (fin : Finality) (h : ℕ) (b : Base)
    → fin.cmd_hash ≡ h
    → ((cb : ℕ)
        → lookup h b.decision_waiting ≡ some cb
        → ((do_decide fin b).sent ≡ (b.sent ++ execute fin ∷ []) ++ reply fin cb ∷ [])
          × (lookup h (do_decide fin b).decision_waiting ≡ none)
          × ((k : ℕ)
              → k ≢ h
              → lookup k (do_decide fin b).decision_waiting ≡ lookup k b.decision_waiting)
          × ((do_decide fin (do_decide fin b)).sent ≡ (do_decide fin b).sent ++ execute fin ∷ []))
      × (lookup h b.decision_waiting ≡ none
          → ((do_decide fin b).sent ≡ b.sent ++ execute fin ∷ [])
            × ((do_decide fin b).decision_waiting ≡ b.decision_waiting))
unfolding do_decide answer_at
do_decide_lem fin h b eq = (
  λ cb l.
      let gone : lookup h (erase h b.decision_waiting) ≡ none =
        rw (lookup-erase h h b.decision_waiting) (ground arith) in
      (
        rw (eq, l) refl,
        rw (eq, l) gone,
        λ k ne. rw (eq, l, lookup-erase h k b.decision_waiting) (ground arith),
        rw (eq, l, gone) refl,
      ),
  λ l. (rw (eq, l) refl, rw (eq, l) refl),
)

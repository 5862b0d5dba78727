-- ===== src/Tests/Waiting.antt =====
-- One more callback waits before a proposal, and three outputs follow.
use libe2c_cpp.Prelude.{◌≡◌, refl, List, [], ◌∷◌, ◌++◌}
use libe2c_cpp.Core.{resolve_proposal, resolve_receive_proposal}
use libe2c_cpp.Core.Waiting.{
  WaitEvent, wait_proposal, wait_receive_proposal, put_out, wait_all, nobody,
}
use libe2c_cpp.Core.Waiting.Called.{calls, called_once}

abbrev before : List WaitEvent
before = wait_proposal 8 ∷ put_out (resolve_proposal 1) ∷ []

abbrev after : List WaitEvent
after =
    put_out (resolve_receive_proposal 2)
    ∷ wait_proposal 8
    ∷ put_out (resolve_proposal 3)
    ∷ put_out (resolve_proposal 4)
    ∷ []

called_once_example :
    (calls 7 (wait_all (before ++ wait_proposal 7 ∷ after) nobody).called ≡ 3 ∷ [])
    × (calls 7 (wait_all (before ++ wait_receive_proposal 7 ∷ after) nobody).called ≡ 2 ∷ [])
called_once_example = called_once 7 before after (refl, (tt, tt)) (tt, (refl, (tt, (tt, tt))))

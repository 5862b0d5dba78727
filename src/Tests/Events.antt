-- ===== src/Tests/Events.antt =====
-- What the runs of Tests/Runs witness.
use libe2c_cpp.Prelude.{
  arith, none, get_elem?, ◌<◌, ◌≢◌, some, true, ◌≡◌, refl, ok, ℕ, List, [], ◌∷◌, ◌++◌,
}
use libe2c_cpp.Net.Async.{Async}
use libe2c_cpp.Net.Async.Events.{core_output, run}
use libe2c_cpp.Prelude.{lookup}
use libe2c_cpp.Wire.{put_hashes, read_hashes}
use libe2c_cpp.Crypto.{check_msg_length, verify_sig, verify_cert, read_sig, parse_part_cert}
use libe2c_cpp.Entity.Config.{get_info, get_pubkey}
use libe2c_cpp.Entity.Codec.{serialize, read_extra, unserialize, verify, read_proposal}
use libe2c_cpp.Core.Commit.{decisions}
use libe2c_cpp.PaceMaker.{get_proposer}
use libe2c_cpp.Core.History.{Holds}
use libe2c_cpp.Core.{broadcast_proposal, resolve_receive_proposal}
use libe2c_cpp.Net.{reply}
use libe2c_cpp.Net.Commands.Decided.{answer}
use libe2c_cpp.Core.System.{Reach}
use libe2c_cpp.Core.Invariant.{IsValid}
use libe2c_cpp.Net.Commands.Decided.{IsSent}
use libe2c_cpp.Net.Async.Runs.{run-Reach}
use libe2c_cpp.Net.Async.Safety.{run-IsValid, run_decides_once}
use libe2c_cpp.Net.Async.Answers.{commit_answers}
use libe2c_cpp.Net.Async.Expected.{IsExpected, proposal_accepted}
use libe2c_cpp.Tests.World.{stream, curve}
use libe2c_cpp.Tests.Runs.{
  replicas, begun, proposal, make, start_events, accepted, committed, arriving, decided_blk,
  armed_blk, config, genesis, asked, before, after, later, last, ran, ran_asked, ran_before,
  ran_later,
}

run-Reach_example : Reach stream make begun.base.core after.base.core
run-Reach_example =
    run-Reach stream curve make
      (start_events ++ (accepted ++ (core_output ∷ core_output ∷ committed))) begun after ran

run_decides_once_example : Path ℕ 1 1
run_decides_once_example =
    run_decides_once stream curve make 1 5 3 1 2 (record { proposer = 0 }) replicas
      (start_events ++ (accepted ++ (core_output ∷ core_output ∷ committed))) ran later last 1 1
      decided_blk decided_blk ran_later refl refl refl refl refl

before-IsValid : IsValid before.base.core
before-IsValid =
    run-IsValid stream curve make 1 5 3 1 2 (record { proposer = 0 }) replicas
      (start_events ++ (accepted ++ core_output ∷ core_output ∷ [])) ran_before

commit_answers_example :
    (a' : Async) × (run stream curve make committed before ≡ ok a')
    × Holds a'.base.core 1 decided_blk
    × ((i h cb : ℕ)
        → get_elem? (31 ∷ 32 ∷ []) i ≡ some h
        → ((j : ℕ) → j < i → get_elem? (31 ∷ 32 ∷ []) j ≢ some h)
        → lookup h before.base.decision_waiting ≡ some cb
        → IsSent (reply (answer 1 armed_blk i h) cb) a'.base
          × (lookup h a'.base.decision_waiting ≡ none))
unfolding decisions
commit_answers_example =
    commit_answers stream curve make before 1 armed_blk (record { for_height = 1; delay = 6 })
      before-IsValid refl refl refl (λ e. cc)

read_first : (s' : List ℕ) × (read_proposal stream curve proposal ≡ ok (arriving, s'))
unfolding read_proposal unserialize read_hashes read_extra serialize parse_part_cert read_sig
    put_hashes
read_first = ([], refl)

asked-IsValid : IsValid asked.base.core
asked-IsValid =
    run-IsValid stream curve make 1 5 3 1 2 (record { proposer = 0 }) replicas start_events
      ran_asked

facts :
    (lookup 77097 asked.base.core.storage.blk_cache ≡ none)
    × (verify stream curve config arriving ≡ ok true)
    × (lookup 5 asked.base.core.storage.blk_cache ≡ some 0)
    × (lookup 1 asked.base.core.ht_blk_map ≡ none)
    × (arriving.proposer ≡ get_proposer asked.base.pmaker)
    × (lookup 77097 asked.base.blk_delivery_waiting ≡ none)
unfolding lookup verify get_pubkey get_info verify_cert verify_sig check_msg_length get_proposer
facts = (refl, refl, refl, refl, refl, refl)

proposal-IsExpected : IsExpected stream curve proposal 100 arriving 0 [] genesis asked.base
unfolding serialize put_hashes
proposal-IsExpected = record {
  peer_known = λ e. omega (arith, e);
  parsed = read_first;
  proposer = facts.4;
  high = λ e. cc;
  new = facts.0;
  idle = facts.5;
  valid = facts.1;
  parents = ((facts.2, genesis, refl, refl), tt);
  parent = refl;
}

proposal_accepted_example :
    (a' : Async) × (run stream curve make accepted asked ≡ ok a')
    × (lookup 1 a'.base.core.ht_blk_map ≡ some (some 1))
    × Holds a'.base.core 1 armed_blk
    × (a'.base.core.outputs ≡ broadcast_proposal 1 ∷ resolve_receive_proposal 1 ∷ [])
unfolding serialize
proposal_accepted_example =
    proposal_accepted stream curve make proposal 100 arriving 0 [] genesis asked proposal-IsExpected
      asked-IsValid refl refl refl facts.3

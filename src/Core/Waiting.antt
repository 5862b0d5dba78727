-- ===== src/Core/Waiting.antt =====
-- `async_wait_proposal`, `async_wait_receive_proposal`, `on_propose_` and `on_receive_proposal_` of
-- src/consensus.cpp. A promise is the list of the callbacks that wait for it, and a callback is a
-- number; the outputs of Core that resolve promises are the calls of the last two.
pub mod Called
use libe2c_cpp.Prelude.{
  ℕ, zero, suc, ◌+◌, ◌≡◌, refl, ◌≢◌, List, [], ◌∷◌, ◌++◌, map, Option, none, some, All, All-append,
  true, false, ◌==◌, ==-refl, if◌then◌else◌, arith, sym, ap, ◌∙◌,
}
use mathlib.Core.List.{append_assoc, append-nil}
use libe2c_cpp.Core.{
  Output, broadcast_proposal, resolve_proposal, resolve_receive_proposal, consensus, decide,
  equivocation,
}

-- `called` has the callbacks that were called, each with its proposal's block, oldest first.
pub record Waiting : Type 0 where
  pub propose_waiting : List ℕ
  pub receive_proposal_waiting : List ℕ
  pub called : List (ℕ × ℕ)

unfoldable pub async_wait_proposal : (callback : ℕ) → Waiting → Waiting
async_wait_proposal t w = record w { propose_waiting = w.propose_waiting ++ t ∷ [] }

unfoldable pub async_wait_receive_proposal : (callback : ℕ) → Waiting → Waiting
async_wait_receive_proposal t w = record w {
  receive_proposal_waiting = w.receive_proposal_waiting ++ t ∷ [];
}

-- The promise is replaced before the old one is resolved.
unfoldable pub on_propose_ : (blk : ℕ) → Waiting → Waiting
on_propose_ blk w = record w {
  propose_waiting = [];
  called = w.called ++ map (λ t. (t, blk)) w.propose_waiting;
}

unfoldable pub on_receive_proposal_ : (blk : ℕ) → Waiting → Waiting
on_receive_proposal_ blk w = record w {
  receive_proposal_waiting = [];
  called = w.called ++ map (λ t. (t, blk)) w.receive_proposal_waiting;
}

-- Someone starts to wait, or the core puts something out.
pub data WaitEvent : Type 0 where
  wait_proposal : (callback : ℕ) → WaitEvent
  wait_receive_proposal : (callback : ℕ) → WaitEvent
  put_out : Output → WaitEvent

unfoldable pub resolve_waiting : Output → Waiting → Waiting
unfolding on_propose_ on_receive_proposal_
resolve_waiting (resolve_proposal blk) w = on_propose_ blk w
resolve_waiting (resolve_receive_proposal blk) w = on_receive_proposal_ blk w
resolve_waiting o w = w

unfoldable pub wait_all : List WaitEvent → Waiting → Waiting
unfolding async_wait_proposal async_wait_receive_proposal resolve_waiting
wait_all [] w = w
wait_all (wait_proposal t ∷ es) w = wait_all es (async_wait_proposal t w)
wait_all (wait_receive_proposal t ∷ es) w = wait_all es (async_wait_receive_proposal t w)
wait_all (put_out o ∷ es) w = wait_all es (resolve_waiting o w)

abbrev pub nobody : Waiting
nobody = record { propose_waiting = []; receive_proposal_waiting = []; called = [] }

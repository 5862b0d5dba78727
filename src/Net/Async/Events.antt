-- ===== src/Net/Async/Events.antt =====
-- A replica as a program of events: each is one call of a handler of src/e2c.cpp, of a timer or of a
-- callback that is ready. The network, the clients and the clocks choose the next event.
use libe2c_cpp.Prelude.{
  ℕ, zero, suc, ◌+◌, List, [], ◌∷◌, Option, none, some, Bool, get_elem?, Result, ok, ◌>>=◌,
}
use libe2c_cpp.Wire.{Salticidae}
use libe2c_cpp.Crypto.{Secp256k1, PartCert}
use libe2c_cpp.Entity.{Timer}
use libe2c_cpp.Core.{Core, Output, deref}
use libe2c_cpp.Core.Commit.{commit_timer_cb}
use libe2c_cpp.PaceMaker.{impeach}
use libe2c_cpp.Net.{Base, Message}
use libe2c_cpp.Net.Commands.{exec_command, pending_handler, handle}
use libe2c_cpp.Net.Fetch.{timeout_cb}
use libe2c_cpp.Net.Handlers.{resp_blk_handler, print_stat}
use libe2c_cpp.Net.Async.{
  Async, Callback, with_base, with_core, notify, call, on_msg_propose, on_msg_req_block,
}

pub data Event : Type 0 where
  got_propose : (s : List ℕ) (peer : ℕ) → Event
  got_req_block : (hashes : List ℕ) (peer : ℕ) → Event
  got_resp_block : (s : List ℕ) → Event
  got_command : (cmd_hash callback : ℕ) → Event
  -- the event of the queue `cmd_pending`
  commands_pending : Event
  -- the timers: of a fetch, of a block, of the impeachment and of the statistics
  fetch_timeout : (blk_hash : ℕ) → Event
  commit_timeout : (blk : ℕ) → Event
  impeach_timeout : Event
  stat_timeout : (up : ℕ → Bool) → Event
  -- the next entry of what the replica and the core have put out, and a callback that is ready
  promise_resolved : Event
  core_output : Event
  callback_ready : (i : ℕ) → Event

abbrev pub remove_at {ℓ} : {A : Type ℓ} → ℕ → List A → List A
remove_at i [] = []
remove_at zero (x ∷ xs) = xs
remove_at (suc i) (x ∷ xs) = x ∷ remove_at i xs

-- The callback that `update` gives to a block's timer; without a timer it cannot fire.
unfoldable pub fire : Option Timer → Core → Result Core
unfolding commit_timer_cb
fire none c = ok c
fire (some t) c = commit_timer_cb t.for_height c

unfoldable pub notify_next : Option Message → Async → Result Async
unfolding notify
notify_next none a = ok a
notify_next (some m) a = notify m (record a { n_resolved = a.n_resolved + 1 })

unfoldable pub pass_output : Option Output → Async → Async
unfolding handle
pass_output none a = a
pass_output (some o) a = with_base (handle o a.base) (record a { n_passed = a.n_passed + 1 })

module _ (w : Salticidae) (l : Secp256k1) (create_part_cert : ℕ → Result PartCert) where
  unfoldable pub call_at : ℕ → Option Callback → Async → Result Async
  unfolding call
  call_at i none a = ok a
  call_at i (some k) a = call w l k (record a { ready = remove_at i a.ready })

  unfoldable pub step : Event → Async → Result Async
  unfolding fire notify_next pass_output call_at on_msg_propose on_msg_req_block resp_blk_handler
      exec_command pending_handler timeout_cb impeach print_stat
  step (got_propose s peer) a = on_msg_propose w l s peer a
  step (got_req_block hs peer) a = on_msg_req_block hs peer a
  step (got_resp_block s) a = do b ← resp_blk_handler w s a.base; ok (with_base b a)
  step (got_command h cb) a = ok (with_base (exec_command h cb a.base) a)
  step commands_pending a = do
    (_, b) ← pending_handler w create_part_cert a.base
    ok (with_base b a)
  step (fetch_timeout h) a = ok (with_base (timeout_cb h a.base) a)
  step (commit_timeout r) a = do
    blk ← deref a.base.core r
    c ← fire blk.commit_timer a.base.core
    ok (with_core c a)
  step impeach_timeout a = do
    p ← impeach a.base.core.config.nreplicas a.base.pmaker
    ok (with_base (record a.base { pmaker = p }) a)
  step (stat_timeout up) a = ok (with_base (print_stat up a.base) a)
  step promise_resolved a = notify_next (get_elem? a.base.sent a.n_resolved) a
  step core_output a = ok (pass_output (get_elem? a.base.core.outputs a.n_passed) a)
  step (callback_ready i) a = call_at i (get_elem? a.ready i) a

  unfoldable pub run : List Event → Async → Result Async
  unfolding step
  run [] a = ok a
  run (e ∷ es) a = do a' ← step e a; run es a'

-- The replica once `start` has returned.
abbrev pub async_base : Base → Async
async_base b = record {
  base = b;
  fetches = [];
  deliveries = [];
  ready = [];
  n_resolved = 0;
  n_passed = 0;
}

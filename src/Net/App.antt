-- ===== src/Net/App.antt =====
-- `E2CApp` of programs/application.cpp: the handler of client requests, the queue of responses and
-- the timer that impeaches a proposer without progress.
pub mod Requests
pub mod Serving
pub mod Watch
pub mod Watched
use libe2c_cpp.Prelude.{
  ℕ, ◌*◌, Option, some, List, [], ◌∷◌, ◌++◌, Bool, true, false, Result, ok, ◌>>=◌,
}
use libe2c_cpp.Wire.{Salticidae}
use libe2c_cpp.Core.{Finality}
use libe2c_cpp.Client.Messages.{read_command, put_finality}
use libe2c_cpp.PaceMaker.{impeach}
use libe2c_cpp.Net.{Base, Message, reply, execute}
use libe2c_cpp.Net.Commands.{exec_command}

-- `resp_queue` has responses with the client's address, `responses` the bytes that were sent. A timer
-- that is set has its delay.
pub record App : Type 0 where
  pub base : Base
  pub resp_queue : List (Finality × ℕ)
  pub responses : List (List ℕ × ℕ)
  pub impeach_timer : Option ℕ

unfoldable pub reset_imp_timer : App → App
reset_imp_timer a = record a { impeach_timer = some (2 * a.base.core.delta) }

unfoldable pub state_machine_execute : Finality → App → App
unfolding reset_imp_timer
state_machine_execute fin a = reset_imp_timer a

-- The callback that a command is submitted with.
unfoldable pub enqueue_response : Finality → (addr : ℕ) → App → App
enqueue_response fin addr a = record a { resp_queue = a.resp_queue ++ (fin, addr) ∷ [] }

-- The base's messages that are calls of the application.
unfoldable pub receive_message : Message → App → App
unfolding state_machine_execute enqueue_response
receive_message (reply fin addr) a = enqueue_response fin addr a
receive_message (execute fin) a = state_machine_execute fin a
receive_message m a = a

-- The callback of `impeach_timer`.
unfoldable pub impeach_timer_cb : App → Result App
unfolding reset_imp_timer impeach
impeach_timer_cb a = do
  p ← impeach a.base.core.config.nreplicas a.base.pmaker
  ok (reset_imp_timer (record a { base = record a.base { pmaker = p } }))

module _ (w : Salticidae) where
  unfoldable pub client_request_cmd_handler : (msg : List ℕ) (addr : ℕ) → App → Result App
  unfolding read_command exec_command
  client_request_cmd_handler msg addr a = do
    (cmd, s) ← read_command w msg
    ok (record a { base = exec_command cmd.hash addr a.base })

  -- The handler of `resp_queue`.
  unfoldable pub send_responses : List (Finality × ℕ) → App → App
  unfolding put_finality
  send_responses [] a = record a { resp_queue = [] }
  send_responses ((fin, addr) ∷ q) a =
      send_responses q (record a { responses = a.responses ++ (put_finality w fin, addr) ∷ [] })

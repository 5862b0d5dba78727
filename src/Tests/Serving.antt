-- ===== src/Tests/Serving.antt =====
-- The application while it serves: a first proposer that is never watched, and one that is.
use libe2c_cpp.Prelude.{ℕ, ◌*◌, ◌≡◌, refl, List, [], ◌∷◌, none, some, true, false, ok, arith}
use libe2c_cpp.Core.{Finality}
use libe2c_cpp.Net.{Base, reply, execute}
use libe2c_cpp.Net.Start.{new_base}
use libe2c_cpp.Net.App.{receive_message}
use libe2c_cpp.Net.App.Serving.{
  Serving, AppEvent, serve_app, serve, serve_all, base_call, impeach_expired, conn_changed,
  base_turn, shut_down, stop, handle_event,
}
use libe2c_cpp.Net.App.Watch.{never_watched}
use libe2c_cpp.Net.App.Watched.{watched_forever}
use libe2c_cpp.Tests.World.{stream}

abbrev three : Base
three =
    let b = new_base 0 5 3 0 2 (record { proposer = 0 }) in
    record b { core = record b.core { config = record b.core.config { nreplicas = 3 } } }

abbrev serving : Serving
serving = record {
  app = record { base = three; resp_queue = []; responses = []; impeach_timer = none };
  client_conns = [];
  traffic = [];
  stat_timer = some 10;
  req_loop = true;
  resp_loop = true;
  main_loop = true;
}

serves : serve_app 10 serving.app ≡ serving
unfolding serve_app
serves = refl

abbrev fin : Finality
fin = record { rid = 0; decision = 1; cmd_idx = 0; cmd_height = 1; cmd_hash = 31; blk_hash = 60 }

-- A reply waits for its client, a timer that is not set is asked, the base sends, and a signal ends
-- the loops, so the last event is not handled.
abbrev quiet : List AppEvent
quiet =
    conn_changed 7 true
    ∷ base_call (reply fin 201)
    ∷ impeach_expired
    ∷ base_turn (λ b. record b { sent = [] })
    ∷ shut_down
    ∷ conn_changed 7 false
    ∷ []

abbrev after_quiet : Serving
after_quiet = record serving {
  app = record serving.app { resp_queue = (fin, 201) ∷ []; base = record three { sent = [] } };
  client_conns = 7 ∷ [];
  req_loop = false;
  resp_loop = false;
  main_loop = false;
}

quiet_runs : serve_all stream 10 quiet serving ≡ ok after_quiet
unfolding serve_all serve handle_event receive_message stop
quiet_runs = refl

never_watched_example :
    (after_quiet.app.impeach_timer ≡ none) × (after_quiet.app.base.pmaker ≡ serving.app.base.pmaker)
never_watched_example =
    never_watched stream 10 quiet serving after_quiet (tt, (tt, (tt, (λ b. refl, (tt, (tt, tt))))))
      refl quiet_runs

-- The timer expires once after the command.
abbrev moved : Serving
moved = record serving {
  app = record serving.app {
    base = record three { pmaker = record { proposer = 1 } };
    impeach_timer = some (2 * three.core.delta);
  };
}

moves : serve_all stream 10 (base_call (execute fin) ∷ impeach_expired ∷ []) serving ≡ ok moved
unfolding serve_all serve handle_event receive_message new_base
moves = refl

watched_forever_example :
    ((d : ℕ) × (moved.app.impeach_timer ≡ some d))
    × ((s : Serving) × (serve stream 10 impeach_expired moved ≡ ok s)
        × (s.app.base.pmaker.proposer ≡ 2)
        × (s.app.impeach_timer ≡ some (2 * s.app.base.core.delta)))
watched_forever_example =
    watched_forever stream 10 fin (impeach_expired ∷ []) serving moved refl (tt, tt) moves
      (omega arith)

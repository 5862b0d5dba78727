-- ===== src/Net/App/Serving.antt =====
-- The application while its loops run: its connections, timers and threads, and the order of its
-- calls.
-- The counters of a connection are salticidae's.
use libe2c_cpp.Prelude.{
  ℕ, ◌+◌, ◌∷◌, [], List, Option, none, some, Bool, true, false, Assoc, lookup, assign,
  if◌then◌else◌, Result, ok, ◌>>=◌,
}
use libe2c_cpp.Wire.{Salticidae}
use libe2c_cpp.Core.{set_insert, set_erase}
use libe2c_cpp.Net.{Base, Message}
use libe2c_cpp.Net.App.{
  App, receive_message, impeach_timer_cb, client_request_cmd_handler, send_responses,
}

-- Messages and bytes that were sent and received on a connection.
pub record Traffic : Type 0 where
  pub nsent : ℕ
  pub nrecv : ℕ
  pub nsentb : ℕ
  pub nrecvb : ℕ

abbrev pub no_traffic : Traffic
no_traffic = record { nsent = 0; nrecv = 0; nsentb = 0; nrecvb = 0 }

pub record Serving : Type 0 where
  pub app : App
  pub client_conns : List ℕ
  pub traffic : Assoc Traffic
  pub stat_timer : Option ℕ
  -- whether `req_thread`, `resp_thread` and the main loop run
  pub req_loop : Bool
  pub resp_loop : Bool
  pub main_loop : Bool

-- `E2CApp::start` around `E2C::start`. The impeachment timer is made, and not set.
unfoldable pub serve_app : (stat_period : ℕ) → App → Serving
serve_app stat_period a = record {
  app = a;
  client_conns = [];
  traffic = [];
  stat_timer = some stat_period;
  req_loop = true;
  resp_loop = true;
  main_loop = true;
}

-- The handler of connections
unfoldable pub client_conn_handler : (conn : ℕ) (connected : Bool) → Serving → Serving
unfolding set_insert set_erase
client_conn_handler conn true s = record s { client_conns = set_insert conn s.client_conns }
client_conn_handler conn false s = record s { client_conns = set_erase conn s.client_conns }

abbrev pub traffic_of : Option Traffic → Traffic
traffic_of none = no_traffic
traffic_of (some t) = t

-- `E2CApp::print_stat`: the sums of messages, and the counters cleared.
unfoldable pub print_conns : List ℕ → (nsent nrecv : ℕ) → Assoc Traffic → ℕ × ℕ × Assoc Traffic
unfolding lookup assign
print_conns [] ns nr m = (ns, nr, m)
print_conns (conn ∷ conns) ns nr m =
    let t = traffic_of (lookup conn m) in
    print_conns conns (ns + t.nsent) (nr + t.nrecv) (assign conn no_traffic m)

unfoldable pub print_app_stat : Serving → Serving
unfolding print_conns
print_app_stat s = record s { traffic = (print_conns s.client_conns 0 0 s.traffic).2 }

-- The callback of `ev_stat_timer`
unfoldable pub stat_timer_cb : (stat_period : ℕ) → Serving → Serving
unfolding print_app_stat
stat_timer_cb stat_period s = record (print_app_stat s) { stat_timer = some stat_period }

-- `E2CApp::stop`
unfoldable pub stop : Serving → Serving
stop s = record s {
  app = record s.app { impeach_timer = none };
  req_loop = false;
  resp_loop = false;
  main_loop = false;
}

-- What happens next: a client's request, a call from the base, the queue of responses, a timer, a
-- connection, a signal; or the base does something of its own.
pub data AppEvent : Type 0 where
  request : (msg : List ℕ) (addr : ℕ) → AppEvent
  base_call : Message → AppEvent
  respond : AppEvent
  impeach_expired : AppEvent
  stat_expired : AppEvent
  conn_changed : (conn : ℕ) (connected : Bool) → AppEvent
  base_turn : (Base → Base) → AppEvent
  -- SIGINT or SIGTERM
  shut_down : AppEvent

abbrev pub with_app : App → Serving → Serving
with_app a s = record s { app = a }

-- A timer that is not set does not expire; one that expires is not set any more.
unfoldable pub expire_impeach : Option ℕ → App → Result App
unfolding impeach_timer_cb
expire_impeach none a = ok a
expire_impeach (some delay) a = impeach_timer_cb (record a { impeach_timer = none })

unfoldable pub handle_event : Salticidae → (stat_period : ℕ) → AppEvent → Serving → Result Serving
unfolding client_request_cmd_handler receive_message send_responses expire_impeach stat_timer_cb
    client_conn_handler stop
handle_event w period (request msg addr) s = do
  a ← client_request_cmd_handler w msg addr s.app
  ok (with_app a s)
handle_event w period (base_call m) s = ok (with_app (receive_message m s.app) s)
handle_event w period respond s = ok (with_app (send_responses w s.app.resp_queue s.app) s)
handle_event w period impeach_expired s = do
  a ← expire_impeach s.app.impeach_timer s.app
  ok (with_app a s)
handle_event w period stat_expired s = ok (stat_timer_cb period s)
handle_event w period (conn_changed conn connected) s = ok (client_conn_handler conn connected s)
handle_event w period (base_turn f) s = ok (with_app (record s.app { base = f s.app.base }) s)
handle_event w period shut_down s = ok (stop s)

-- The event loop that an event belongs to: clients are connected through `req_ec`.
abbrev pub runs : AppEvent → Serving → Bool
runs (request msg addr) s = s.req_loop
runs (conn_changed conn connected) s = s.req_loop
runs respond s = s.resp_loop
runs e s = s.main_loop

unfoldable pub serve : Salticidae → (stat_period : ℕ) → AppEvent → Serving → Result Serving
unfolding handle_event
serve w period e s = if runs e s then handle_event w period e s else ok s

unfoldable pub serve_all : Salticidae → (stat_period : ℕ) → List AppEvent → Serving → Result Serving
unfolding serve
serve_all w period [] s = ok s
serve_all w period (e ∷ es) s = do s' ← serve w period e s; serve_all w period es s'

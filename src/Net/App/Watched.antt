-- ===== src/Net/App/Watched.antt =====
-- The impeachment timer of the application after the first decided command.
use libe2c_cpp.Prelude.{
  ℕ, true, false, ◌*◌, ◌%◌, ◌^◌, ◌+◌, ◌<◌, ◌==◌, ◌≡◌, refl, sym, List, [], ◌∷◌, none, some, All,
  Bool-cases, inl, inr, ◌∙◌, arith, ok, >>=-eq-ok,
}
use libe2c_cpp.Wire.{Salticidae}
use libe2c_cpp.Core.{Finality}
use libe2c_cpp.Net.{
  Message, execute, reply, msg_propose, msg_req_block, msg_resp_block, fetched_blk, delivered_blk,
  rejected_blk, reached_consensus,
}
use libe2c_cpp.Net.App.{
  App, reset_imp_timer, state_machine_execute, receive_message, enqueue_response, impeach_timer_cb,
  client_request_cmd_handler,
}
use libe2c_cpp.PaceMaker.{impeach}
use libe2c_cpp.Net.App.Serving.{
  with_app, Serving, AppEvent, request, base_call, respond, impeach_expired, stat_expired,
  conn_changed, base_turn, shut_down, runs, handle_event, serve, serve_all, expire_impeach,
  stat_timer_cb, print_app_stat, client_conn_handler,
}
use libe2c_cpp.Net.App.Watch.{send_responses_keeps, request_keeps}

-- No signal.
abbrev pub IsRunning : AppEvent → Type 0
IsRunning shut_down = ⊥
IsRunning e = Unit {0}

abbrev IsWatched : App → Type 0
IsWatched a = (d : ℕ) × (a.impeach_timer ≡ some d)

module _ (w : Salticidae) (period : ℕ) where
  -- An expiry moves the proposer on and sets the timer again.
  impeach_timer_cb_lem :
      (a a' : App)
      → impeach_timer_cb a ≡ ok a'
      → (a'.impeach_timer ≡ some (2 * a'.base.core.delta))
        × (a'.base.pmaker.proposer
            ≡ (a.base.pmaker.proposer + 1) % a.base.core.config.nreplicas % 2 ^ 16)
  unfolding impeach_timer_cb reset_imp_timer impeach
  impeach_timer_cb_lem a a' e =
      let (p, e₁, f₁) = >>=-eq-ok (impeach a.base.core.config.nreplicas a.base.pmaker) _ e in
      (ground arith, ground arith)

  impeach_returns :
      (a : App) → 0 < a.base.core.config.nreplicas → (a' : App) × (impeach_timer_cb a ≡ ok a')
  unfolding impeach_timer_cb impeach
  impeach_returns a h =
      let n = a.base.core.config.nreplicas in
      let known : (n == 0) ≡ false = ground arith in
      let p = record a.base.pmaker { proposer = (a.base.pmaker.proposer + 1) % n % 2 ^ 16 } in
      (reset_imp_timer (record a { base = record a.base { pmaker = p } }), rw known refl)

  execute-IsWatched : (fin : Finality) (a : App) → IsWatched (receive_message (execute fin) a)
  unfolding receive_message state_machine_execute reset_imp_timer
  execute-IsWatched fin a = (2 * a.base.core.delta, refl)

  receive_message-IsWatched :
      (m : Message) (a : App) → IsWatched a → IsWatched (receive_message m a)
  unfolding receive_message state_machine_execute reset_imp_timer enqueue_response
  receive_message-IsWatched (execute fin) a on = execute-IsWatched fin a
  receive_message-IsWatched (reply fin addr) a on = on
  receive_message-IsWatched (msg_propose r ps) a on = on
  receive_message-IsWatched (msg_req_block hs p) a on = on
  receive_message-IsWatched (msg_resp_block rs p) a on = on
  receive_message-IsWatched (fetched_blk r) a on = on
  receive_message-IsWatched (delivered_blk r) a on = on
  receive_message-IsWatched (rejected_blk r) a on = on
  receive_message-IsWatched (reached_consensus r) a on = on

  handle-IsWatched :
      (e : AppEvent) (s s' : Serving)
      → IsRunning e
      → IsWatched s.app
      → handle_event w period e s ≡ ok s'
      → IsWatched s'.app × (s'.main_loop ≡ s.main_loop)
  unfolding handle_event
  handle-IsWatched (request msg addr) s s' r (d, on) run =
      let (a, e, f) = >>=-eq-ok (client_request_cmd_handler w msg addr s.app) _ run in
      let (t, p) = request_keeps w period msg addr s.app a e in ((d, ground arith), ground arith)
  handle-IsWatched (base_call m) s s' r (d, on) run =
      let (d', on') = receive_message-IsWatched m s.app (d, on) in
      ((d', ground arith), ground arith)
  handle-IsWatched respond s s' r (d, on) run =
      let (t, b) = send_responses_keeps w period s.app.resp_queue s.app in
      ((d, ground arith), ground arith)
  handle-IsWatched impeach_expired s s' r (d, on) run =
      let (a, e, f) = >>=-eq-ok (expire_impeach s.app.impeach_timer s.app) _ run in
      let e' = rw on at e in
      let fired : impeach_timer_cb (record s.app { impeach_timer = none }) ≡ ok a =
        unfold expire_impeach in e' in
      let (t, p) = impeach_timer_cb_lem (record s.app { impeach_timer = none }) a fired in
      ((2 * a.base.core.delta, ground arith), ground arith)
  handle-IsWatched stat_expired s s' r (d, on) run =
      unfold stat_timer_cb print_app_stat in ((d, ground arith), ground arith)
  handle-IsWatched (conn_changed conn true) s s' r (d, on) run =
      unfold client_conn_handler in ((d, ground arith), ground arith)
  handle-IsWatched (conn_changed conn false) s s' r (d, on) run =
      unfold client_conn_handler in ((d, ground arith), ground arith)
  handle-IsWatched (base_turn f) s s' r (d, on) run = ((d, ground arith), ground arith)
  handle-IsWatched shut_down s s' r on run = absurd r

  serve-IsWatched :
      (e : AppEvent) (s s' : Serving)
      → IsRunning e
      → IsWatched s.app
      → serve w period e s ≡ ok s'
      → IsWatched s'.app × (s'.main_loop ≡ s.main_loop)
  unfolding serve
  serve-IsWatched e s s' r on run = elim (Bool-cases (runs e s)) [
    | inl on' ↦ handle-IsWatched e s s' r on (rw on' at run)
    | inr stopped ↦ let same : s' ≡ s = ground (arith, rw stopped at run) in rw same (on, refl)
  ]

  serve_all-IsWatched :
      (es : List AppEvent) (s s' : Serving)
      → All IsRunning es
      → IsWatched s.app
      → serve_all w period es s ≡ ok s'
      → IsWatched s'.app × (s'.main_loop ≡ s.main_loop)
  unfolding serve_all
  serve_all-IsWatched [] s s' rs (d, on) run = ((d, ground arith), ground arith)
  serve_all-IsWatched (e ∷ es) s s' (r, rs) on run =
      let (m, e₁, f₁) = >>=-eq-ok (serve w period e s) _ run in
      let (on', l) = serve-IsWatched e s m r on e₁ in
      let (on'', l') = serve_all-IsWatched es m s' rs on' f₁ in (on'', l' ∙ l)

  serve_all-cons :
      (e : AppEvent) (es : List AppEvent) (s m : Serving)
      → serve w period e s ≡ ok m
      → serve_all w period (e ∷ es) s ≡ serve_all w period es m
  unfolding serve_all
  serve_all-cons e es s m run = rw run refl

  serve_execute :
      (fin : Finality) (s : Serving)
      → s.main_loop ≡ true
      → serve w period (base_call (execute fin)) s
        ≡ ok (with_app (receive_message (execute fin) s.app) s)
  unfolding serve handle_event
  serve_execute fin s loop = ground (arith, loop)

  -- The main loop runs and a command is executed; no signal shuts the program down. After any
  -- further events, with a replica configured, the impeachment timer is set, and when it expires the
  -- next replica is the proposer, modulo their number, and the timer is set again, to twice delta.
  -- So from its first decided command on the proposer is watched for ever.
  pub watched_forever :
      (fin : Finality) (es : List AppEvent) (s s' : Serving)
      → s.main_loop ≡ true
      → All IsRunning es
      → serve_all w period (base_call (execute fin) ∷ es) s ≡ ok s'
      → 0 < s'.app.base.core.config.nreplicas
      → ((d : ℕ) × (s'.app.impeach_timer ≡ some d))
        × ((s'' : Serving) × (serve w period impeach_expired s' ≡ ok s'')
            × (s''.app.base.pmaker.proposer
                ≡ (s'.app.base.pmaker.proposer + 1) % s'.app.base.core.config.nreplicas % 2 ^ 16)
            × (s''.app.impeach_timer ≡ some (2 * s''.app.base.core.delta)))
  unfolding serve handle_event
  watched_forever fin es s s' loop running run some_ =
      let m = with_app (receive_message (execute fin) s.app) s in
      let rest : serve_all w period es m ≡ ok s' =
        sym (serve_all-cons (base_call (execute fin)) es s m (serve_execute fin s loop)) ∙ run in
      let ((d, set), l) = serve_all-IsWatched es m s' running (execute-IsWatched fin s.app) rest in
      let loop' : s'.main_loop ≡ true = l ∙ loop in
      let a = record s'.app { impeach_timer = none } in
      let (a', fired) = impeach_returns a some_ in
      let (t, p) = impeach_timer_cb_lem a a' fired in
      ((d, set), (with_app a' s', unfold expire_impeach in ground (arith, loop', set, fired), p, t))

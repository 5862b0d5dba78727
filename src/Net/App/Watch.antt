-- ===== src/Net/App/Watch.antt =====
-- The impeachment timer over runs of the application without a decided command.
use libe2c_cpp.Prelude.{
  ℕ, true, false, ◌≡◌, refl, List, [], ◌∷◌, none, All, Bool-cases, inl, inr, arith, ok, >>=-eq-ok,
  ◌∙◌, ◌++◌,
}
use libe2c_cpp.Wire.{Salticidae}
use libe2c_cpp.Core.{Finality}
use libe2c_cpp.Client.Messages.{read_command, put_finality}
use libe2c_cpp.Net.Commands.{exec_command}
use libe2c_cpp.Net.{
  Base, execute, reply, msg_propose, msg_req_block, msg_resp_block, fetched_blk, delivered_blk,
  rejected_blk, reached_consensus,
}
use libe2c_cpp.Net.App.{
  App, receive_message, enqueue_response, client_request_cmd_handler, send_responses,
}
use libe2c_cpp.Net.App.Serving.{
  Serving, AppEvent, request, base_call, respond, impeach_expired, stat_expired, conn_changed,
  base_turn, stop, shut_down, runs, handle_event, serve, serve_all, expire_impeach, stat_timer_cb,
  print_app_stat, client_conn_handler,
}

-- The base executes no command, and does not touch its pacemaker.
abbrev pub IsUneventful : AppEvent → Type 0
IsUneventful (base_call (execute fin)) = ⊥
IsUneventful (base_turn f) = (b : Base) → (f b).pmaker ≡ b.pmaker
IsUneventful e = Unit {0}

module _ (w : Salticidae) (period : ℕ) where
  abbrev IsUnwatched : Serving → Serving → Type 0
  IsUnwatched s s' = (s'.app.impeach_timer ≡ none) × (s'.app.base.pmaker ≡ s.app.base.pmaker)

  pub send_responses_keeps :
      (q : List (Finality × ℕ)) (a : App)
      → ((send_responses w q a).impeach_timer ≡ a.impeach_timer)
        × ((send_responses w q a).base ≡ a.base)
  unfolding send_responses
  send_responses_keeps [] a = (refl, refl)
  send_responses_keeps ((fin, addr) ∷ q) a =
      send_responses_keeps q
        (record a { responses = a.responses ++ (put_finality w fin, addr) ∷ [] })

  pub request_keeps :
      (msg : List ℕ) (addr : ℕ) (a a' : App)
      → client_request_cmd_handler w msg addr a ≡ ok a'
      → (a'.impeach_timer ≡ a.impeach_timer) × (a'.base.pmaker ≡ a.base.pmaker)
  unfolding client_request_cmd_handler exec_command
  request_keeps msg addr a a' e =
      let (x, e₁, f₁) = >>=-eq-ok (read_command w msg) _ e in (ground arith, ground arith)

  handle-IsUnwatched :
      (e : AppEvent) (s s' : Serving)
      → IsUneventful e
      → s.app.impeach_timer ≡ none
      → handle_event w period e s ≡ ok s'
      → IsUnwatched s s'
  unfolding handle_event
  handle-IsUnwatched (request msg addr) s s' u off run =
      let (a, e, f) = >>=-eq-ok (client_request_cmd_handler w msg addr s.app) _ run in
      let (t, p) = request_keeps msg addr s.app a e in (ground arith, ground arith)
  handle-IsUnwatched (base_call (execute fin)) s s' u off run = absurd u
  handle-IsUnwatched (base_call (reply fin addr)) s s' u off run =
      unfold receive_message enqueue_response in (ground arith, ground arith)
  handle-IsUnwatched (base_call (msg_propose r ps)) s s' u off run =
      unfold receive_message in (ground arith, ground arith)
  handle-IsUnwatched (base_call (msg_req_block hs p)) s s' u off run =
      unfold receive_message in (ground arith, ground arith)
  handle-IsUnwatched (base_call (msg_resp_block rs p)) s s' u off run =
      unfold receive_message in (ground arith, ground arith)
  handle-IsUnwatched (base_call (fetched_blk r)) s s' u off run =
      unfold receive_message in (ground arith, ground arith)
  handle-IsUnwatched (base_call (delivered_blk r)) s s' u off run =
      unfold receive_message in (ground arith, ground arith)
  handle-IsUnwatched (base_call (rejected_blk r)) s s' u off run =
      unfold receive_message in (ground arith, ground arith)
  handle-IsUnwatched (base_call (reached_consensus r)) s s' u off run =
      unfold receive_message in (ground arith, ground arith)
  handle-IsUnwatched respond s s' u off run =
      let (t, b) = send_responses_keeps s.app.resp_queue s.app in (ground arith, ground arith)
  handle-IsUnwatched impeach_expired s s' u off run =
      let (a, e, f) = >>=-eq-ok (expire_impeach s.app.impeach_timer s.app) _ run in
      let same : a ≡ s.app = unfold expire_impeach in ground (arith, rw off at e) in
      (ground arith, ground arith)
  handle-IsUnwatched stat_expired s s' u off run =
      unfold stat_timer_cb print_app_stat in (ground arith, ground arith)
  handle-IsUnwatched (conn_changed conn true) s s' u off run =
      unfold client_conn_handler in (ground arith, ground arith)
  handle-IsUnwatched (conn_changed conn false) s s' u off run =
      unfold client_conn_handler in (ground arith, ground arith)
  handle-IsUnwatched (base_turn f) s s' u off run = (ground arith, ground (arith, u s.app.base))
  handle-IsUnwatched shut_down s s' u off run = unfold stop in (ground arith, ground arith)

  serve-IsUnwatched :
      (e : AppEvent) (s s' : Serving)
      → IsUneventful e
      → s.app.impeach_timer ≡ none
      → serve w period e s ≡ ok s'
      → IsUnwatched s s'
  unfolding serve
  serve-IsUnwatched e s s' u off run = elim (Bool-cases (runs e s)) [
    | inl on ↦ handle-IsUnwatched e s s' u off (rw on at run)
    | inr stopped ↦ let same : s' ≡ s = ground (arith, rw stopped at run) in rw same (off, refl)
  ]

  -- A run of the application in which the base executes no command and leaves its pacemaker alone,
  -- whatever clients ask, however often timers expire and whether or not a signal ends it: if the
  -- impeachment timer is not set at the beginning, it is not set in the end, and the proposer is the
  -- same. So a first proposer that never gets a command decided is never impeached.
  pub never_watched :
      (es : List AppEvent) (s s' : Serving)
      → All IsUneventful es
      → s.app.impeach_timer ≡ none
      → serve_all w period es s ≡ ok s'
      → (s'.app.impeach_timer ≡ none) × (s'.app.base.pmaker ≡ s.app.base.pmaker)
  unfolding serve_all
  never_watched [] s s' u off run = (ground arith, ground arith)
  never_watched (e ∷ es) s s' u off run =
      let (m, e₁, f₁) = >>=-eq-ok (serve w period e s) _ run in
      let (off', p) = serve-IsUnwatched e s m u.0 off e₁ in
      let (off'', p') = never_watched es m s' u.1 off' f₁ in (off'', p' ∙ p)

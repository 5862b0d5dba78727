-- ===== src/Net/App/Requests.antt =====
-- A client's request and the response to it.
use libe2c_cpp.Prelude.{ℕ, ◌^◌, ◌<◌, ◌≡◌, refl, ◌∙◌, List, [], ◌∷◌, ◌++◌, map, ok}
use mathlib.Core.List.{append_assoc, append-nil}
use libe2c_cpp.Wire.{Salticidae, IsStream}
use libe2c_cpp.Core.{Finality}
use libe2c_cpp.Client.{put_command, new_command}
use libe2c_cpp.Client.Messages.{
  put_finality, read_finality, IsWireFinality, visible, read-put_command, read-put_finality,
}
use libe2c_cpp.Net.Commands.{exec_command}
use libe2c_cpp.Net.App.{App, enqueue_response, send_responses, client_request_cmd_handler}

module _ (w : Salticidae) (s : IsStream w) where
  -- The request of a client's command queues this command's hash, as the client computes it, with
  -- the client's address behind the commands that wait, and changes nothing else.
  pub client_request_lem :
      (cid n addr : ℕ) (rest : List ℕ) (a : App)
      → cid < 2 ^ 32
      → n < 2 ^ 32
      → client_request_cmd_handler w (put_command w (new_command w cid n) ++ rest) addr a
        ≡ ok (record a {
          base = record a.base {
            cmd_pending = a.base.cmd_pending ++ ((new_command w cid n).hash, addr) ∷ [];
          };
        })
  unfolding client_request_cmd_handler exec_command
  client_request_lem cid n addr rest a hc hn = rw (read-put_command w s cid n rest hc hn) refl

  send_responses_lem :
      (q : List (Finality × ℕ)) (a : App)
      → (send_responses w q a).responses ≡ a.responses ++ map (λ e. (put_finality w e.0, e.1)) q
  unfolding send_responses
  send_responses_lem [] a = rw append-nil refl
  send_responses_lem ((fin, addr) ∷ q) a =
      send_responses_lem q (record a { responses = a.responses ++ (put_finality w fin, addr) ∷ [] })
      ∙ append_assoc a.responses ((put_finality w fin, addr) ∷ [])
          (map (λ e. (put_finality w e.0, e.1)) q)

  -- A decision for a client is sent to its address behind the responses that are queued before it,
  -- and the bytes that are sent are read by the client as this decision.
  pub responses_lem :
      (fin : Finality) (addr : ℕ) (rest : List ℕ) (a : App)
      → IsWireFinality fin
      → let b = enqueue_response fin addr a in
        ((send_responses w b.resp_queue b).responses
          ≡ a.responses ++ map (λ e. (put_finality w e.0, e.1)) (a.resp_queue ++ (fin, addr) ∷ []))
        × (read_finality w (put_finality w fin ++ rest) ≡ ok (visible fin, rest))
  unfolding enqueue_response
  responses_lem fin addr rest a v =
      let b = enqueue_response fin addr a in
      (send_responses_lem b.resp_queue b, read-put_finality w s fin rest v)

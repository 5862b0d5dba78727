-- ===== src/Tests/Clients.antt =====
-- A client with two commands in flight, and the proposers of five replicas.
use libe2c_cpp.Prelude.{
  ℕ, ◌+◌, ◌*◌, ◌<◌, ◌≡◌, refl, [], ◌∷◌, none, some, true, false, ok, arith, lookup, insert, erase,
  length, err, out_of_range, ℤ,
}
use libe2c_cpp.Core.{Finality}
use libe2c_cpp.Client.{
  Client, Request, new_command, send_next, try_send, send_all, confirm, confirm_at,
  client_resp_cmd_handler,
}
use libe2c_cpp.Client.Window.{IsBounded, IsIssued, window-IsBounded, send_all_ends}
use libe2c_cpp.Client.Replies.{reply_all, replies_acknowledge}
use libe2c_cpp.Client.Messages.{IsWireFinality}
use libe2c_cpp.PaceMaker.{impeach_times}
use libe2c_cpp.PaceMaker.Rotation.{at, impeach_rotates}
use libe2c_cpp.Tests.World.{stream}

abbrev client : Client
client = record {
  cid = 3;
  cnt = 0;
  nfaulty = 2;
  max_async_num = 2;
  max_iter_num = ℤ.negsuc 0;
  conns = 0 ∷ 1 ∷ [];
  waiting = [];
  sent = [];
}

hash_of : (i : ℕ) → (new_command stream 3 i).hash ≡ 3 + 3 * (i + 3 * 7)
unfolding new_command
hash_of i = refl

client-IsIssued : IsIssued stream client
unfolding lookup
client-IsIssued = record {
  distinct = λ i j hi hj e. omega (arith, e, hash_of i, hash_of j);
  issued = λ h req l. cc;
}

send_all_ends_example : (try_send stream true (send_all stream 3 client)).0 ≡ false
send_all_ends_example = send_all_ends stream 3 client client-IsIssued (omega arith) (omega arith)

-- Both places of the window are taken, and each command has gone to both connections.
send_all_test :
    (length (send_all stream 3 client).waiting ≡ 2) × (length (send_all stream 3 client).sent ≡ 4)
unfolding send_all try_send send_next new_command insert
send_all_test = (refl, refl)

abbrev fin : Finality
fin = record { rid = 1; decision = 1; cmd_idx = 0; cmd_height = 4; cmd_hash = 66; blk_hash = 70 }

abbrev request : Request
request = record { cmd = record { cid = 3; n = 0; hash = 66 }; confirmed = 0 }

abbrev waiting : Client
waiting = record client { waiting = (66, request) ∷ [] }

waits : lookup 66 waiting.waiting ≡ some request
unfolding lookup
waits = refl

replies_acknowledge_example :
    (d e : Client) × (reply_all stream 3 (fin ∷ fin ∷ []) waiting ≡ ok d)
    × (lookup 66 d.waiting ≡ some (record request { confirmed = 2 }))
    × (d.sent ≡ [])
    × (confirm_at stream (lookup 66 d.waiting) fin d ≡ ok (true, e))
    × (lookup 66 e.waiting ≡ none)
    × (client_resp_cmd_handler stream 3 fin d ≡ ok (send_all stream 3 e))
replies_acknowledge_example =
    replies_acknowledge stream 3 66 (fin ∷ fin ∷ []) fin request waiting waits refl
      (refl, (refl, tt)) refl refl

-- The reply that acknowledges: its place in the full window is taken by the next command.
abbrev last_reply : Client
last_reply = record client {
  cnt = 2;
  waiting =
      (66, record request { confirmed = 2 })
      ∷ (69, record request { cmd = record { cid = 3; n = 1; hash = 69 } })
      ∷ [];
}

window-IsBounded_example :
    ((req : Request)
      → lookup 66 last_reply.waiting ≡ some req
      → (d : Client) × (client_resp_cmd_handler stream 3 fin last_reply ≡ ok d) × IsBounded d)
    × (lookup 66 last_reply.waiting ≡ none
        → client_resp_cmd_handler stream 3 fin last_reply ≡ err out_of_range)
    × IsBounded (send_all stream 3 last_reply)
window-IsBounded_example = window-IsBounded stream 3 fin last_reply (omega arith)

-- It acknowledges, and one command is sent to both connections.
last_reply_test :
    (d : Client) × (client_resp_cmd_handler stream 3 fin last_reply ≡ ok d)
    × (length d.waiting ≡ 2)
    × (length d.sent ≡ 2)
unfolding client_resp_cmd_handler confirm_at confirm send_all try_send send_next new_command insert
    lookup erase
last_reply_test = (_, refl, refl, refl)

fin-IsWireFinality : IsWireFinality fin
fin-IsWireFinality = record {
  rid = omega arith;
  decision = omega arith;
  cmd_idx = omega arith;
  cmd_height = omega arith;
  cmd_hash = omega arith;
  blk_hash = omega arith;
}

impeach_rotates_example :
    ((k : ℕ) × (k < 5) × (impeach_times 5 k (at 3) ≡ ok (at 1)))
    × (impeach_times 5 5 (at 3) ≡ ok (at 3))
impeach_rotates_example = impeach_rotates 5 3 1 (omega arith) (omega arith) (omega arith)

-- ===== src/Client.antt =====
-- programs/client.cpp and include/libe2c/client.h: the client that keeps a window of commands in
-- flight and waits for enough replies to each. Times and log lines are left out. The payload sizes
-- of config.h are taken to be 0, as the build does by default.
pub mod Messages
pub mod Window
pub mod Replies
use libe2c_cpp.Prelude.{
  ℕ, zero, suc, ◌+◌, ◌-◌, ◌/◌, ◌%◌, ◌^◌, List, ◌++◌, map, Option, none, some, Bool, true, false,
  not, ◌&&◌, ◌||◌, Assoc, lookup, insert, assign, erase, length, ltb, leb, if◌then◌else◌, ℤ,
  is_nonzero, count_down, Result, ok, err, out_of_range, ◌>>=◌,
}
use libe2c_cpp.Wire.{Salticidae}
use libe2c_cpp.Core.{Finality}

pub record CommandDummy : Type 0 where
  pub cid : ℕ
  pub n : ℕ
  pub hash : ℕ

pub record Request : Type 0 where
  pub cmd : CommandDummy
  pub confirmed : ℕ

-- The globals of the program. `sent` lists the messages, each with its connection.
pub record Client : Type 0 where
  pub cid : ℕ
  pub cnt : ℕ
  pub nfaulty : ℕ
  pub max_async_num : ℕ
  pub max_iter_num : ℤ
  pub conns : List ℕ
  pub waiting : Assoc Request
  pub sent : List (CommandDummy × ℕ)

-- `nfaulty = (replicas.size() - 1) / 2`, on `size_t`, into a `uint32_t`.
unfoldable pub client_nfaulty : (nreplicas : ℕ) → ℕ
client_nfaulty n = (n + 2 ^ 64 - 1) % 2 ^ 64 / 2 % 2 ^ 32

module _ (w : Salticidae) where
  unfoldable pub put_command : CommandDummy → List ℕ
  put_command cmd = w.put_u32 cmd.cid ++ w.put_u32 cmd.n

  -- `CommandDummy(cid, n)`
  unfoldable pub new_command : (cid n : ℕ) → CommandDummy
  new_command cid n = record { cid = cid; n = n; hash = w.digest (w.put_u32 cid ++ w.put_u32 n) }

  -- The body of `try_send` behind its test.
  unfoldable pub send_next : Client → Client
  unfolding new_command insert
  send_next c =
      let cmd = new_command c.cid c.cnt in
      record c {
        cnt = (c.cnt + 1) % 2 ^ 32;
        sent = c.sent ++ map (λ p. (cmd, p)) c.conns;
        waiting = insert cmd.hash (record { cmd = cmd; confirmed = 0 }) c.waiting;
        max_iter_num = count_down c.max_iter_num;
      }

  unfoldable pub try_send : (check : Bool) → Client → Bool × Client
  unfolding send_next
  try_send check c =
      if (not check || ltb (length c.waiting) c.max_async_num) && is_nonzero c.max_iter_num
      then (true, send_next c)
      else (false, c)

  -- `while (try_send());` with fuel
  unfoldable pub send_all : ℕ → Client → Client
  unfolding try_send
  send_all zero c = c
  send_all (suc fuel) c =
      let (sent, c') = try_send true c in let rest = send_all fuel c' in if sent then rest else c

  -- `client_resp_cmd_handler` at a request that is found, up to the loop. The result says whether
  -- the request was acknowledged. A reply is counted whoever sent it and whatever it decides.
  unfoldable pub confirm : Finality → Request → Client → Bool × Client
  unfolding assign erase
  confirm fin req c =
      let n = req.confirmed + 1 in
      if leb n c.nfaulty
      then (
        false,
        record c { waiting = assign fin.cmd_hash (record req { confirmed = n }) c.waiting },
      )
      else (true, record c { waiting = erase fin.cmd_hash c.waiting })

  -- A reply for a command that is not waiting: `it->second.et` is read before the test of `it`.
  unfoldable pub confirm_at : Option Request → Finality → Client → Result (Bool × Client)
  unfolding confirm
  confirm_at none fin c = err out_of_range
  confirm_at (some req) fin c = ok (confirm fin req c)

  unfoldable pub client_resp_cmd_handler : (fuel : ℕ) → Finality → Client → Result Client
  unfolding confirm_at send_all lookup
  client_resp_cmd_handler fuel fin c = do
    (acknowledged, c') ← confirm_at (lookup fin.cmd_hash c.waiting) fin c
    ok (if acknowledged then send_all fuel c' else c')

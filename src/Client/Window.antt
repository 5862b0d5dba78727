-- ===== src/Client/Window.antt =====
-- The window of commands in flight: its bound, and the end of the sending loop.
use libe2c_cpp.Prelude.{
  ℕ, zero, suc, ◌+◌, ◌%◌, ◌^◌, ◌≤◌, ◌<◌, ◌≡◌, refl, none, some, true, false, lookup, insert,
  lookup-insert, length-insert_new, length-insert-le, length-erase-le, length-assign_old, arith,
  length, ltb, ◌==◌, Bool-cases, Option-cases, inl, inr, if◌then◌else◌, ok, err, out_of_range,
}
use libe2c_cpp.Wire.{Salticidae}
use libe2c_cpp.Core.{Finality}
use libe2c_cpp.Client.{
  Client, CommandDummy, Request, new_command, send_next, try_send, send_all, confirm, confirm_at,
  client_resp_cmd_handler,
}

abbrev pub IsBounded : Client → Type 0
IsBounded c = length c.waiting ≤ c.max_async_num

-- Commands hash differently, and the waiting ones were made with counters below the next.
pub record IsIssued (w : Salticidae) (c : Client) : Type 0 where
  pub distinct :
      (i j : ℕ)
      → i < 2 ^ 32
      → j < 2 ^ 32
      → (new_command w c.cid i).hash ≡ (new_command w c.cid j).hash
      → i ≡ j
  pub issued :
      (h : ℕ) (req : Request)
      → lookup h c.waiting ≡ some req
      → (i : ℕ) × (i < c.cnt) × (h ≡ (new_command w c.cid i).hash)

module _ (w : Salticidae) where
  send_next-IsBounded :
      (c : Client) → ltb (length c.waiting) c.max_async_num ≡ true → IsBounded (send_next w c)
  unfolding send_next
  send_next-IsBounded c h =
      let cmd = new_command w c.cid c.cnt in
      ground (arith, length-insert-le cmd.hash (record { cmd = cmd; confirmed = 0 }) c.waiting)

  send_all-IsBounded : (fuel : ℕ) (c : Client) → IsBounded c → IsBounded (send_all w fuel c)
  unfolding send_all try_send
  send_all-IsBounded zero c b = b
  send_all-IsBounded (suc fuel) c b =
      ground (arith, send_next-IsBounded c, send_all-IsBounded fuel (send_next w c))

  confirm-IsBounded :
      (fin : Finality) (req : Request) (c : Client)
      → lookup fin.cmd_hash c.waiting ≡ some req
      → IsBounded c
      → IsBounded (confirm w fin req c).1
  unfolding confirm
  confirm-IsBounded fin req c l b = ground (
    arith,
    length-erase-le fin.cmd_hash c.waiting,
    length-assign_old fin.cmd_hash (record req { confirmed = req.confirmed + 1 }) req c.waiting l,
  )

  -- If the window is within `max_async_num`, then the handling of a reply to a command that is
  -- waiting returns, and the window is so afterwards, the commands that the reply makes room for
  -- included; and it is so after any run of the sending loop. A reply to a command that is not
  -- waiting is undefined behaviour, whatever the window.
  pub window-IsBounded :
      (fuel : ℕ) (fin : Finality) (c : Client)
      → IsBounded c
      → ((req : Request)
          → lookup fin.cmd_hash c.waiting ≡ some req
          → (d : Client) × (client_resp_cmd_handler w fuel fin c ≡ ok d) × IsBounded d)
        × (lookup fin.cmd_hash c.waiting ≡ none
            → client_resp_cmd_handler w fuel fin c ≡ err out_of_range)
        × IsBounded (send_all w fuel c)
  unfolding client_resp_cmd_handler confirm_at
  window-IsBounded fuel fin c b = (
    λ req l.
        let x = confirm w fin req c in
        let kept = confirm-IsBounded fin req c l b in
        (
          if x.0 then send_all w fuel x.1 else x.1,
          rw l refl,
          ground (arith, kept, send_all-IsBounded fuel x.1 kept),
        ),
    λ l. rw l refl,
    send_all-IsBounded fuel c b,
  )

  fresh :
      (c : Client)
      → c.cnt < 2 ^ 32
      → IsIssued w c
      → lookup (new_command w c.cid c.cnt).hash c.waiting ≡ none
  fresh c small v = elim (Option-cases (lookup (new_command w c.cid c.cnt).hash c.waiting)) [
    | inl none_ ↦ none_
    | inr (req, l) ↦
        let (i, lt, e) = v.issued (new_command w c.cid c.cnt).hash req l in
        let same : c.cnt ≡ i = v.distinct c.cnt i small (omega arith) e in absurd (omega arith)
  ]

  send_next-IsIssued : (c : Client) → c.cnt + 1 < 2 ^ 32 → IsIssued w c → IsIssued w (send_next w c)
  unfolding send_next
  send_next-IsIssued c small v = record { distinct = v.distinct; issued = at }
    where
      cmd : CommandDummy
      cmd = new_command w c.cid c.cnt

      at :
          (h : ℕ) (req : Request)
          → lookup h (insert cmd.hash (record { cmd = cmd; confirmed = 0 }) c.waiting) ≡ some req
          → (i : ℕ) × (i < (c.cnt + 1) % 2 ^ 32) × (h ≡ (new_command w c.cid i).hash)
      at h req l = elim (Bool-cases (cmd.hash == h)) [
        | inl same ↦ (c.cnt, omega arith, ground arith)
        | inr other ↦
            let old : lookup h c.waiting ≡ some req = ground (
              arith,
              lookup-insert cmd.hash h (record { cmd = cmd; confirmed = 0 }) c.waiting,
              l,
              other,
            ) in
            let (i, lt, e) = v.issued h req old in (i, omega arith, e)
      ]

  length-send_next :
      (c : Client)
      → c.cnt < 2 ^ 32
      → IsIssued w c
      → length (send_next w c).waiting ≡ suc (length c.waiting)
  unfolding send_next
  length-send_next c small v =
      length-insert_new (new_command w c.cid c.cnt).hash _ c.waiting (fresh c small v)

  counters-send_next :
      (c : Client)
      → ((send_next w c).max_async_num ≡ c.max_async_num)
        × ((send_next w c).cnt ≡ (c.cnt + 1) % 2 ^ 32)
  unfolding send_next
  counters-send_next c = (refl, refl)

  try_send_go :
      (c : Client) → (try_send w true c).0 ≡ true → try_send w true c ≡ (true, send_next w c)
  unfolding try_send
  try_send_go c h = ground arith

  -- `while (try_send());` ends, by its test: if commands hash differently and the counter does not
  -- wrap, as many rounds as there are free places in the window, and one more, are enough.
  pub send_all_ends :
      (fuel : ℕ) (c : Client)
      → IsIssued w c
      → c.max_async_num < length c.waiting + fuel
      → c.cnt + fuel < 2 ^ 32
      → (try_send w true (send_all w fuel c)).0 ≡ false
  unfolding send_all
  send_all_ends zero c v room small = full
    where
      full : (try_send w true c).0 ≡ false
      full = unfold try_send in ground arith
  send_all_ends (suc fuel) c v room small = elim (Bool-cases (try_send w true c).0) [
    | inl go ↦
        let (same, next) = counters-send_next c in
        let longer = length-send_next c (omega arith) v in
        let issued = send_next-IsIssued c (omega arith) v in
        rw (try_send_go c go, send_all)
          (send_all_ends fuel (send_next w c) issued (omega arith) (omega arith))
    | inr stop ↦ rw (stop, send_all) stop
  ]

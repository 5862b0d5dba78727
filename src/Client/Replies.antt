-- ===== src/Client/Replies.antt =====
-- How many replies acknowledge a command.
use libe2c_cpp.Prelude.{
  ℕ, suc, ◌+◌, ◌≤◌, ◌<◌, ◌≡◌, refl, ap, ◌∙◌, List, [], ◌∷◌, none, some, true, lookup, assign, erase,
  lookup-assign, lookup-erase, arith, All, length, Result, ok, ◌>>=◌,
}
use libe2c_cpp.Wire.{Salticidae}
use libe2c_cpp.Core.{Finality}
use libe2c_cpp.Client.{Client, Request, send_all, confirm, confirm_at, client_resp_cmd_handler}

module _ (w : Salticidae) where
  -- Replies one after the other, as long as none of them acknowledges.
  unfoldable pub reply_all : (fuel : ℕ) → List Finality → Client → Result Client
  unfolding client_resp_cmd_handler
  reply_all fuel [] c = ok c
  reply_all fuel (fin ∷ fins) c = do
    c' ← client_resp_cmd_handler w fuel fin c
    reply_all fuel fins c'

  one_more :
      (fuel h : ℕ) (fin : Finality) (req : Request) (c : Client)
      → fin.cmd_hash ≡ h
      → lookup h c.waiting ≡ some req
      → req.confirmed < c.nfaulty
      → client_resp_cmd_handler w fuel fin c
        ≡ ok (record c {
          waiting = assign h (record req { confirmed = req.confirmed + 1 }) c.waiting;
        })
  unfolding client_resp_cmd_handler confirm_at confirm
  one_more fuel h fin req c at l lt = rw (at, l) (ground (arith, lt))

  last_one :
      (h : ℕ) (fin : Finality) (req : Request) (c : Client)
      → fin.cmd_hash ≡ h
      → lookup h c.waiting ≡ some req
      → c.nfaulty ≤ req.confirmed
      → confirm_at w (lookup h c.waiting) fin c
        ≡ ok (true, record c { waiting = erase h c.waiting })
  unfolding confirm_at confirm
  last_one h fin req c at l le = rw (at, l) (ground (arith, le))

  handled :
      (fuel : ℕ) (fin : Finality) (d e : Client)
      → confirm_at w (lookup fin.cmd_hash d.waiting) fin d ≡ ok (true, e)
      → client_resp_cmd_handler w fuel fin d ≡ ok (send_all w fuel e)
  unfolding client_resp_cmd_handler
  handled fuel fin d e full = rw full refl

  -- Up to nfaulty replies for a command leave it waiting and send nothing.
  replies_wait :
      (fuel h : ℕ) (fins : List Finality) (req : Request) (c : Client)
      → lookup h c.waiting ≡ some req
      → All (λ fin. fin.cmd_hash ≡ h) fins
      → req.confirmed + length fins ≤ c.nfaulty
      → (d : Client) × (reply_all fuel fins c ≡ ok d)
        × (lookup h d.waiting ≡ some (record req { confirmed = req.confirmed + length fins }))
        × (d.sent ≡ c.sent)
        × (d.nfaulty ≡ c.nfaulty)
  unfolding reply_all
  replies_wait fuel h [] req c l a le =
      let e : req.confirmed + 0 ≡ req.confirmed = omega arith in (c, refl, rw e l, refl, refl)
  replies_wait fuel h (fin ∷ fins) req c l a le =
      let req' = record req { confirmed = req.confirmed + 1 } in
      let c' = record c { waiting = assign h req' c.waiting } in
      let stays : lookup h c'.waiting ≡ some req' =
        ground (arith, lookup-assign h h req' c.waiting) in
      let e : req.confirmed + 1 + length fins ≡ req.confirmed + suc (length fins) = omega arith in
      let (d, run, waits, sent, same) =
        replies_wait fuel h fins req' c' stays a.1 (omega (arith, le)) in
      (d, rw (one_more fuel h fin req c a.0 l (omega (arith, le))) run, rw (← e) waits, sent, same)

  -- nfaulty replies for a command that is new in the window leave it waiting and send nothing, and
  -- the next reply acknowledges it and takes it out, and the client sends again. Only the command's
  -- hash in a reply counts: the replies may have any sender, the same one each time, and any decision.
  pub replies_acknowledge :
      (fuel h : ℕ) (fins : List Finality) (last : Finality) (req : Request) (c : Client)
      → lookup h c.waiting ≡ some req
      → req.confirmed ≡ 0
      → All (λ fin. fin.cmd_hash ≡ h) fins
      → length fins ≡ c.nfaulty
      → last.cmd_hash ≡ h
      → (d e : Client) × (reply_all fuel fins c ≡ ok d)
        × (lookup h d.waiting ≡ some (record req { confirmed = c.nfaulty }))
        × (d.sent ≡ c.sent)
        × (confirm_at w (lookup h d.waiting) last d ≡ ok (true, e))
        × (lookup h e.waiting ≡ none)
        × (client_resp_cmd_handler w fuel last d ≡ ok (send_all w fuel e))
  replies_acknowledge fuel h fins last req c l new a n at =
      let (d, run, waits, sent, same) =
        replies_wait fuel h fins req c l a (omega (arith, new, n)) in
      let req' = record req { confirmed = c.nfaulty } in
      let count : req.confirmed + length fins ≡ c.nfaulty = omega (arith, new, n) in
      let waits' : lookup h d.waiting ≡ some req' = rw count at waits in
      let full = last_one h last req' d at waits' (omega (arith, same)) in
      let e = record d { waiting = erase h d.waiting } in
      (
        d,
        e,
        run,
        waits',
        sent,
        full,
        ground (arith, lookup-erase h h d.waiting),
        handled fuel last d e (ap (λ k. confirm_at w (lookup k d.waiting) last d) at ∙ full),
      )

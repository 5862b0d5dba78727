-- ===== src/Net/Commands/Decided.antt =====
-- What a committed block answers: its decisions, handed to `do_decide` one by one.
use libe2c_cpp.Prelude.{
  ℕ, zero, suc, ◌+◌, ◌<◌, ◌≡◌, ◌≢◌, refl, ◌∙◌, List, [], ◌∷◌, ◌++◌, Option, none, some, lookup,
  lookup-erase, length, get_elem?, get_elem?-append_left, get_elem?-append_last, arith, ◌==◌,
  Option-cases, inl, inr, if◌then◌else◌,
}
use libe2c_cpp.Entity.{Block}
use libe2c_cpp.Core.{
  Finality, Output, broadcast_proposal, resolve_proposal, resolve_receive_proposal, consensus,
  decide, equivocation,
}
use libe2c_cpp.Core.Commit.{decisions}
use libe2c_cpp.Net.{Base, Message, reply, execute}
use libe2c_cpp.Net.Commands.Answers.{do_decide_lem}
use libe2c_cpp.Net.Commands.{
  answer_at, do_decide, do_consensus, do_broadcast_proposal, handle, handle_all,
}

-- The reply to command `i` of a block.
abbrev pub answer : (id : ℕ) → Block → (i cmd_hash : ℕ) → Finality
answer id blk i h = record {
  rid = id;
  decision = 1;
  cmd_idx = i;
  cmd_height = blk.height;
  cmd_hash = h;
  blk_hash = blk.hash;
}

abbrev pub IsSent : Message → Base → Type 0
IsSent m b = (k : ℕ) × (get_elem? b.sent k ≡ some m)

-- No output takes back a message, or enters a command that is not waiting.
module _ (m : Message) where
  answer_at-IsSent :
      (w : Option ℕ) (fin : Finality) (b : Base) → IsSent m b → IsSent m (answer_at w fin b)
  unfolding answer_at
  answer_at-IsSent none fin b s = s
  answer_at-IsSent (some cb) fin b (k, e) = (k, get_elem?-append_left b.sent _ k e)

  handle-IsSent : (o : Output) (b : Base) → IsSent m b → IsSent m (handle o b)
  unfolding handle do_decide do_consensus do_broadcast_proposal
  handle-IsSent (broadcast_proposal r) b (k, e) = (k, get_elem?-append_left b.sent _ k e)
  handle-IsSent (resolve_proposal r) b s = s
  handle-IsSent (resolve_receive_proposal r) b s = s
  handle-IsSent (consensus r) b (k, e) = (k, get_elem?-append_left b.sent _ k e)
  handle-IsSent (decide fin) b (k, e) =
      answer_at-IsSent _ fin _ (k, get_elem?-append_left b.sent _ k e)
  handle-IsSent (equivocation ht) b s = s

  pub handle_all-IsSent : (os : List Output) (b : Base) → IsSent m b → IsSent m (handle_all os b)
  unfolding handle_all
  handle_all-IsSent [] b s = s
  handle_all-IsSent (o ∷ os) b s = handle_all-IsSent os (handle o b) (handle-IsSent o b s)

module _ (h : ℕ) where
  answer_at_waiting :
      (fin : Finality) (b : Base)
      → lookup h (answer_at (lookup fin.cmd_hash b.decision_waiting) fin b).decision_waiting
        ≡ (if fin.cmd_hash == h then none else lookup h b.decision_waiting)
  unfolding answer_at
  answer_at_waiting fin b = elim (Option-cases (lookup fin.cmd_hash b.decision_waiting)) [
    | inl l ↦ rw l (ground (arith, l))
    | inr (cb, l) ↦ rw l (lookup-erase fin.cmd_hash h b.decision_waiting)
  ]

  handle_gone :
      (o : Output) (b : Base)
      → lookup h b.decision_waiting ≡ none
      → lookup h (handle o b).decision_waiting ≡ none
  unfolding handle do_decide do_consensus do_broadcast_proposal
  handle_gone (broadcast_proposal r) b e = e
  handle_gone (resolve_proposal r) b e = e
  handle_gone (resolve_receive_proposal r) b e = e
  handle_gone (consensus r) b e = e
  handle_gone (decide fin) b e = answer_at_waiting fin _ ∙ ground (arith, e)
  handle_gone (equivocation ht) b e = e

  handle_all_gone :
      (os : List Output) (b : Base)
      → lookup h b.decision_waiting ≡ none
      → lookup h (handle_all os b).decision_waiting ≡ none
  unfolding handle_all
  handle_all_gone [] b e = e
  handle_all_gone (o ∷ os) b e = handle_all_gone os (handle o b) (handle_gone o b e)

-- The first command with its hash is answered, whoever stands before it.
pub answered :
    (id : ℕ) (blk : Block) (cmds : List ℕ) (n i h cb : ℕ) (b : Base)
    → get_elem? cmds i ≡ some h
    → ((j : ℕ) → j < i → get_elem? cmds j ≢ some h)
    → lookup h b.decision_waiting ≡ some cb
    → IsSent (reply (answer id blk (n + i) h) cb) (handle_all (decisions id blk n cmds) b)
      × (lookup h (handle_all (decisions id blk n cmds) b).decision_waiting ≡ none)
unfolding handle_all decisions handle do_decide answer_at
answered id blk [] n i h cb b at first l = cc
answered id blk (c ∷ cs) n zero h cb b at first l =
    let same : c ≡ h = ground arith in
    let fin = answer id blk n c in
    let b₁ = do_decide fin b in
    let rest = decisions id blk (n + 1) cs in
    let gone : lookup h b₁.decision_waiting ≡ none =
      answer_at_waiting h fin _ ∙ ground (arith, same) in
    let at_n : n + 0 ≡ n = omega arith in
    let sent = ((do_decide_lem fin h b same).0 cb l).0 in
    let said : IsSent (reply fin cb) b₁ = (
      length (b.sent ++ execute fin ∷ []),
      rw sent (get_elem?-append_last (b.sent ++ execute fin ∷ []) (reply fin cb)),
    ) in
    let here : IsSent (reply (answer id blk (n + 0) h) cb) b₁ = rw (← same, at_n) said in
    (handle_all-IsSent _ rest b₁ here, handle_all_gone h rest b₁ gone)
answered id blk (c ∷ cs) n (suc i) h cb b at first l =
    let other : c ≢ h = λ e. first 0 (omega arith) (rw e refl) in
    let fin = answer id blk n c in
    let b₁ = do_decide fin b in
    let still : lookup h b₁.decision_waiting ≡ some cb =
      answer_at_waiting h fin _ ∙ ground (arith, other, l) in
    let eq : n + suc i ≡ n + 1 + i = omega arith in
    rw eq
      (answered id blk cs (n + 1) i h cb b₁ at (λ j lt. first (suc j) (omega (arith, lt))) still)

-- ===== src/Net/Async/Frame.antt =====
-- What leaves the core as it is: fetching, waiting, answering and the statistics.
use libe2c_cpp.Prelude.{
  ℕ, ◌≡◌, refl, ◌∙◌, List, [], ◌∷◌, ◌++◌, Option, none, some, Bool, true, false, lookup, assign,
  arith, ok, >>=-eq-ok,
}
use libe2c_cpp.Core.{
  Output, Finality, broadcast_proposal, resolve_proposal, resolve_receive_proposal, consensus,
  decide, equivocation, deref,
}
use libe2c_cpp.Wire.{Salticidae}
use libe2c_cpp.Entity.{Block}
use libe2c_cpp.Net.{
  Base, Message, msg_propose, msg_req_block, msg_resp_block, reply, fetched_blk, delivered_blk,
  rejected_blk, execute, reached_consensus,
}
use libe2c_cpp.Net.Commands.{
  enter, enter_at, drain, answer_at, do_decide, do_consensus, do_broadcast_proposal, handle,
}
use libe2c_cpp.Net.Fetch.{
  send_fetch, add_fetch_replica, send_fetch_all, replicas_of, timeout_cb, resolve_fetch,
  on_fetch_blk, fetch_missing, async_fetch_blk, deliver_missing, async_deliver_blk, Delivery,
  resolved, waiting, continues,
}
use libe2c_cpp.Net.Handlers.{
  fetch_each, fetch_all, answer_request, req_blk_handler, reset_replicas, print_stat,
  check_proposal, first_parent_hash,
}
use libe2c_cpp.Net.Async.{
  Async, notify, continue_with, begin_delivery, begin_deliveries, on_msg_req_block, when_fetched,
}
use libe2c_cpp.Net.Async.Events.{pass_output, notify_next}

pub add_fetch_replica_core :
    (h : ℕ) (ps : List ℕ) (p : ℕ) (now : Bool) (b : Base)
    → (add_fetch_replica h ps p now b).core ≡ b.core
unfolding add_fetch_replica send_fetch
add_fetch_replica_core h [] p now b = ground arith
add_fetch_replica_core h (q ∷ qs) p now b = refl

pub fetch_missing_core :
    (h : ℕ) (p : Option ℕ) (now : Bool) (b : Base) → (fetch_missing h p now b).core ≡ b.core
unfolding fetch_missing
fetch_missing_core h none now b = refl
fetch_missing_core h (some p) now b = add_fetch_replica_core h _ p now _

pub async_fetch_blk_core :
    (h : ℕ) (p : Option ℕ) (now : Bool) (b : Base) → (async_fetch_blk h p now b).1.core ≡ b.core
unfolding async_fetch_blk
async_fetch_blk_core h p now b = ground (arith, fetch_missing_core h p now b)

deliver_missing_core :
    (m : Option (Unit {0})) (h p : ℕ) (b : Base) → (deliver_missing m h p b).1.core ≡ b.core
unfolding deliver_missing
deliver_missing_core (some t) h p b = refl
deliver_missing_core none h p b = ground (arith, async_fetch_blk_core h (some p) true _)

pub async_deliver_blk_core : (h p : ℕ) (b : Base) → (async_deliver_blk h p b).1.core ≡ b.core
unfolding async_deliver_blk
async_deliver_blk_core h p b =
    ground (arith, deliver_missing_core (lookup h b.blk_delivery_waiting) h p b)

pub check_proposal_core :
    (w : Salticidae) (r : ℕ) (blk : Block) (peer : ℕ) (b : Base) (x : Option Delivery × Base)
    → check_proposal w r blk peer b ≡ ok x
    → x.1.core ≡ b.core
unfolding check_proposal first_parent_hash
check_proposal_core w r blk peer b x e = ground (arith, async_deliver_blk_core blk.hash peer b)

send_fetch_all_core : (h : ℕ) (ps : List ℕ) (b : Base) → (send_fetch_all h ps b).core ≡ b.core
unfolding send_fetch_all send_fetch
send_fetch_all_core h [] b = refl
send_fetch_all_core h (p ∷ ps) b = send_fetch_all_core h ps (send_fetch h p b)

pub timeout_cb_core : (h : ℕ) (b : Base) → (timeout_cb h b).core ≡ b.core
unfolding timeout_cb
timeout_cb_core h b = send_fetch_all_core h (replicas_of (lookup h b.blk_fetch_waiting)) b

resolve_fetch_core :
    (m : Option (List ℕ)) (h r : ℕ) (b : Base) → (resolve_fetch m h r b).core ≡ b.core
unfolding resolve_fetch
resolve_fetch_core none h r b = refl
resolve_fetch_core (some ps) h r b = refl

pub on_fetch_blk_core : (r : ℕ) (b b' : Base) → on_fetch_blk r b ≡ ok b' → b'.core ≡ b.core
unfolding on_fetch_blk
on_fetch_blk_core r b b' e =
    let (blk, e₁, e₂) = >>=-eq-ok (deref b.core r) _ e in
    ground (arith, e₂, resolve_fetch_core (lookup blk.hash b.blk_fetch_waiting) blk.hash r)

pub fetch_each_core :
    (w : Salticidae) (rs : List ℕ) (b b' : Base) → fetch_each w rs b ≡ ok b' → b'.core ≡ b.core
unfolding fetch_each
fetch_each_core w [] b b' e = ground arith
fetch_each_core w (r ∷ rs) b b' e =
    let (b₁, e₁, e₂) = >>=-eq-ok (on_fetch_blk r b) _ e in
    fetch_each_core w rs b₁ b' e₂ ∙ on_fetch_blk_core r b b₁ e₁

fetch_all_core : (hs : List ℕ) (b : Base) → (fetch_all hs b).1.core ≡ b.core
unfolding fetch_all
fetch_all_core [] b = refl
fetch_all_core (h ∷ hs) b = fetch_all_core hs _ ∙ async_fetch_blk_core h none true b

reset_replicas_core :
    (up : ℕ → Bool) (ps : List ℕ) (b : Base) → (reset_replicas up ps b).core ≡ b.core
unfolding reset_replicas
reset_replicas_core up [] b = refl
reset_replicas_core up (p ∷ ps) b =
    let after = record b { part_fetched_replica = assign p 0 b.part_fetched_replica } in
    ground (arith, reset_replicas_core up ps b, reset_replicas_core up ps after)

pub print_stat_core : (up : ℕ → Bool) (b : Base) → (print_stat up b).core ≡ b.core
unfolding print_stat
print_stat_core up b = reset_replicas_core up b.peers _

answer_at_core : (m : Option ℕ) (fin : Finality) (b : Base) → (answer_at m fin b).core ≡ b.core
unfolding answer_at
answer_at_core none fin b = refl
answer_at_core (some cb) fin b = refl

pub pass_output_core : (o : Option Output) (a : Async) → (pass_output o a).base.core ≡ a.base.core
unfolding pass_output handle do_decide do_consensus do_broadcast_proposal
pass_output_core none a = refl
pass_output_core (some (broadcast_proposal r)) a = refl
pass_output_core (some (resolve_proposal r)) a = refl
pass_output_core (some (resolve_receive_proposal r)) a = refl
pass_output_core (some (consensus r)) a = refl
pass_output_core (some (decide fin)) a = answer_at_core _ fin _
pass_output_core (some (equivocation ht)) a = refl

notify_core : (m : Message) (a a' : Async) → notify m a ≡ ok a' → a'.base.core ≡ a.base.core
unfolding notify
notify_core (fetched_blk r) a a' e =
    let (blk, e₁, e₂) = >>=-eq-ok (deref a.base.core r) _ e in ground arith
notify_core (delivered_blk r) a a' e =
    let (blk, e₁, e₂) = >>=-eq-ok (deref a.base.core r) _ e in ground arith
notify_core (msg_propose r ps) a a' e = ground arith
notify_core (msg_req_block hs p) a a' e = ground arith
notify_core (msg_resp_block rs p) a a' e = ground arith
notify_core (reply fin p) a a' e = ground arith
notify_core (rejected_blk r) a a' e = ground arith
notify_core (execute fin) a a' e = ground arith
notify_core (reached_consensus r) a a' e = ground arith

pub notify_next_core :
    (m : Option Message) (a a' : Async) → notify_next m a ≡ ok a' → a'.base.core ≡ a.base.core
unfolding notify_next
notify_next_core none a a' e = ground arith
notify_next_core (some m) a a' e = notify_core m _ a' e

enter_core : (h cb : ℕ) (b : Base) → (enter h cb b).core ≡ b.core
unfolding enter enter_at
enter_core h cb b = ground arith

pub drain_core : (q : List (ℕ × ℕ)) (b : Base) → (drain q b).1.core ≡ b.core
unfolding drain
drain_core [] b = refl
drain_core ((h, cb) ∷ q) b =
    let b₁ = enter h cb b in
    let b₂ = record b₁ { cmd_pending_buffer = b₁.cmd_pending_buffer ++ h ∷ [] } in
    ground (arith, enter_core h cb b, drain_core q b₁, drain_core q b₂)

pub continue_with_core :
    (begins : Bool) (h p : ℕ) (d : Delivery) (a : Async)
    → (continue_with begins h p d a).base.core ≡ a.base.core
unfolding continue_with when_fetched
continue_with_core begins h p (resolved r) a = refl
continue_with_core false h p waiting a = refl
continue_with_core true h p waiting a = refl
continue_with_core begins h p (continues r) a = refl

begin_delivery_core : (h p : ℕ) (a : Async) → (begin_delivery h p a).base.core ≡ a.base.core
unfolding begin_delivery
begin_delivery_core h p a = continue_with_core _ h p _ _ ∙ async_deliver_blk_core h p a.base

pub begin_deliveries_core :
    (hs : List ℕ) (p : ℕ) (a : Async) → (begin_deliveries hs p a).base.core ≡ a.base.core
unfolding begin_deliveries
begin_deliveries_core [] p a = refl
begin_deliveries_core (h ∷ hs) p a =
    begin_deliveries_core hs p (begin_delivery h p a) ∙ begin_delivery_core h p a

answer_request_core :
    (hs : List ℕ) (p : ℕ) (b b' : Base) → answer_request hs p b ≡ ok b' → b'.core ≡ b.core
unfolding answer_request
answer_request_core [] p b b' e = cc
answer_request_core (h ∷ hs) p b b' e = ground (arith, e, fetch_all_core (h ∷ hs) b)

pub on_msg_req_block_core :
    (hs : List ℕ) (peer : ℕ) (a a' : Async)
    → on_msg_req_block hs peer a ≡ ok a'
    → a'.base.core ≡ a.base.core
unfolding on_msg_req_block req_blk_handler
on_msg_req_block_core hs peer a a' e =
    let (b, e₁, e₂) = >>=-eq-ok (req_blk_handler hs peer a.base) _ e in
    ground (arith, e₁, e₂, answer_request_core hs peer a.base b)

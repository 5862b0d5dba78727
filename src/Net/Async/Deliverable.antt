-- ===== src/Net/Async/Deliverable.antt =====
-- Deliveries that do not wait: of parents that are delivered, and of a block that has just come in.
use libe2c_cpp.Prelude.{
  ℕ, ◌≡◌, refl, List, [], ◌∷◌, none, some, true, false, arith, lookup, insert, lookup-insert,
  length, get_elem?-append_last, ==-refl,
}
use libe2c_cpp.Entity.{Block}
use libe2c_cpp.Entity.Storage
use libe2c_cpp.Core.{Core}
use libe2c_cpp.Core.Deliver.Links.{IsLink, Links}
use libe2c_cpp.Core.History.{Holds}
use libe2c_cpp.Core.Propose.Storing.{appended}
use libe2c_cpp.Net.{Base}
use libe2c_cpp.Net.Fetch.{
  is_delivered, all_delivered, async_fetch_blk, deliver_missing, async_deliver_blk, continues,
}
use libe2c_cpp.Net.Async.{Async, undelivered, continue_with, begin_delivery, begin_deliveries}

-- Parents that are delivered are not waited for.
IsLink-is_blk_delivered :
    (c : Core) (h r : ℕ)
    → IsLink c h r
    → Storage.is_blk_delivered c.storage (is_delivered c) h ≡ true
unfolding is_delivered Storage.is_blk_delivered
IsLink-is_blk_delivered c h r (at, b, held, d) = ground (arith, at, held, d)

pub Links-all_delivered : (c : Core) (hs rs : List ℕ) → Links c hs rs → all_delivered c hs ≡ true
unfolding all_delivered
Links-all_delivered c [] rs l = refl
Links-all_delivered c (h ∷ hs) [] l = absurd l
Links-all_delivered c (h ∷ hs) (r ∷ rs) (l, ls) =
    rw (IsLink-is_blk_delivered c h r l) (Links-all_delivered c hs rs ls)

pub Links-undelivered : (c : Core) (hs rs : List ℕ) → Links c hs rs → undelivered c hs ≡ []
unfolding undelivered
Links-undelivered c [] rs l = refl
Links-undelivered c (h ∷ hs) [] l = absurd l
Links-undelivered c (h ∷ hs) (r ∷ rs) (l, ls) =
    rw (IsLink-is_blk_delivered c h r l) (Links-undelivered c hs rs ls)

IsLink-begin_delivery :
    (p : ℕ) (a : Async) (h r : ℕ) → IsLink a.base.core h r → begin_delivery h p a ≡ a
unfolding begin_delivery continue_with async_deliver_blk
IsLink-begin_delivery p a h r l = rw (IsLink-is_blk_delivered a.base.core h r l) refl

pub Links-begin_deliveries :
    (p : ℕ) (a : Async) (hs rs : List ℕ) → Links a.base.core hs rs → begin_deliveries hs p a ≡ a
unfolding begin_deliveries
Links-begin_deliveries p a [] rs l = refl
Links-begin_deliveries p a (h ∷ hs) [] l = absurd l
Links-begin_deliveries p a (h ∷ hs) (r ∷ rs) (l, ls) =
    rw (IsLink-begin_delivery p a h r l) (Links-begin_deliveries p a hs rs ls)

-- The delivery of a block that has just been stored.
module _ (b : Block) (peer : ℕ) (x : Base) (open_ : b.delivered ≡ false)
    (new : lookup b.hash x.core.storage.blk_cache ≡ none)
    (idle : lookup b.hash x.blk_delivery_waiting ≡ none) where
  abbrev pub stored : Base
  stored = record x { core = appended b x.core }

  abbrev pub delivering : Base
  delivering = record stored { blk_delivery_waiting = insert b.hash tt x.blk_delivery_waiting }

  pub at_stored : lookup b.hash (appended b x.core).storage.blk_cache ≡ some (length x.core.blocks)
  at_stored =
      rw
        (
          lookup-insert b.hash b.hash (length x.core.blocks) x.core.storage.blk_cache,
          new,
          ==-refl b.hash,
        )
        refl

  pub stored_Holds : Holds (appended b x.core) (length x.core.blocks) b
  stored_Holds = get_elem?-append_last x.core.blocks b

  pub not_delivered_yet :
      Storage.is_blk_delivered (appended b x.core).storage (is_delivered (appended b x.core)) b.hash
      ≡ false
  unfolding is_delivered Storage.is_blk_delivered
  not_delivered_yet = ground (arith, at_stored, stored_Holds, open_)

  pub async_deliver_blk-stored :
      async_deliver_blk b.hash peer stored ≡ (continues (length x.core.blocks), delivering)
  unfolding async_deliver_blk deliver_missing async_fetch_blk Storage.is_blk_fetched
      Storage.find_blk
  async_deliver_blk-stored = rw (not_delivered_yet, idle, at_stored) refl

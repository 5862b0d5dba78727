-- ===== src/Core/Deliver/Linked.antt =====
-- A block whose parents are delivered is delivered by `on_deliver_blk`.
use libe2c_cpp.Prelude.{ℕ, ◌≡◌, refl, List, [], ◌∷◌, some, true, false, lookup, ok}
use libe2c_cpp.Entity.{Block}
use libe2c_cpp.Entity.Storage
use libe2c_cpp.Core.{Core, put, set_insert, set_erase_all}
use libe2c_cpp.Core.History.{Holds}
use libe2c_cpp.Core.Deliver.{
  get_delivered_blk, get_delivered_blks, first_of_parents, deliver, deliver_unless, on_deliver_blk,
}
use libe2c_cpp.Core.Deliver.Links.{IsLink, Links, delivered_blk}

IsLink-get_delivered_blk : (c : Core) (h r : ℕ) → IsLink c h r → get_delivered_blk c h ≡ ok r
unfolding get_delivered_blk Storage.find_blk
IsLink-get_delivered_blk c h r (at, b, held, d) = rw (at, held, d) refl

Links-get_delivered_blks :
    (c : Core) (hs rs : List ℕ) → Links c hs rs → get_delivered_blks c hs ≡ ok rs
unfolding get_delivered_blks
Links-get_delivered_blks c [] [] l = refl
Links-get_delivered_blks c [] (r ∷ rs) l = absurd l
Links-get_delivered_blks c (h ∷ hs) [] l = absurd l
Links-get_delivered_blks c (h ∷ hs) (r ∷ rs) (l, ls) =
    rw (IsLink-get_delivered_blk c h r l, Links-get_delivered_blks c hs rs ls) refl

module _ (c c' : Core)
    (found : (h r : ℕ)
      → lookup h c.storage.blk_cache ≡ some r
      → lookup h c'.storage.blk_cache ≡ some r)
    (kept : (r : ℕ) (b : Block) → Holds c r b → b.delivered ≡ true → Holds c' r b) where
  pub Links-mono : (hs rs : List ℕ) → Links c hs rs → Links c' hs rs
  Links-mono [] [] l = tt
  Links-mono [] (r ∷ rs) l = absurd l
  Links-mono (h ∷ hs) [] l = absurd l
  Links-mono (h ∷ hs) (r ∷ rs) ((at, b, held, d), ls) =
      ((found h r at, b, kept r b held d, d), Links-mono hs rs ls)

abbrev pub after_delivery : ℕ → Block → (p : ℕ) → List ℕ → Block → Core → Core
after_delivery r b p rest pb c = record (put r (delivered_blk b (p ∷ rest) pb) c) {
  tails = set_insert r (set_erase_all (p ∷ rest) c.tails);
}

pub Links-on_deliver_blk :
    (r : ℕ) (b : Block) (p : ℕ) (rest : List ℕ) (pb : Block) (c : Core)
    → Holds c r b
    → b.delivered ≡ false
    → Links c b.parent_hashes (p ∷ rest)
    → Holds c p pb
    → on_deliver_blk r c ≡ ok (true, after_delivery r b p rest pb c)
unfolding on_deliver_blk deliver_unless deliver first_of_parents
Links-on_deliver_blk r b p rest pb c h open_ links hp =
    rw (h, open_, Links-get_delivered_blks c b.parent_hashes (p ∷ rest) links, hp) refl

-- ===== src/Core/Propose/Storing.antt =====
-- Handing a new block to the storage keeps the invariant and the history.
use libe2c_cpp.Prelude.{
  ℕ, ◌<◌, ◌≡◌, refl, [], ◌∷◌, ◌++◌, none, some, false, lookup, insert, lookup-insert, insert_old,
  get_elem?-append_one, length, length-append, Option-cases, inl, inr, arith,
}
use libe2c_cpp.Entity.{Block}
use libe2c_cpp.Entity.Storage
use libe2c_cpp.Core.{Core, add_new_blk}
use libe2c_cpp.Core.History.{Extends-refl, append-Extends}
use libe2c_cpp.Core.Invariant.{IsValid, IsChained-mono, Kept, carry-IsValid}

module _ (b : Block) (c : Core) where
  abbrev pub appended : Core
  appended = record c {
    blocks = c.blocks ++ b ∷ [];
    storage = record c.storage { blk_cache = insert b.hash (length c.blocks) c.storage.blk_cache };
  }

  pub add_new_blk_fresh :
      lookup b.hash c.storage.blk_cache ≡ none → add_new_blk b c ≡ (length c.blocks, appended)
  unfolding add_new_blk Storage.add_blk
  add_new_blk_fresh l = ground (arith, l)

  pub add_new_blk_known :
      (q : ℕ)
      → lookup b.hash c.storage.blk_cache ≡ some q
      → q < length c.blocks
      → add_new_blk b c ≡ (q, c)
  unfolding add_new_blk Storage.add_blk
  add_new_blk_known q l h =
      ground (arith, l, h, insert_old b.hash (length c.blocks) q c.storage.blk_cache l)

  module _ (new : b.delivered ≡ false) (open_ : b.decision ≡ 0)
      (unarmed : b.commit_timer ≡ none) where
    appended-Kept : IsValid c → Kept c appended
    appended-Kept v =
        let e = append-Extends c appended b refl refl refl in
        (
          carry-IsValid e v refl refl
              (λ h r l. ground (
                arith,
                v.cached h r,
                lookup-insert b.hash h (length c.blocks) c.storage.blk_cache,
                length-append c.blocks (b ∷ []),
                v.cached b.hash r,
              ))
              (λ r a h d ne.
                IsChained-mono e a (
                  v.chained r a (ground (arith, get_elem?-append_one c.blocks b r, h, d, new)) d
                    ne))
              (λ r a h d.
                v.decided r a (ground (arith, get_elem?-append_one c.blocks b r, h, d, open_)) d)
              (λ r a t h d.
                v.armed r a t (ground (arith, get_elem?-append_one c.blocks b r, h, d, unarmed)) d),
          e,
        )

    pub add_new_blk-Kept : IsValid c → Kept c (add_new_blk b c).1
    add_new_blk-Kept v = elim (Option-cases (lookup b.hash c.storage.blk_cache)) [
      | inl l ↦ rw (add_new_blk_fresh l) (appended-Kept v)
      | inr (q, l) ↦ rw (add_new_blk_known q l (v.cached b.hash q l)) (v, Extends-refl c)
    ]

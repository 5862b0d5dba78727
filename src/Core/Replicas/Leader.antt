-- ===== src/Core/Replicas/Leader.antt =====
-- The proposer extends its own chain.
use libe2c_cpp.Prelude.{
  ℕ, zero, suc, ◌^◌, ◌<◌, ◌≡◌, ◌≢◌, ◌∙◌, sym, ap, inl, inr, List, ◌∷◌, some, lookup, get_elem?,
  arith,
}
use libe2c_cpp.Entity.{Block}
use libe2c_cpp.Core.{Core}
use libe2c_cpp.Core.Replicas.Chain.{Among, IsLinked, IsChain, Carries}

-- The proposer has every proposal in its map and in its storage.
pub record IsLeader (ps : List Block) (c : Core) : Type 0 where
  pub proposed :
      (k : ℕ) (p : Block)
      → get_elem? ps k ≡ some p
      → (r : ℕ) × (lookup p.height c.ht_blk_map ≡ some (some r))
  pub stored :
      (k : ℕ) (p : Block)
      → get_elem? ps k ≡ some p
      → (r : ℕ) × (lookup p.hash c.storage.blk_cache ≡ some r)

module _ (g : ℕ) (ps : List Block) (n : Block) where
  pub Among-suc : (b : Block) → Among ps b → Among (n ∷ ps) b
  Among-suc b (k, p, at, s) = (suc k, p, at, s)

  IsLinked-suc : (p : Block) → IsLinked g ps p → IsLinked g (n ∷ ps) p
  IsLinked-suc p (h, hs, e, inl root) = (h, hs, e, inl root)
  IsLinked-suc p (h, hs, e, inr (j, q, at, of, up)) = (h, hs, e, inr (suc j, q, at, of, up))

  pub Carries-suc : (c : Core) → Carries g ps c → Carries g (n ∷ ps) c
  Carries-suc c v = record {
    genesis = v.genesis;
    origin = v.origin;
    others = λ r b h ne. Among-suc b (v.others r b h ne);
    cached = v.cached;
  }

  -- A block above all proposals, of a new hash, linked to them.
  module _ (chain : IsChain g ps)
      (higher : (k : ℕ) (p : Block) → get_elem? ps k ≡ some p → p.height < n.height)
      (other : (k : ℕ) (p : Block) → get_elem? ps k ≡ some p → p.hash ≢ n.hash) where
    by_height :
        (j k : ℕ) (p q : Block)
        → get_elem? (n ∷ ps) j ≡ some p
        → get_elem? (n ∷ ps) k ≡ some q
        → p.height ≡ q.height
        → p ≡ q
    by_height zero zero p q e f h = ground arith
    by_height zero (suc k) p q e f h =
        let up = higher k q f in
        let is : n ≡ p = ground arith in absurd (omega (arith, ap (λ x. x.height) is))
    by_height (suc j) zero p q e f h =
        let up = higher j p e in
        let is : n ≡ q = ground arith in absurd (omega (arith, ap (λ x. x.height) is))
    by_height (suc j) (suc k) p q e f h = chain.by_height j k p q e f h

    by_hash :
        (j k : ℕ) (p q : Block)
        → get_elem? (n ∷ ps) j ≡ some p
        → get_elem? (n ∷ ps) k ≡ some q
        → p.hash ≡ q.hash
        → p ≡ q
    by_hash zero zero p q e f h = ground arith
    by_hash zero (suc k) p q e f h =
        let is : n ≡ p = ground arith in absurd (other k q f (sym h ∙ ap (λ x. x.hash) (sym is)))
    by_hash (suc j) zero p q e f h =
        let is : n ≡ q = ground arith in absurd (other j p e (h ∙ ap (λ x. x.hash) (sym is)))
    by_hash (suc j) (suc k) p q e f h = chain.by_hash j k p q e f h

    pub IsChain-suc :
        n.hash ≢ g → 0 < n.height → n.height < 2 ^ 32 → IsLinked g ps n → IsChain g (n ∷ ps)
    IsChain-suc new lo hi link = record {
      by_height = by_height;
      by_hash = by_hash;
      above = above;
      fresh = fresh;
      linked = linked;
    }
      where
        above :
            (k : ℕ) (p : Block)
            → get_elem? (n ∷ ps) k ≡ some p
            → (0 < p.height) × (p.height < 2 ^ 32)
        above zero p e = let is : n ≡ p = ground arith in rw (← is) (lo, hi)
        above (suc k) p e = chain.above k p e

        fresh : (k : ℕ) (p : Block) → get_elem? (n ∷ ps) k ≡ some p → p.hash ≢ g
        fresh zero p e = let is : n ≡ p = ground arith in rw (← is) new
        fresh (suc k) p e = chain.fresh k p e

        linked : (k : ℕ) (p : Block) → get_elem? (n ∷ ps) k ≡ some p → IsLinked g (n ∷ ps) p
        linked zero p e = let is : n ≡ p = ground arith in rw (← is) (IsLinked-suc n link)
        linked (suc k) p e = IsLinked-suc p (chain.linked k p e)

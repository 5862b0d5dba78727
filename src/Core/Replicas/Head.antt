-- ===== src/Core/Replicas/Head.antt =====
-- The first parent of a new proposal has the mark's height.
use libe2c_cpp.Prelude.{
  ℕ, zero, suc, ◌≡◌, refl, ap, inl, inr, List, [], ◌∷◌, Option, some, Assoc, lookup, arith, ok,
  null_pointer, >>=-eq-ok, or_fail-eq-ok, ◌==◌, if◌then◌else◌, Bool-cases,
}
use libe2c_cpp.Entity.{Block}
use libe2c_cpp.Core.{Core, deref}
use libe2c_cpp.Core.History.{Holds}
use libe2c_cpp.Core.Invariant.{IsValid}
use libe2c_cpp.Core.Propose.{index_map, parents_from, get_parents, get_hashes}
use libe2c_cpp.Core.Propose.Unchanged.{get_parents_same}
use libe2c_cpp.Core.Replicas.Chain.{Carries}

-- The first parent: the genesis block at height 0, and the mark above it.
parents_from_head :
    (b0 bm n : ℕ) (m : Assoc (Option ℕ))
    → lookup n m ≡ some (some bm)
    → (rest : List (Option ℕ)) × ((parents_from b0 n m).0 ≡ some (if n == 0 then b0 else bm) ∷ rest)
unfolding parents_from index_map
parents_from_head b0 bm zero m l = ([], refl)
parents_from_head b0 bm (suc n) m l =
    let at = index_map (suc n) m in ((parents_from b0 n at.1).0, ground (arith, l))

get_hashes_head :
    (c : Core) (p : ℕ) (rest : List (Option ℕ)) (x : List ℕ × List ℕ)
    → get_hashes c (some p ∷ rest) ≡ ok x
    → (b : Block) × (rs : List ℕ) × (hs : List ℕ) × Holds c p b × (x ≡ (p ∷ rs, b.hash ∷ hs))
unfolding get_hashes
get_hashes_head c p rest x e =
    let (b, e₁, f₁) = >>=-eq-ok (deref c p) _ e in
    let (y, e₂, f₂) = >>=-eq-ok (get_hashes c rest) _ f₁ in
    (b, y.0, y.1, or_fail-eq-ok _ null_pointer e₁, ground arith)

get_parents_list :
    (c c₁ : Core) (ps : List (Option ℕ)) (mark : Block)
    → Holds c c.b_mark mark
    → get_parents c ≡ ok (ps, c₁)
    → ps ≡ (parents_from c.b0 mark.height c.ht_blk_map).0
unfolding get_parents
get_parents_list c c₁ ps mark hm e = let e' = rw hm at e in ground arith

-- What `get_parents` hands to `on_propose` starts with a block of the mark's height.
pub get_parents_head :
    (g : ℕ) (qs : List Block) (c c₁ : Core) (ps : List (Option ℕ)) (x : List ℕ × List ℕ)
    (mark : Block)
    → IsValid c
    → Carries g qs c
    → Holds c c.b_mark mark
    → get_parents c ≡ ok (ps, c₁)
    → get_hashes c₁ ps ≡ ok x
    → (c₁ ≡ c)
      × (p : ℕ) × (b : Block) × (rs : List ℕ) × (hs : List ℕ) × Holds c p b
      × (x ≡ (p ∷ rs, b.hash ∷ hs))
      × (b.height ≡ mark.height)
get_parents_head g qs c c₁ ps x mark v carries hm e hashed =
    let same : c₁ ≡ c = get_parents_same c (ps, c₁) x e hashed in
    let (bm, hb, db, at, top) = v.marked in
    let is : bm ≡ mark = ground (arith, hb, hm) in
    let top_at : lookup mark.height c.ht_blk_map ≡ some (some c.b_mark) = rw is at at in
    let (rest, head) = parents_from_head c.b0 c.b_mark mark.height c.ht_blk_map top_at in
    let listed = get_parents_list c c₁ ps mark hm e in
    let p = if mark.height == 0 then c.b0 else c.b_mark in
    let hashed' : get_hashes c (some p ∷ rest) ≡ ok x = rw (same, listed, head) at hashed in
    let (b, rs, hs, held, eq) = get_hashes_head c p rest x hashed' in
    let level : b.height ≡ mark.height = elim (Bool-cases (mark.height == 0)) [
      | inl root ↦
          let held' : Holds c c.b0 b = ground (arith, held, root) in
          let low = (carries.genesis b held').height in ground arith
      | inr up ↦
          let held' : Holds c c.b_mark b = ground (arith, held, up) in
          let is : b ≡ mark = ground arith in ap (λ y. y.height) is
    ] in
    (same, p, b, rs, hs, held, eq, level)

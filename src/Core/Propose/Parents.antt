-- ===== src/Core/Propose/Parents.antt =====
-- The parents of a new block, when the map has a block at every height and when it has a gap.
use libe2c_cpp.Prelude.{
  ℕ, zero, suc, ◌-◌, ◌≤◌, ◌≡◌, refl, ◌∙◌, ◌≢◌, List, [], ◌∷◌, Option, none, some, Assoc, lookup,
  lookup-assign, get_elem?, arith, ok, err, null_pointer, Option-cases, Bool-cases, ==_iff, inl,
  inr, ◌==◌, if◌then◌else◌,
}
use libe2c_cpp.Entity.{Block}
use libe2c_cpp.Core.{Core}
use libe2c_cpp.Core.History.{Holds}
use libe2c_cpp.Core.Propose.{index_map, parents_from, get_parents, get_hashes}

-- Every height from 1 to `n` has a block.
abbrev pub IsFull : ℕ → Assoc (Option ℕ) → Type 0
IsFull n m = (ht : ℕ) → 1 ≤ ht → ht ≤ n → (r : ℕ) × (lookup ht m ≡ some (some r))

index_map_held :
    (ht : ℕ) (p : Option ℕ) (m : Assoc (Option ℕ)) → lookup ht m ≡ some p → index_map ht m ≡ (p, m)
unfolding index_map
index_map_held ht p m l = ground (arith, l)

parents_from-suc :
    (b0 n r : ℕ) (m : Assoc (Option ℕ))
    → lookup (suc n) m ≡ some (some r)
    → parents_from b0 (suc n) m ≡ (some r ∷ (parents_from b0 n m).0, (parents_from b0 n m).1)
unfolding parents_from
parents_from-suc b0 n r m l = rw (index_map_held (suc n) (some r) m l) refl

parents_from_same : (b0 n : ℕ) (m : Assoc (Option ℕ)) → IsFull n m → (parents_from b0 n m).1 ≡ m
parents_from_same b0 zero m f = unfold parents_from in refl
parents_from_same b0 (suc n) m f =
    let (r, l) = f (suc n) (omega arith) (omega arith) in
    rw (parents_from-suc b0 n r m l) (parents_from_same b0 n m (λ ht lo hi. f ht lo (omega arith)))

-- The entry for height `n - k`, and the genesis block behind height 1.
abbrev pub parent_at : (b0 n k : ℕ) → Assoc (Option ℕ) → Option (Option ℕ)
parent_at b0 n k m = if n == k then some (some b0) else lookup (n - k) m

parents_from_at :
    (b0 n k : ℕ) (m : Assoc (Option ℕ))
    → IsFull n m
    → k ≤ n
    → get_elem? (parents_from b0 n m).0 k ≡ parent_at b0 n k m
parents_from_at b0 zero zero m f h = unfold parents_from in refl
parents_from_at b0 zero (suc k) m f h = absurd (omega arith)
parents_from_at b0 (suc n) zero m f h =
    let (r, l) = f (suc n) (omega arith) (omega arith) in
    let here : suc n - 0 ≡ suc n = omega arith in
    rw (parents_from-suc b0 n r m l, here, l) (ground arith)
parents_from_at b0 (suc n) (suc k) m f h =
    let (r, l) = f (suc n) (omega arith) (omega arith) in
    let less : suc n - suc k ≡ n - k = omega arith in
    let test : (suc n == suc k) ≡ (n == k) = ground arith in
    rw (parents_from-suc b0 n r m l, test, less)
      (parents_from_at b0 n k m (λ ht lo hi. f ht lo (omega arith)) (omega arith))

-- When the map has a block at every height up to the mark, `get_parents` changes nothing and lists
-- these blocks, the highest first, and then the genesis block.
pub get_parents_full :
    (c : Core) (mark : Block)
    → Holds c c.b_mark mark
    → IsFull mark.height c.ht_blk_map
    → (ps : List (Option ℕ)) × (get_parents c ≡ ok (ps, c))
      × ((k : ℕ) → k ≤ mark.height → get_elem? ps k ≡ parent_at c.b0 mark.height k c.ht_blk_map)
get_parents_full c mark h f =
    let same = parents_from_same c.b0 mark.height c.ht_blk_map f in
    (
      (parents_from c.b0 mark.height c.ht_blk_map).0,
      unfold get_parents in rw (h, same) refl,
      λ k le. parents_from_at c.b0 mark.height k c.ht_blk_map f le,
    )

-- A null pointer among the parents, wherever it stands.
get_hashes_null :
    (c : Core) (ps : List (Option ℕ)) (k : ℕ)
    → get_elem? ps k ≡ some none
    → get_hashes c ps ≡ err null_pointer
unfolding get_hashes
get_hashes_null c [] k e = cc
get_hashes_null c (none ∷ ps) k e = refl
get_hashes_null c (some r ∷ ps) zero e = cc
get_hashes_null c (some r ∷ ps) (suc k) e = elim (Option-cases (get_elem? c.blocks r)) [
  | inl gone ↦ rw gone refl
  | inr (b, there) ↦ rw (there, get_hashes_null c ps k e) refl
]

index_map_other :
    (ht j : ℕ) (m : Assoc (Option ℕ)) → ht ≢ j → lookup j (index_map ht m).1 ≡ lookup j m
unfolding index_map
index_map_other ht j m ne = ground (arith, lookup-assign ht j none m)

index_map_missing : (ht : ℕ) (m : Assoc (Option ℕ)) → lookup ht m ≡ none → (index_map ht m).0 ≡ none
unfolding index_map
index_map_missing ht m l = ground (arith, l)

parents_from_gap :
    (b0 n ht : ℕ) (m : Assoc (Option ℕ))
    → 1 ≤ ht
    → ht ≤ n
    → lookup ht m ≡ none
    → (k : ℕ) × (get_elem? (parents_from b0 n m).0 k ≡ some none)
unfolding parents_from
parents_from_gap b0 zero ht m lo hi l = absurd (omega arith)
parents_from_gap b0 (suc n) ht m lo hi l = elim (Bool-cases (suc n == ht)) [
  | inl top ↦
      let eq : suc n ≡ ht = (==_iff (suc n) ht).0 top in
      (0, rw (index_map_missing (suc n) m (rw eq l)) refl)
  | inr below ↦
      let ne : suc n ≢ ht = ground arith in
      let (k, e) =
        parents_from_gap b0 n ht (index_map (suc n) m).1 lo (ground arith)
          (index_map_other (suc n) ht m ne ∙ l) in
      (suc k, e)
]

-- When a height below the mark has no entry in the map, `get_parents` returns a null pointer among
-- the parents, and to take the parents' hashes, as `on_propose` does first, dereferences null.
pub get_parents_gap :
    (c : Core) (mark : Block) (ht : ℕ)
    → Holds c c.b_mark mark
    → 1 ≤ ht
    → ht ≤ mark.height
    → lookup ht c.ht_blk_map ≡ none
    → (ps : List (Option ℕ)) × (c' : Core) × (get_parents c ≡ ok (ps, c'))
      × (get_hashes c' ps ≡ err null_pointer)
get_parents_gap c mark ht h lo hi l =
    let x = parents_from c.b0 mark.height c.ht_blk_map in
    let c' = record c { ht_blk_map = x.1 } in
    let (k, e) = parents_from_gap c.b0 mark.height ht c.ht_blk_map lo hi l in
    (x.0, c', unfold get_parents in rw h refl, get_hashes_null c' x.0 k e)

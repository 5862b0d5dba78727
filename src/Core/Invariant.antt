-- ===== src/Core/Invariant.antt =====
-- The well-formedness of a replica's state, and the two ways in which an operation keeps it.
use libe2c_cpp.Prelude.{
  ℕ, ◌+◌, ◌%◌, ◌^◌, ◌≤◌, ◌<◌, ◌≡◌, refl, sym, ◌∙◌, ◌≢◌, inl, inr, List, ◌∷◌, Option, some, true,
  lookup, length, arith, ◌==◌, ==_iff, Bool-cases,
}
use libe2c_cpp.Entity.{Block, Timer}
use libe2c_cpp.Core.{Core, Output, put, emit}
use libe2c_cpp.Core.History.{
  Holds, Keeps, Extends, Extends-refl, Extends-trans, Extends-same, get-put, put-Extends,
}

-- The first parent is delivered, and one height below.
abbrev pub IsChained : Core → Block → Type 0
IsChained c b =
    (p : ℕ) × (ps : List ℕ) × (pb : Block) × (b.parents ≡ p ∷ ps)
    × Holds c p pb
    × (pb.delivered ≡ true)
    × (b.height ≡ (pb.height + 1) % 2 ^ 32)

-- An entry of the map is a delivered block of that height.
abbrev pub IsHeld : Core → ℕ → Option ℕ → Type 0
IsHeld c ht p =
    (r : ℕ) × (b : Block) × (p ≡ some r) × Holds c r b × (b.height ≡ ht) × (b.delivered ≡ true)

-- `b_mark` is in the map, and no height of the map is above it.
abbrev pub IsMarked : Core → Type 0
IsMarked c =
    (b : Block) × Holds c c.b_mark b
    × (b.delivered ≡ true)
    × (lookup b.height c.ht_blk_map ≡ some (some c.b_mark))
    × ((ht : ℕ) (p : Option ℕ) → lookup ht c.ht_blk_map ≡ some p → ht ≤ b.height)

pub record IsValid (c : Core) : Type 0 where
  pub genesis : (b : Block) × Holds c c.b0 b × (b.delivered ≡ true)
  pub marked : IsMarked c
  pub held : (ht : ℕ) (p : Option ℕ) → lookup ht c.ht_blk_map ≡ some p → IsHeld c ht p
  pub cached : (h r : ℕ) → lookup h c.storage.blk_cache ≡ some r → r < length c.blocks
  pub chained : (r : ℕ) (b : Block) → Holds c r b → b.delivered ≡ true → r ≢ c.b0 → IsChained c b
  pub decided :
      (r : ℕ) (b : Block)
      → Holds c r b
      → b.decision ≡ 1
      → lookup b.height c.ht_blk_map ≡ some (some r)
  pub armed :
      (r : ℕ) (b : Block) (t : Timer)
      → Holds c r b
      → b.commit_timer ≡ some t
      → lookup t.for_height c.ht_blk_map ≡ some (some r)

module _ {c c' : Core} (e : Extends c c') where
  pub IsChained-mono : (b : Block) → IsChained c b → IsChained c' b
  IsChained-mono b (p, ps, pb, eq, h, d, ht) =
      let (pb', h', k) = e.blocks p pb h in (p, ps, pb', eq, h', k.delivered d, rw (k.height d) ht)

  pub IsHeld-mono : (ht : ℕ) (p : Option ℕ) → IsHeld c ht p → IsHeld c' ht p
  IsHeld-mono ht p (r, b, eq, h, at, d) =
      let (b', h', k) = e.blocks r b h in (r, b', eq, h', k.height d ∙ at, k.delivered d)

  pub genesis_mono : IsValid c → (b : Block) × Holds c' c'.b0 b × (b.delivered ≡ true)
  genesis_mono v =
      let (b, h, d) = v.genesis in
      let (b', h', k) = e.blocks c.b0 b h in (b', rw e.genesis h', k.delivered d)

  -- An operation that leaves the map and the mark alone.
  pub carry-IsValid :
      IsValid c
      → c'.ht_blk_map ≡ c.ht_blk_map
      → c'.b_mark ≡ c.b_mark
      → ((h r : ℕ) → lookup h c'.storage.blk_cache ≡ some r → r < length c'.blocks)
      → ((r : ℕ) (b : Block) → Holds c' r b → b.delivered ≡ true → r ≢ c'.b0 → IsChained c' b)
      → ((r : ℕ) (b : Block)
          → Holds c' r b
          → b.decision ≡ 1
          → lookup b.height c'.ht_blk_map ≡ some (some r))
      → ((r : ℕ) (b : Block) (t : Timer)
          → Holds c' r b
          → b.commit_timer ≡ some t
          → lookup t.for_height c'.ht_blk_map ≡ some (some r))
      → IsValid c'
  carry-IsValid v m mk cached chained decided armed = record {
    genesis = genesis_mono v;
    marked =
        let (b, h, d, at, top) = v.marked in
        let (b', h', k) = e.blocks c.b_mark b h in
        (
          b',
          rw mk h',
          k.delivered d,
          rw (k.height d, m, mk) at,
          λ ht p l. rw (k.height d) (top ht p (rw m at l)),
        );
    held = λ ht p l. IsHeld-mono ht p (v.held ht p (rw m at l));
    cached = cached;
    chained = chained;
    decided = decided;
    armed = armed;
  }

-- One block is written: the heap's side of the invariant follows from that block's.
module _ {c : Core} (v : IsValid c) (r : ℕ) {b : Block} (h : Holds c r b) (b' : Block)
    (k : Keeps b b') where
  pub put-IsChained :
      (b'.delivered ≡ true → r ≢ c.b0 → IsChained c b')
      → (j : ℕ) (a : Block) → Holds (put r b' c) j a
      → a.delivered ≡ true
      → j ≢ c.b0
      → IsChained (put r b' c) a
  put-IsChained new j a e d ne = elim (Bool-cases (r == j)) [
    | inl same ↦
        let eq : a ≡ b' = ground (arith, e, get-put c r h b' j, same) in
        let at : r ≡ j = (==_iff r j).0 same in
        IsChained-mono (put-Extends c r h b' k) a (rw eq (new (rw (← eq) d) (λ z. ne (sym at ∙ z))))
    | inr other ↦
        let old : Holds c j a = ground (arith, e, get-put c r h b' j, other) in
        IsChained-mono (put-Extends c r h b' k) a (v.chained j a old d ne)
  ]

  pub put-decided :
      (b'.decision ≡ 1 → lookup b'.height c.ht_blk_map ≡ some (some r))
      → (j : ℕ) (a : Block) → Holds (put r b' c) j a
      → a.decision ≡ 1
      → lookup a.height c.ht_blk_map ≡ some (some j)
  put-decided new j a e d = elim (Bool-cases (r == j)) [
    | inl same ↦
        let eq : a ≡ b' = ground (arith, e, get-put c r h b' j, same) in
        let at : r ≡ j = (==_iff r j).0 same in rw (eq, ← at) (new (rw (← eq) d))
    | inr other ↦
        let old : Holds c j a = ground (arith, e, get-put c r h b' j, other) in v.decided j a old d
  ]

  pub put-armed :
      ((t : Timer) → b'.commit_timer ≡ some t → lookup t.for_height c.ht_blk_map ≡ some (some r))
      → (j : ℕ) (a : Block) (t : Timer) → Holds (put r b' c) j a
      → a.commit_timer ≡ some t
      → lookup t.for_height c.ht_blk_map ≡ some (some j)
  put-armed new j a t e d = elim (Bool-cases (r == j)) [
    | inl same ↦
        let eq : a ≡ b' = ground (arith, e, get-put c r h b' j, same) in
        let at : r ≡ j = (==_iff r j).0 same in rw (← at) (new t (rw (← eq) d))
    | inr other ↦
        let old : Holds c j a = ground (arith, e, get-put c r h b' j, other) in v.armed j a t old d
  ]

-- What an operation keeps, in one pair.
abbrev pub Kept : Core → Core → Type 0
Kept c c' = IsValid c' × Extends c c'

pub Kept-trans : {c d e : Core} → Kept c d → (IsValid d → Kept d e) → Kept c e
Kept-trans k f = let (v, x) = f k.0 in (v, Extends-trans k.1 x)

-- Outputs and tails are not looked at.
pub Kept-same :
    (c c' : Core)
    → c'.blocks ≡ c.blocks
    → c'.b0 ≡ c.b0
    → c'.b_mark ≡ c.b_mark
    → c'.ht_blk_map ≡ c.ht_blk_map
    → c'.storage ≡ c.storage
    → IsValid c
    → Kept c c'
Kept-same c c' bs g mk m st v =
    let e = Extends-same (Extends-refl c) bs g m in
    (
      carry-IsValid e v m mk (rw (bs, st) v.cached)
          (λ r b h d ne. IsChained-mono e b (v.chained r b (rw bs at h) d (rw g at ne)))
          (λ r b h d. rw m (v.decided r b (rw bs at h) d))
          (λ r b t h d. rw m (v.armed r b t (rw bs at h) d)),
      e,
    )

pub emit-Kept : (o : Output) (c : Core) → IsValid c → Kept c (emit o c)
emit-Kept o c v = Kept-same c (emit o c) refl refl refl refl refl v

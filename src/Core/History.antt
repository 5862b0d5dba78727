-- ===== src/Core/History.antt =====
-- What no event takes back: blocks stay, a delivered block keeps its height and its parents, a
-- decision stays, and a block that the map holds at a height is never replaced.
use libe2c_cpp.Prelude.{
  ℕ, ◌≡◌, refl, ◌∙◌, inl, inr, some, true, lookup, get_elem?, get_elem?-set, get_elem?_lt,
  get_elem?-append_left, ◌==◌, ==_iff, Bool-cases, if◌then◌else◌, arith, ◌++◌, ◌∷◌, [],
}
use libe2c_cpp.Entity.{Block}
use libe2c_cpp.Core.{Core, put}

abbrev pub Holds : Core → ℕ → Block → Type 0
Holds c r b = get_elem? c.blocks r ≡ some b

pub record Keeps (b b' : Block) : Type 0 where
  pub delivered : b.delivered ≡ true → b'.delivered ≡ true
  pub height : b.delivered ≡ true → b'.height ≡ b.height
  pub parents : b.delivered ≡ true → b'.parents ≡ b.parents
  pub decided : b.decision ≡ 1 → b'.decision ≡ 1

pub record Extends (c c' : Core) : Type 0 where
  pub genesis : c'.b0 ≡ c.b0
  pub blocks : (r : ℕ) (b : Block) → Holds c r b → (b' : Block) × Holds c' r b' × Keeps b b'
  pub held :
      (ht r : ℕ) → lookup ht c.ht_blk_map ≡ some (some r) → lookup ht c'.ht_blk_map ≡ some (some r)

pub Keeps-refl : (b : Block) → Keeps b b
Keeps-refl b = record {
  delivered = λ h. h;
  height = λ h. refl;
  parents = λ h. refl;
  decided = λ h. h;
}

pub Keeps-trans : {a b c : Block} → Keeps a b → Keeps b c → Keeps a c
Keeps-trans k l = record {
  delivered = λ h. l.delivered (k.delivered h);
  height = λ h. l.height (k.delivered h) ∙ k.height h;
  parents = λ h. l.parents (k.delivered h) ∙ k.parents h;
  decided = λ h. l.decided (k.decided h);
}

pub Extends-refl : (c : Core) → Extends c c
Extends-refl c = record {
  genesis = refl;
  blocks = λ r b h. (b, h, Keeps-refl b);
  held = λ ht r h. h;
}

pub Extends-trans : {c d e : Core} → Extends c d → Extends d e → Extends c e
Extends-trans {c} {d} {e} p q = record {
  genesis = q.genesis ∙ p.genesis;
  blocks = both;
  held = λ ht r h. q.held ht r (p.held ht r h);
}
  where
    both : (r : ℕ) (b : Block) → Holds c r b → (b' : Block) × Holds e r b' × Keeps b b'
    both r b h =
        let (b₁, h₁, k₁) = p.blocks r b h in
        let (b₂, h₂, k₂) = q.blocks r b₁ h₁ in (b₂, h₂, Keeps-trans k₁ k₂)

-- Only the blocks, the genesis and the map are looked at.
pub Extends-same :
    {c d e : Core}
    → Extends c d
    → e.blocks ≡ d.blocks
    → e.b0 ≡ d.b0
    → e.ht_blk_map ≡ d.ht_blk_map
    → Extends c e
Extends-same {c} {d} {e} p bs g m = record {
  genesis = g ∙ p.genesis;
  blocks = λ r b h. rw bs (p.blocks r b h);
  held = λ ht r h. rw m (p.held ht r h);
}

module _ (c : Core) (r : ℕ) {b : Block} (h : Holds c r b) (b' : Block) where
  pub get-put :
      (j : ℕ) → get_elem? (put r b' c).blocks j ≡ (if r == j then some b' else get_elem? c.blocks j)
  get-put j = get_elem?-set c.blocks r j b' (get_elem?_lt c.blocks r h)

  pub Holds-put : Holds (put r b' c) r b'
  Holds-put = rw (get-put r) (ground arith)

  pub put-Extends : Keeps b b' → Extends c (put r b' c)
  put-Extends k = record { genesis = refl; blocks = at; held = λ ht q e. e }
    where
      at : (j : ℕ) (a : Block) → Holds c j a → (a' : Block) × Holds (put r b' c) j a' × Keeps a a'
      at j a e = elim (Bool-cases (r == j)) [
        | inl same ↦
            let here : Holds (put r b' c) j b' = get-put j ∙ rw same refl in
            let eq : r ≡ j = (==_iff r j).0 same in
            let old : a ≡ b = ground (arith, e, h, eq) in (b', here, rw old k)
        | inr other ↦ (a, get-put j ∙ rw other e, Keeps-refl a)
      ]

-- A new block at the end of the list.
pub append-Extends :
    (c c' : Core) (b : Block)
    → c'.blocks ≡ c.blocks ++ b ∷ []
    → c'.b0 ≡ c.b0
    → c'.ht_blk_map ≡ c.ht_blk_map
    → Extends c c'
append-Extends c c' b bs g m = record {
  genesis = g;
  blocks = λ r a h. (a, rw bs (get_elem?-append_left c.blocks (b ∷ []) r h), Keeps-refl a);
  held = λ ht r h. rw m h;
}

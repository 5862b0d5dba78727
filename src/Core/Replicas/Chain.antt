-- ===== src/Core/Replicas/Chain.antt =====
-- The blocks of the proposer form a chain, and every block of a replica is one of them.
use libe2c_cpp.Prelude.{
  ℕ, ◌+◌, ◌%◌, ◌^◌, ◌<◌, ◌≡◌, ◌≢◌, refl, ◌∙◌, sym, ap, ◌⊎◌, inl, inr, List, [], ◌∷◌, none, some,
  true, false, Bool, lookup, lookup-insert, length, get_elem?, get_elem?-append_one, arith, ok,
  ◌==◌, ==_iff, Bool-cases, Option-cases,
}
use libe2c_cpp.Entity.{Block, new_block}
use libe2c_cpp.Core.{Core, put, add_new_blk}
use libe2c_cpp.Core.History.{Holds}
use libe2c_cpp.Core.Invariant.{IsValid}
use libe2c_cpp.Core.Deliver.{on_deliver_blk}
use libe2c_cpp.Core.Deliver.Links.{Links, delivered_blk, Outcome, on_deliver_blk_cases}
use libe2c_cpp.Core.Propose.Storing.{appended, add_new_blk_fresh, add_new_blk_known}
use libe2c_cpp.Core.Replicas.Sent.{IsSame, IsSame-trans, Alike, Alike-refl, Alike-same, put-Alike}

-- The place of a block among the proposals.
abbrev pub Among : List Block → Block → Type 0
Among ps b = (k : ℕ) × (p : Block) × (get_elem? ps k ≡ some p) × IsSame p b

-- A proposal is one above its first parent, a proposal or the genesis block.
abbrev pub IsLinked : (genesis_hash : ℕ) → List Block → Block → Type 0
IsLinked g ps p =
    (h : ℕ) × (hs : List ℕ) × (p.parent_hashes ≡ h ∷ hs)
    × (((h ≡ g) × (p.height ≡ 1))
        ⊎ ((j : ℕ) × (q : Block) × (get_elem? ps j ≡ some q)
            × (q.hash ≡ h)
            × (p.height ≡ q.height + 1)))

pub record IsChain (g : ℕ) (ps : List Block) : Type 0 where
  pub by_height :
      (j k : ℕ) (p q : Block)
      → get_elem? ps j ≡ some p
      → get_elem? ps k ≡ some q
      → p.height ≡ q.height
      → p ≡ q
  pub by_hash :
      (j k : ℕ) (p q : Block)
      → get_elem? ps j ≡ some p
      → get_elem? ps k ≡ some q
      → p.hash ≡ q.hash
      → p ≡ q
  pub above : (k : ℕ) (p : Block) → get_elem? ps k ≡ some p → (0 < p.height) × (p.height < 2 ^ 32)
  pub fresh : (k : ℕ) (p : Block) → get_elem? ps k ≡ some p → p.hash ≢ g
  pub linked : (k : ℕ) (p : Block) → get_elem? ps k ≡ some p → IsLinked g ps p

-- The genesis block, whose hash is not that of its content.
abbrev pub genesis_blk : (genesis_hash : ℕ) → Block
genesis_blk g = record new_block { delivered = true; decision = 1; proposer = 1; hash = g }

pub record Carries (g : ℕ) (ps : List Block) (c : Core) : Type 0 where
  pub genesis : (b : Block) → Holds c c.b0 b → IsSame (genesis_blk g) b
  pub origin : lookup g c.storage.blk_cache ≡ some c.b0
  pub others : (r : ℕ) (b : Block) → Holds c r b → r ≢ c.b0 → Among ps b
  pub cached :
      (h r : ℕ) (b : Block) → lookup h c.storage.blk_cache ≡ some r → Holds c r b → b.hash ≡ h

module _ (g : ℕ) (ps : List Block) where
  pub Alike-Carries : (c c' : Core) → Alike c c' → Carries g ps c → Carries g ps c'
  Alike-Carries c c' x v = record {
    genesis = λ b' h.
        let (b, h₁, k) = x.back c'.b0 b' h in IsSame-trans (v.genesis b (rw x.genesis at h₁)) k;
    origin = rw (x.storage, x.genesis) v.origin;
    others = λ r b' h ne.
        let (b, h₁, k) = x.back r b' h in
        let (j, p, at, y) = v.others r b h₁ (rw x.genesis at ne) in (j, p, at, IsSame-trans y k);
    cached = λ h r b' l at.
        let (b, h₁, k) = x.back r b' at in k.hash ∙ v.cached h r b (rw x.storage at l) h₁;
  }

  -- A block of the chain goes to the storage.
  module _ (b : Block) (c : Core) (valid : IsValid c) (v : Carries g ps c)
      (known : Among ps b) where
    appended-Carries : lookup b.hash c.storage.blk_cache ≡ none → Carries g ps (appended b c)
    appended-Carries new =
        let (gb, hg, _) = valid.genesis in
        let old : c.b0 < length c.blocks = valid.cached g c.b0 v.origin in
        record {
          genesis =
              λ a h. v.genesis a (ground (arith, get_elem?-append_one c.blocks b c.b0, old, h));
          origin =
              ground (
                arith,
                lookup-insert b.hash g (length c.blocks) c.storage.blk_cache,
                v.origin,
                new,
              );
          others = λ r a h ne. elim (Bool-cases (length c.blocks == r)) [
            | inl last ↦
                let eq : a ≡ b = ground (arith, get_elem?-append_one c.blocks b r, h, last) in
                rw eq known
            | inr before ↦
                v.others r a (ground (arith, get_elem?-append_one c.blocks b r, h, before)) ne
          ];
          cached = λ h r a l at. elim (Bool-cases (b.hash == h)) [
            | inl same ↦
                let eq : length c.blocks ≡ r = ground (
                  arith,
                  lookup-insert b.hash h (length c.blocks) c.storage.blk_cache,
                  l,
                  same,
                  new,
                ) in
                let is : a ≡ b = ground (arith, get_elem?-append_one c.blocks b r, at, eq) in
                ap (λ x. x.hash) is ∙ (==_iff b.hash h).0 same
            | inr other ↦
                let l' : lookup h c.storage.blk_cache ≡ some r =
                  ground (
                    arith,
                    lookup-insert b.hash h (length c.blocks) c.storage.blk_cache,
                    l,
                    other,
                  ) in
                let below = valid.cached h r l' in
                v.cached h r a l' (ground (arith, get_elem?-append_one c.blocks b r, at, below))
          ];
        }

    pub add_new_blk-Carries : Carries g ps (add_new_blk b c).1
    add_new_blk-Carries = elim (Option-cases (lookup b.hash c.storage.blk_cache)) [
      | inl new ↦ rw (add_new_blk_fresh b c new) (appended-Carries new)
      | inr (q, l) ↦ rw (add_new_blk_known b c q l (valid.cached b.hash q l)) v
    ]

-- The height that a delivery computes is the one that was sent.
module _ (g : ℕ) (ps : List Block) (chain : IsChain g ps) (c : Core) (v : Carries g ps c) where
  parent_height :
      (k : ℕ) (p : Block) (h : ℕ) (hs : List ℕ) (r : ℕ) (pb : Block)
      → get_elem? ps k ≡ some p
      → p.parent_hashes ≡ h ∷ hs
      → lookup h c.storage.blk_cache ≡ some r
      → Holds c r pb
      → p.height ≡ (pb.height + 1) % 2 ^ 32
  parent_height k p h hs r pb at e l held =
      let (h', hs', e', link) = chain.linked k p at in
      let same : h' ≡ h = ground arith in
      let (lo, hi) = chain.above k p at in
      let hash : pb.hash ≡ h = v.cached h r pb l held in
      elim link [
        | inl (is_g, one) ↦
            let root : lookup g c.storage.blk_cache ≡ some r = rw (← is_g, same) l in
            let eq : r ≡ c.b0 = ground (arith, v.origin, root) in
            let low = (v.genesis pb (rw (← eq) held)).height in omega arith
        | inr (j, q, at_q, of, up) ↦ elim (Bool-cases (r == c.b0)) [
          | inl root ↦
              let eq : r ≡ c.b0 = (==_iff r c.b0).0 root in
              let of_g = (v.genesis pb (rw (← eq) held)).hash in
              absurd (chain.fresh j q at_q (of ∙ same ∙ sym hash ∙ of_g))
          | inr inner ↦
              let ne : r ≢ c.b0 = ground arith in
              let (i, x, at_x, s) = v.others r pb held ne in
              let eq : x ≡ q =
                chain.by_hash i j x q at_x at_q (sym s.hash ∙ hash ∙ sym same ∙ sym of) in
              let level : pb.height ≡ q.height = s.height ∙ ap (λ y. y.height) eq in omega arith
        ]
      ]

  pub on_deliver_blk-Alike :
      (r : ℕ) (c' : Core) (fresh : Bool)
      → IsValid c
      → on_deliver_blk r c ≡ ok (fresh, c')
      → Alike c c'
  on_deliver_blk-Alike r c' fresh valid e =
      let (b, h, o) = on_deliver_blk_cases r c c' fresh e in at fresh b h o
    where
      same_height :
          (b : Block) (x : List ℕ) (pb : Block)
          → b.height ≡ (pb.height + 1) % 2 ^ 32
          → IsSame b (delivered_blk b x pb)
      same_height b x pb e = record {
        parent_hashes = refl;
        cmds = refl;
        extra = refl;
        proposer = refl;
        height = sym e;
        hash = refl;
      }

      links_at :
          (b : Block) (hs : List ℕ) (p : ℕ) (rest : List ℕ) (pb : Block)
          → b.parent_hashes ≡ hs
          → Links c hs (p ∷ rest)
          → Holds c p pb
          → Among ps b
          → b.height ≡ (pb.height + 1) % 2 ^ 32
      links_at b [] p rest pb eq l hp (k, q, at_q, s) = absurd l
      links_at b (x ∷ xs) p rest pb eq l hp (k, q, at_q, s) =
          s.height ∙ parent_height k q x xs p pb at_q (sym s.parent_hashes ∙ eq) l.0.0 hp

      at : (f : Bool) (b : Block) → Holds c r b → Outcome f r b c c' → Alike c c'
      at false b h (old, eq) = rw eq (Alike-refl c)
      at true b h (new, (p, rest, pb, links, hp, eq)) =
          let (gb, hg, dg) = valid.genesis in
          let ne : r ≢ c.b0 = λ z.
            let two : Holds c r gb = rw z hg in let is : b ≡ gb = ground (arith, h, two) in cc in
          let same = links_at b b.parent_hashes p rest pb refl links hp (v.others r b h ne) in
          let b' = delivered_blk b (p ∷ rest) pb in
          rw eq (
            Alike-same c (put r b' c) _ (put-Alike c r h b' (same_height b (p ∷ rest) pb same)) refl
              refl refl)

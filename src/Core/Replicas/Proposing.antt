-- ===== src/Core/Replicas/Proposing.antt =====
-- A proposal extends the chain: `on_propose` on the parents that `get_parents` gives.
use libe2c_cpp.Prelude.{
  ℕ, zero, suc, ◌+◌, ◌%◌, ◌^◌, ◌<◌, ◌≡◌, ◌≢◌, refl, sym, inl, inr, List, [], ◌∷◌, Option, none,
  some, false, lookup, lookup-insert, length, get_elem?, get_elem?-append_last, arith, Result, ok,
  >>=-eq-ok, ◌==◌, ==_iff, Bool-cases, Option-cases,
}
use libe2c_cpp.Wire.{Salticidae}
use libe2c_cpp.Crypto.{PartCert}
use libe2c_cpp.Entity.{Block}
use libe2c_cpp.Entity.Codec.{serialize}
use libe2c_cpp.Core.{Core, set_erase_all, add_new_blk}
use libe2c_cpp.Core.History.{Holds, Extends}
use libe2c_cpp.Core.Invariant.{IsValid, Kept-same}
use libe2c_cpp.Core.Propose.{get_parents, get_hashes, next_height, make_block, publish, on_propose}
use libe2c_cpp.Core.Propose.Storing.{appended, add_new_blk_fresh, add_new_blk_known}
use libe2c_cpp.Core.Propose.Unchanged.{on_propose_hashes}
use libe2c_cpp.Core.Replicas.Sent.{IsSame-refl, Alike, Alike-refl, Alike-same}
use libe2c_cpp.Core.Replicas.Chain.{IsChain, Carries, Alike-Carries, add_new_blk-Carries}
use libe2c_cpp.Core.Propose.Storing.{add_new_blk-Kept}
use libe2c_cpp.Core.Propose.Safety.{on_propose-Kept}
use libe2c_cpp.Core.Replicas.Leader.{IsLeader, Carries-suc}
use libe2c_cpp.Core.Replicas.Head.{get_parents_head}
use libe2c_cpp.Core.Replicas.Quiet.{Quiet}
use libe2c_cpp.Core.Replicas.Publishing.{publish_lem}
use libe2c_cpp.Core.Replicas.Next.{leader_higher, IsNext, IsNext-IsChain}

module _ (w : Salticidae) (create_part_cert : ℕ → Result PartCert) (g : ℕ) (qs : List Block)
    (chain : IsChain g qs) where
  -- The new block is stored and published.
  stored_lem :
      (n : Block) (c c' : Core)
      → Carries g qs c
      → IsValid c
      → IsLeader qs c
      → IsNext g qs c n
      → n.hash ≡ w.digest (serialize w n)
      → n.delivered ≡ false
      → n.decision ≡ 0
      → n.commit_timer ≡ none
      → publish w create_part_cert (length c.blocks) (appended n c) ≡ ok c'
      → Extends c c'
      → IsChain g (n ∷ qs) × Carries g (n ∷ qs) c' × IsLeader (n ∷ qs) c' × (Quiet c → Quiet c')
  stored_lem n c c' v valid ld x hash new open_ unarmed e ext =
      let chain' = IsNext-IsChain g qs c n chain v ld x in
      let d = appended n c in
      let add : add_new_blk n c ≡ (length c.blocks, d) = add_new_blk_fresh n c x.new in
      let v_d : Carries g (n ∷ qs) d = rw add at (
        add_new_blk-Carries g (n ∷ qs) n c valid (Carries-suc g qs n c v)
          (0, n, refl, IsSame-refl n)) in
      let valid_d : IsValid d = rw add at ((add_new_blk-Kept n c new open_ unarmed valid).0) in
      let h : Holds d (length c.blocks) n = get_elem?-append_last c.blocks n in
      let (alike, (q, at), quiet) =
        publish_lem w create_part_cert g (n ∷ qs) (length c.blocks) n d c' chain' v_d valid_d h hash
          e in
      (
        chain',
        Alike-Carries g (n ∷ qs) d c' alike v_d,
        record { proposed = proposed q at; stored = stored alike },
        quiet,
      )
    where
      proposed :
          (q : ℕ)
          → lookup n.height c'.ht_blk_map ≡ some (some q)
          → (k : ℕ) (p : Block) → get_elem? (n ∷ qs) k ≡ some p
          → (r : ℕ) × (lookup p.height c'.ht_blk_map ≡ some (some r))
      proposed q at zero p e₁ = let is : n ≡ p = ground arith in (q, rw (← is) at)
      proposed q at (suc k) p e₁ = let (r, l) = ld.proposed k p e₁ in (r, ext.held p.height r l)

      stored :
          Alike (appended n c) c'
          → (k : ℕ) (p : Block) → get_elem? (n ∷ qs) k ≡ some p
          → (r : ℕ) × (lookup p.hash c'.storage.blk_cache ≡ some r)
      stored alike zero p e₁ =
          let is : n ≡ p = ground arith in
          let gone = x.new in
          (
            length c.blocks,
            rw (← is, alike.storage)
                (ground
                  (arith, lookup-insert n.hash n.hash (length c.blocks) c.storage.blk_cache, gone)),
          )
      stored alike (suc k) p e₁ =
          let (r, l) = ld.stored k p e₁ in
          let gone = x.new in
          (
            r,
            rw alike.storage (
                ground (
                  arith,
                  lookup-insert n.hash p.hash (length c.blocks) c.storage.blk_cache,
                  l,
                  gone,
                )),
          )

  -- What `on_propose` publishes.
  on_propose_store :
      (c c' : Core) (cmds : List ℕ) (ps : List (Option ℕ)) (r p : ℕ) (rs : List ℕ) (b : Block)
      (hs : List ℕ)
      → get_hashes c ps ≡ ok (p ∷ rs, b.hash ∷ hs)
      → Holds c p b
      → on_propose w create_part_cert cmds ps [] c ≡ ok (r, c')
      → let n =
          make_block w create_part_cert
            (p ∷ rs)
            (b.hash ∷ hs)
            cmds
            []
            ((b.height + 1) % 2 ^ 32)
            c.id in
        let x = add_new_blk n (record c { tails = set_erase_all (p ∷ rs) c.tails }) in
        (x.0 ≡ r) × (publish w create_part_cert x.0 x.1 ≡ ok c')
  unfolding on_propose next_height
  on_propose_store c c' cmds ps r p rs b hs hashed held run =
      let run' = rw (hashed, held) at run in
      let n =
        make_block w create_part_cert (p ∷ rs) (b.hash ∷ hs) cmds [] ((b.height + 1) % 2 ^ 32)
          c.id in
      let x = add_new_blk n (record c { tails = set_erase_all (p ∷ rs) c.tails }) in
      let (d, e, f) = >>=-eq-ok (publish w create_part_cert x.0 x.1) (λ c'. ok (x.0, c')) run' in
      let is : d ≡ c' = ground arith in (ground arith, rw is at e)

  -- The storage took the block, so its hash was new.
  unused :
      (n : Block) (c : Core) (r : ℕ)
      → (add_new_blk n c).0 ≡ r
      → r ≡ length c.blocks
      → ((q : ℕ) → lookup n.hash c.storage.blk_cache ≡ some q → q < length c.blocks)
      → lookup n.hash c.storage.blk_cache ≡ none
  unused n c r place new cached = elim (Option-cases (lookup n.hash c.storage.blk_cache)) [
    | inl gone ↦ gone
    | inr (q, l) ↦
        let below = cached q l in
        let at : (add_new_blk n c).0 ≡ q = rw (add_new_blk_known n c q l below) refl in
        absurd (omega (arith, at, place))
  ]

  linked-IsNext :
      (c : Core) (n b : Block) (p : ℕ) (hs : List ℕ) (mark : Block)
      → n.parent_hashes ≡ b.hash ∷ hs
      → n.height ≡ (b.height + 1) % 2 ^ 32
      → Carries g qs c
      → IsValid c
      → IsLeader qs c
      → Holds c c.b_mark mark
      → mark.height + 1 < 2 ^ 32
      → Holds c p b
      → b.height ≡ mark.height
      → lookup n.hash c.storage.blk_cache ≡ none
      → IsNext g qs c n
  linked-IsNext c n b p hs mark parents at v valid ld hm room held level fresh =
      let up : n.height ≡ mark.height + 1 = omega arith in
      record {
        height = λ k q e. omega (arith, leader_higher qs c mark valid ld hm k q e, up);
        new = fresh;
        low = omega arith;
        high = omega arith;
        link = elim (Bool-cases (p == c.b0)) [
          | inl root ↦
              let is : p ≡ c.b0 = (==_iff p c.b0).0 root in
              let root = v.genesis b (rw is at held) in
              (b.hash, hs, parents, inl (root.hash, omega (arith, root.height, up)))
          | inr inner ↦
              let ne : p ≢ c.b0 = ground arith in
              let (k, q, at_q, s) = v.others p b held ne in
              (b.hash, hs, parents, inr (k, q, at_q, sym s.hash, omega (arith, s.height, up)))
        ];
      }

  -- A proposal of the leader, on what `get_parents` gives, extends the chain by one block.
  pub proposed_lem :
      (c c₁ c' : Core) (cmds : List ℕ) (ps : List (Option ℕ)) (r : ℕ) (mark : Block)
      → Carries g qs c
      → IsValid c
      → IsLeader qs c
      → get_parents c ≡ ok (ps, c₁)
      → on_propose w create_part_cert cmds ps [] c₁ ≡ ok (r, c')
      → Holds c c.b_mark mark
      → mark.height + 1 < 2 ^ 32
      → r ≡ length c.blocks
      → (n : Block) × (n.hash ≡ w.digest (serialize w n))
        × IsChain g (n ∷ qs)
        × Carries g (n ∷ qs) c'
        × IsLeader (n ∷ qs) c'
        × IsValid c'
        × (Quiet c → Quiet c')
  unfolding make_block
  proposed_lem c c₁ c' cmds ps r mark v valid ld parents run hm room new =
      let (hs, hashed) = on_propose_hashes w create_part_cert cmds ps [] c₁ (r, c') run in
      let (same, p, b, rs, hs', held, eq, level) =
        get_parents_head g qs c c₁ ps hs mark valid v hm parents hashed in
      let run' = rw same at run in
      let hashed' : get_hashes c ps ≡ ok (p ∷ rs, b.hash ∷ hs') = rw (same, eq) at hashed in
      let kept = on_propose-Kept w create_part_cert cmds ps [] r c c' run' valid in
      let n =
        make_block w create_part_cert (p ∷ rs) (b.hash ∷ hs') cmds [] ((b.height + 1) % 2 ^ 32)
          c.id in
      let c₀ = record c { tails = set_erase_all (p ∷ rs) c.tails } in
      let (place, published) = on_propose_store c c' cmds ps r p rs b hs' hashed' held run' in
      let fresh = unused n c₀ r place new (λ q l. valid.cached n.hash q l) in
      let next₀ = linked-IsNext c n b p hs' mark refl refl v valid ld hm room held level fresh in
      let next : IsNext g qs c₀ n = record {
        height = next₀.height;
        new = fresh;
        low = next₀.low;
        high = next₀.high;
        link = next₀.link;
      } in
      let hash : n.hash ≡ w.digest (serialize w n) = refl in
      let add = add_new_blk_fresh n c₀ fresh in
      let valid₀ = (Kept-same c c₀ refl refl refl refl refl valid).0 in
      let published' : publish w create_part_cert (length c.blocks) (appended n c₀) ≡ ok c' =
        rw add at published in
      let ext : Extends c₀ c' = record {
        genesis = kept.1.genesis;
        blocks = kept.1.blocks;
        held = kept.1.held;
      } in
      let (chain', v', ld', quiet) =
        stored_lem n c₀ c'
          (Alike-Carries g qs c c₀ (Alike-same c c c₀ (Alike-refl c) refl refl refl) v) valid₀
          (record { proposed = ld.proposed; stored = ld.stored }) next hash refl refl refl
          published' ext in
      (n, refl, chain', v', ld', kept.0, quiet)

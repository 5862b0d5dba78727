-- ===== src/Core/Update/Safety.antt =====
-- `update` of a delivered block keeps the invariant and the history.
use libe2c_cpp.Prelude.{
  ℕ, ◌*◌, ◌≡◌, refl, Option, none, some, true, lookup, assign, lookup-assign, length-set, arith, ok,
  ltb, ◌==◌, ==_iff, ==-refl, Bool-cases, inl, inr, ltb→lt,
}
use libe2c_cpp.Entity.{Block, Timer}
use libe2c_cpp.Core.{Core, put}
use libe2c_cpp.Core.History.{
  Holds, Keeps, Extends, Extends-refl, Extends-same, put-Extends, Holds-put, get-put,
}
use libe2c_cpp.Core.Invariant.{
  IsValid, IsHeld, IsMarked, IsHeld-mono, genesis_mono, put-IsChained, put-decided,
}
use libe2c_cpp.Core.Update.{install, update}
use libe2c_cpp.Core.Update.Cases.{UpdateCase, installed, repeated, conflict, update-UpdateCase}

abbrev timed : Core → Block → Block
timed c nblk = record nblk {
  commit_timer = some (record { for_height = nblk.height; delay = 2 * c.delta });
}

timed-Keeps : (c : Core) (b : Block) → Keeps b (timed c b)
timed-Keeps c b = record {
  delivered = λ h. h;
  height = λ h. refl;
  parents = λ h. refl;
  decided = λ h. h;
}

module _ (r : ℕ) (nblk mark : Block) (c : Core) (h : Holds c r nblk) (hm : Holds c c.b_mark mark)
    (free : lookup nblk.height c.ht_blk_map ≡ none) where
  install-Extends : Extends c (install r nblk mark c)
  unfolding install
  install-Extends =
      let e = put-Extends c r h (timed c nblk) (timed-Keeps c nblk) in
      record { genesis = refl; blocks = e.blocks; held = at }
    where
      at :
          (ht q : ℕ)
          → lookup ht c.ht_blk_map ≡ some (some q)
          → lookup ht (assign nblk.height (some r) c.ht_blk_map) ≡ some (some q)
      at ht q l = ground (arith, lookup-assign nblk.height ht (some r) c.ht_blk_map)

  install-IsMarked : IsValid c → nblk.delivered ≡ true → IsMarked (install r nblk mark c)
  unfolding install
  install-IsMarked v d =
      let e = put-Extends c r h (timed c nblk) (timed-Keeps c nblk) in
      let (b, hb, db, at, top) = v.marked in
      let same : b ≡ mark = ground arith in
      elim (Bool-cases (ltb mark.height nblk.height)) [
        | inl up ↦
            let higher = ltb→lt mark.height nblk.height up in
            rw up (
              timed c nblk,
              Holds-put c r h (timed c nblk),
              d,
              rw (lookup-assign nblk.height nblk.height (some r) c.ht_blk_map, ==-refl nblk.height)
                  refl,
              λ ht p l. ground (
                arith,
                lookup-assign nblk.height ht (some r) c.ht_blk_map,
                top ht p,
                same,
                higher,
              ),
            )
        | inr down ↦
            let (b', h', k) = e.blocks c.b_mark b hb in
            rw down (
              b',
              h',
              k.delivered db,
              ground (
                arith,
                lookup-assign nblk.height b'.height (some r) c.ht_blk_map,
                k.height db,
                at,
              ),
              λ ht p l. ground (
                arith,
                lookup-assign nblk.height ht (some r) c.ht_blk_map,
                top ht p,
                same,
                k.height db,
              ),
            )
      ]

  install-IsHeld :
      IsValid c
      → nblk.delivered ≡ true
      → (ht : ℕ) (p : Option ℕ) → lookup ht (install r nblk mark c).ht_blk_map ≡ some p
      → IsHeld (install r nblk mark c) ht p
  unfolding install
  install-IsHeld v d ht p l = elim (Bool-cases (nblk.height == ht)) [
    | inl same ↦
        let eq : p ≡ some r =
          ground (arith, lookup-assign nblk.height ht (some r) c.ht_blk_map, l, same) in
        (r, timed c nblk, eq, Holds-put c r h (timed c nblk), (==_iff nblk.height ht).0 same, d)
    | inr other ↦
        let old : lookup ht c.ht_blk_map ≡ some p =
          ground (arith, lookup-assign nblk.height ht (some r) c.ht_blk_map, l, other) in
        IsHeld-mono {c' = put r (timed c nblk) c}
          (put-Extends c r h (timed c nblk) (timed-Keeps c nblk)) ht p (v.held ht p old)
  ]

  install-armed :
      IsValid c
      → (j : ℕ) (a : Block) (t : Timer) → Holds (install r nblk mark c) j a
      → a.commit_timer ≡ some t
      → lookup t.for_height (install r nblk mark c).ht_blk_map ≡ some (some j)
  unfolding install
  install-armed v j a t e d = elim (Bool-cases (r == j)) [
    | inl same ↦
        let eq : a ≡ timed c nblk = ground (arith, e, get-put c r h (timed c nblk) j, same) in
        ground (
          arith,
          lookup-assign nblk.height t.for_height (some r) c.ht_blk_map,
          d,
          eq,
          (==_iff r j).0 same,
        )
    | inr other ↦
        let old : Holds c j a = ground (arith, e, get-put c r h (timed c nblk) j, other) in
        install-Extends.held t.for_height j (v.armed j a t old d)
  ]

  install-IsValid : IsValid c → nblk.delivered ≡ true → IsValid (install r nblk mark c)
  unfolding install
  install-IsValid v d = record {
    genesis = genesis_mono install-Extends v;
    marked = install-IsMarked v d;
    held = install-IsHeld v d;
    cached = λ g s e. rw (length-set c.blocks r (timed c nblk)) (v.cached g s e);
    chained =
        put-IsChained v r h (timed c nblk) (timed-Keeps c nblk) (λ _ ne. v.chained r nblk h d ne);
    decided = λ j a e x.
        install-Extends.held a.height j (
          put-decided v r h (timed c nblk) (timed-Keeps c nblk) (λ y. v.decided r nblk h y) j a e
            x);
    armed = install-armed v;
  }

pub update-IsValid :
    (r : ℕ) (c c' : Core) (b : Block)
    → update r c ≡ ok c'
    → Holds c r b
    → b.delivered ≡ true
    → IsValid c
    → IsValid c' × Extends c c'
update-IsValid r c c' b e h d v =
    let (nblk, hn, case) = update-UpdateCase r c c' e in
    let same : b ≡ nblk = ground arith in kept nblk hn (rw (← same) d) case
  where
    kept :
        (n : Block)
        → Holds c r n
        → n.delivered ≡ true
        → UpdateCase r n c c'
        → IsValid c' × Extends c c'
    kept n hn dn (installed mark free hm eq) = (
      rw eq (install-IsValid r n mark c hn hm free v dn),
      rw eq (install-Extends r n mark c hn hm free),
    )
    kept n hn dn (repeated q old l ho same eq) = (rw eq v, rw eq (Extends-refl c))
    kept n hn dn (conflict q old l ho other eq) = (
      rw eq (record {
        genesis = v.genesis;
        marked = v.marked;
        held = v.held;
        cached = v.cached;
        chained = v.chained;
        decided = v.decided;
        armed = v.armed;
      }),
      rw eq (Extends-same (Extends-refl c) refl refl refl),
    )

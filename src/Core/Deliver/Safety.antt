-- ===== src/Core/Deliver/Safety.antt =====
-- Delivery keeps the invariant and the history.
use libe2c_cpp.Prelude.{ℕ, ◌≡◌, refl, List, [], ◌∷◌, some, true, false, Bool, length-set, arith, ok}
use libe2c_cpp.Entity.{Block}
use libe2c_cpp.Core.{Core, put, set_insert, set_erase_all}
use libe2c_cpp.Core.History.{Holds, Keeps, Extends, Extends-same, Extends-refl, put-Extends}
use libe2c_cpp.Core.Invariant.{
  IsValid, IsChained, carry-IsValid, put-IsChained, put-decided, put-armed,
}
use libe2c_cpp.Core.Deliver.{on_deliver_blk}
use libe2c_cpp.Core.Deliver.Links.{Links, delivered_blk, IsDelivery, Outcome, on_deliver_blk_cases}

Links-head :
    (c : Core) (hs : List ℕ) (p : ℕ) (rest : List ℕ)
    → Links c hs (p ∷ rest)
    → (b : Block) × Holds c p b × (b.delivered ≡ true)
Links-head c [] p rest l = absurd l
Links-head c (h ∷ hs) p rest l = let (at, b, hb, d) = l.0 in (b, hb, d)

module _ (r : ℕ) (blk : Block) (c c' : Core) (h : Holds c r blk) (new : blk.delivered ≡ false)
    (d : IsDelivery r blk c c') where
  delivered_blk-Keeps :
      (v : IsValid c) (ps : List ℕ) (pb : Block) → Keeps blk (delivered_blk blk ps pb)
  delivered_blk-Keeps v ps pb = record {
    delivered = λ e. refl;
    height = λ e. cc;
    parents = λ e. cc;
    decided = λ e. e;
  }

  -- A decided block is in the map, and so delivered.
  not_decided : IsValid c → blk.decision ≡ 1 → ⊥
  not_decided v e =
      let (q, b, eq, hq, at, dq) = v.held blk.height (some r) (v.decided r blk h e) in ground arith

  pub IsDelivery-Extends : IsValid c → Extends c c'
  IsDelivery-Extends v =
      let (p, rest, pb, links, hp, eq) = d in
      let k = delivered_blk-Keeps v (p ∷ rest) pb in
      rw eq (Extends-same (put-Extends c r h (delivered_blk blk (p ∷ rest) pb) k) refl refl refl)

  pub IsDelivery-IsValid : IsValid c → IsValid c'
  IsDelivery-IsValid v =
      let (p, rest, pb, links, hp, eq) = d in
      let b' = delivered_blk blk (p ∷ rest) pb in
      let k = delivered_blk-Keeps v (p ∷ rest) pb in
      let (q, hq, dq) = Links-head c blk.parent_hashes p rest links in
      let same : pb ≡ q = ground arith in
      let chain : IsChained c b' = (p, rest, pb, refl, hp, rw same dq, refl) in
      rw eq (
        carry-IsValid
          (Extends-same {c = c} {d = put r b' c}
            {e = record (put r b' c) { tails = set_insert r (set_erase_all (p ∷ rest) c.tails) }}
            (put-Extends c r h b' k) refl refl refl)
          v refl refl (λ g s e. rw (length-set c.blocks r b') (v.cached g s e))
          (put-IsChained v r h b' k (λ _ _. chain))
          (put-decided v r h b' k (λ e. absurd (not_decided v e)))
          (put-armed v r h b' k (λ t e. v.armed r blk t h e)))

-- Delivering a block keeps the invariant.
pub on_deliver_blk-IsValid :
    (r : ℕ) (c c' : Core) (fresh : Bool)
    → on_deliver_blk r c ≡ ok (fresh, c')
    → IsValid c
    → IsValid c' × Extends c c'
on_deliver_blk-IsValid r c c' fresh e v =
    let (b, h, o) = on_deliver_blk_cases r c c' fresh e in kept fresh b h o
  where
    kept : (f : Bool) (b : Block) → Holds c r b → Outcome f r b c c' → IsValid c' × Extends c c'
    kept true b h (new, d) =
        (IsDelivery-IsValid r b c c' h new d v, IsDelivery-Extends r b c c' h new d v)
    kept false b h (old, eq) = (rw eq v, rw eq (Extends-refl c))

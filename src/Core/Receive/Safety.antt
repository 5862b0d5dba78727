-- ===== src/Core/Receive/Safety.antt =====
-- Receiving a proposal keeps the invariant and the history; a repeated one does nothing.
use libe2c_cpp.Prelude.{
  ℕ, ◌≡◌, refl, Option, none, some, true, lookup, ◌==◌, ==_iff, Bool-cases, inl, inr, arith, ok,
  null_pointer, >>=-eq-ok, or_fail-eq-ok,
}
use libe2c_cpp.Entity.{Block}
use libe2c_cpp.Core.{Core, deref, emit, broadcast_proposal, resolve_receive_proposal}
use libe2c_cpp.Core.History.{Holds, Extends-refl}
use libe2c_cpp.Core.Invariant.{IsValid, Kept, Kept-trans, emit-Kept}
use libe2c_cpp.Core.Update.{update}
use libe2c_cpp.Core.Update.Safety.{update-IsValid}
use libe2c_cpp.Core.Deliver.{sanity_check_delivered}
use libe2c_cpp.Core.Receive.{accept, receive_at, on_receive_proposal}

-- The two ways in which a call succeeds.
pub data ReceiveCase (r : ℕ) (b : Block) (c c' : Core) : Type 0 where
  discarded :
      (q : ℕ) (old : Block)
      → lookup b.height c.ht_blk_map ≡ some (some q)
      → Holds c q old
      → old.hash ≡ b.hash
      → c' ≡ c
      → ReceiveCase r b c c'
  accepted :
      (d : Core)
      → update r c ≡ ok d
      → c' ≡ emit (resolve_receive_proposal r) (emit (broadcast_proposal r) d)
      → ReceiveCase r b c c'

accept-ReceiveCase : (r : ℕ) (b : Block) (c c' : Core) → accept r c ≡ ok c' → ReceiveCase r b c c'
unfolding accept
accept-ReceiveCase r b c c' e =
    let (d, e₁, e₂) = >>=-eq-ok (update r c) _ e in accepted d e₁ (ground arith)

receive_at-ReceiveCase :
    (o : Option (Option ℕ)) (r : ℕ) (b : Block) (c c' : Core)
    → lookup b.height c.ht_blk_map ≡ o
    → receive_at o r b c ≡ ok c'
    → ReceiveCase r b c c'
unfolding receive_at
receive_at-ReceiveCase none r b c c' l e = accept-ReceiveCase r b c c' e
receive_at-ReceiveCase (some none) r b c c' l e = cc
receive_at-ReceiveCase (some (some q)) r b c c' l e =
    let (old, at, e₁) = >>=-eq-ok (deref c q) _ e in
    let h = or_fail-eq-ok _ null_pointer at in
    elim (Bool-cases (old.hash == b.hash)) [
      | inl same ↦ discarded q old l h ((==_iff old.hash b.hash).0 same) (ground (arith, e₁, same))
      | inr other ↦ accept-ReceiveCase r b c c' (ground (arith, e₁, other))
    ]

sanity_check-eq-ok :
    (b : Block) {u : Unit {0}} → sanity_check_delivered b ≡ ok u → b.delivered ≡ true
unfolding sanity_check_delivered
sanity_check-eq-ok b e = ground arith

pub on_receive_proposal_cases :
    (r : ℕ) (c c' : Core)
    → on_receive_proposal r c ≡ ok c'
    → (b : Block) × Holds c r b × (b.delivered ≡ true) × ReceiveCase r b c c'
unfolding on_receive_proposal
on_receive_proposal_cases r c c' e =
    let (b, at, e₁) = >>=-eq-ok (deref c r) _ e in
    let (u, d, e₂) = >>=-eq-ok (sanity_check_delivered b) _ e₁ in
    (
      b,
      or_fail-eq-ok _ null_pointer at,
      sanity_check-eq-ok b d,
      receive_at-ReceiveCase (lookup b.height c.ht_blk_map) r b c c' refl e₂,
    )

pub on_receive_proposal-Kept :
    (r : ℕ) (c c' : Core) → on_receive_proposal r c ≡ ok c' → IsValid c → Kept c c'
on_receive_proposal-Kept r c c' e v =
    let (b, h, d, case) = on_receive_proposal_cases r c c' e in kept b h d case
  where
    kept : (b : Block) → Holds c r b → b.delivered ≡ true → ReceiveCase r b c c' → Kept c c'
    kept b h d (discarded q old l ho same eq) = (rw eq v, rw eq (Extends-refl c))
    kept b h d (accepted m u eq) =
        rw eq
          (Kept-trans (Kept-trans (update-IsValid r c m b u h d v) (emit-Kept _ m)) (emit-Kept _ _))

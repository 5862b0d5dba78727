-- ===== src/Core/Update/Cases.antt =====
-- The outcomes of `update` that do not fault.
use libe2c_cpp.Prelude.{
  ℕ, ◌≡◌, refl, Option, none, some, false, lookup, ◌==◌, arith, ok, null_pointer, >>=-eq-ok,
  or_fail-eq-ok, Bool-cases, inl, inr,
}
use libe2c_cpp.Entity.{Block}
use libe2c_cpp.Core.{Core, deref, emit, equivocation}
use libe2c_cpp.Core.History.{Holds}
use libe2c_cpp.Core.Update.{install, update_at, update}

-- The height was free; or the map has this block there; or it has another.
pub data UpdateCase (r : ℕ) (nblk : Block) (c c' : Core) : Type 0 where
  installed :
      (mark : Block)
      → lookup nblk.height c.ht_blk_map ≡ none
      → Holds c c.b_mark mark
      → c' ≡ install r nblk mark c
      → UpdateCase r nblk c c'
  repeated :
      (q : ℕ) (old : Block)
      → lookup nblk.height c.ht_blk_map ≡ some (some q)
      → Holds c q old
      → old.hash ≡ nblk.hash
      → c' ≡ c
      → UpdateCase r nblk c c'
  conflict :
      (q : ℕ) (old : Block)
      → lookup nblk.height c.ht_blk_map ≡ some (some q)
      → Holds c q old
      → (old.hash == nblk.hash) ≡ false
      → c' ≡ emit (equivocation nblk.height) c
      → UpdateCase r nblk c c'

update_at-UpdateCase :
    (e : Option (Option ℕ)) (r : ℕ) (nblk : Block) (c c' : Core)
    → lookup nblk.height c.ht_blk_map ≡ e
    → update_at e r nblk c ≡ ok c'
    → UpdateCase r nblk c c'
unfolding update_at
update_at-UpdateCase none r nblk c c' l e =
    let (mark, at, e₁) = >>=-eq-ok (deref c c.b_mark) _ e in
    installed mark l (or_fail-eq-ok _ null_pointer at) (ground arith)
update_at-UpdateCase (some none) r nblk c c' l e = cc
update_at-UpdateCase (some (some q)) r nblk c c' l e =
    let (old, at, e₁) = >>=-eq-ok (deref c q) _ e in
    let h = or_fail-eq-ok _ null_pointer at in
    elim (Bool-cases (old.hash == nblk.hash)) [
      | inl same ↦ repeated q old l h (ground arith) (ground (arith, e₁, same))
      | inr other ↦ conflict q old l h other (ground (arith, e₁, other))
    ]

pub update-UpdateCase :
    (r : ℕ) (c c' : Core)
    → update r c ≡ ok c'
    → (nblk : Block) × Holds c r nblk × UpdateCase r nblk c c'
unfolding update
update-UpdateCase r c c' e =
    let (nblk, at, e₁) = >>=-eq-ok (deref c r) _ e in
    (
      nblk,
      or_fail-eq-ok _ null_pointer at,
      update_at-UpdateCase (lookup nblk.height c.ht_blk_map) r nblk c c' refl e₁,
    )

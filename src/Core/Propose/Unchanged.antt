-- ===== src/Core/Propose/Unchanged.antt =====
-- A proposal that succeeds has found a block at every height: `get_parents` has inserted nothing.
use libe2c_cpp.Prelude.{
  ℕ, zero, suc, ◌≡◌, refl, ◌∙◌, ap, List, Option, some, arith, Result, ok, >>=-eq-ok, or_fail-eq-ok,
  null_pointer, Assoc, or_fail,
}
use libe2c_cpp.Wire.{Salticidae}
use libe2c_cpp.Crypto.{PartCert}
use libe2c_cpp.Core.{Core, deref}
use libe2c_cpp.Core.Propose.{index_map, parents_from, get_parents, get_hashes, on_propose}

-- Heights are only inserted with null pointers, which `get_hashes` does not survive.
index_map_same :
    (ht r : ℕ) (m : Assoc (Option ℕ)) → (index_map ht m).0 ≡ some r → (index_map ht m).1 ≡ m
unfolding index_map
index_map_same ht r m e = ground arith

parents_from_same :
    (b0 ht : ℕ) (m : Assoc (Option ℕ)) (c : Core) (x : List ℕ × List ℕ)
    → get_hashes c (parents_from b0 ht m).0 ≡ ok x
    → (parents_from b0 ht m).1 ≡ m
unfolding parents_from get_hashes
parents_from_same b0 zero m c x e = refl
parents_from_same b0 (suc ht) m c x e =
    let at = index_map (suc ht) m in
    let (r, e₁, f₁) = >>=-eq-ok (or_fail at.0 null_pointer) _ e in
    let (b, e₂, f₂) = >>=-eq-ok (deref c r) _ f₁ in
    let (y, e₃, f₃) = >>=-eq-ok (get_hashes c (parents_from b0 ht at.1).0) _ f₂ in
    parents_from_same b0 ht at.1 c y e₃
    ∙ index_map_same (suc ht) r m (or_fail-eq-ok at.0 null_pointer e₁)

pub get_parents_same :
    (c : Core) (y : List (Option ℕ) × Core) (x : List ℕ × List ℕ)
    → get_parents c ≡ ok y
    → get_hashes y.1 y.0 ≡ ok x
    → y.1 ≡ c
unfolding get_parents
get_parents_same c y x e known =
    let (mark, e₁, f₁) = >>=-eq-ok (deref c c.b_mark) _ e in
    let z = parents_from c.b0 mark.height c.ht_blk_map in
    let eq : y ≡ (z.0, record c { ht_blk_map = z.1 }) = ground arith in
    let all : get_hashes (record c { ht_blk_map = z.1 }) z.0 ≡ ok x = rw eq at known in
    let same : z.1 ≡ c.ht_blk_map = parents_from_same c.b0 mark.height c.ht_blk_map _ x all in
    rw eq (ap (λ m. record c { ht_blk_map = m }) same)

module _ (w : Salticidae) (create_part_cert : ℕ → Result PartCert) where
  pub on_propose_hashes :
      (cmds : List ℕ) (ps : List (Option ℕ)) (extra : List ℕ) (c : Core) (x : ℕ × Core)
      → on_propose w create_part_cert cmds ps extra c ≡ ok x
      → (y : List ℕ × List ℕ) × (get_hashes c ps ≡ ok y)
  unfolding on_propose
  on_propose_hashes cmds ps extra c x e =
      let (y, e₁, f₁) = >>=-eq-ok (get_hashes c ps) _ e in (y, e₁)

-- ===== src/Core/Deliver/Links.antt =====
-- What a successful delivery found: the parents, each delivered and stored under its hash, and the
-- block that it wrote.
use libe2c_cpp.Prelude.{
  ℕ, ◌+◌, ◌%◌, ◌^◌, ◌≡◌, refl, List, [], ◌∷◌, some, true, false, Bool, lookup, arith, ok, >>=-eq-ok,
  or_fail-eq-ok, guard, not_delivered, null_pointer, or_fail,
}
use libe2c_cpp.Entity.{Block}
use libe2c_cpp.Entity.Storage
use libe2c_cpp.Core.{Core, deref, put, set_insert, set_erase_all}
use libe2c_cpp.Core.History.{Holds}
use libe2c_cpp.Core.Deliver.{
  get_delivered_blk, get_delivered_blks, first_of_parents, deliver, deliver_unless, on_deliver_blk,
}

-- The block that the storage has under a hash, delivered.
abbrev pub IsLink : Core → ℕ → ℕ → Type 0
IsLink c h r =
    (lookup h c.storage.blk_cache ≡ some r) × (b : Block) × Holds c r b × (b.delivered ≡ true)

abbrev pub Links : Core → List ℕ → List ℕ → Type 0
Links c [] [] = Unit {0}
Links c (h ∷ hs) (r ∷ rs) = IsLink c h r × Links c hs rs
Links c _ _ = ⊥

guard-eq-ok : (t : Bool) {u : Unit {0}} → guard t not_delivered ≡ ok u → t ≡ true
guard-eq-ok true e = refl
guard-eq-ok false e = cc

pub get_delivered_blk-IsLink : (c : Core) (h r : ℕ) → get_delivered_blk c h ≡ ok r → IsLink c h r
unfolding get_delivered_blk Storage.find_blk
get_delivered_blk-IsLink c h r e =
    let (q, found, e₁) = >>=-eq-ok (or_fail (lookup h c.storage.blk_cache) not_delivered) _ e in
    let (b, at, e₂) = >>=-eq-ok (deref c q) _ e₁ in
    let (u, d, e₃) = >>=-eq-ok (guard b.delivered not_delivered) _ e₂ in
    let same : q ≡ r = ground arith in
    (
      rw (← same) (or_fail-eq-ok _ not_delivered found),
      b,
      rw (← same) (or_fail-eq-ok _ null_pointer at),
      guard-eq-ok b.delivered d,
    )

pub get_delivered_blks-Links :
    (c : Core) (hs rs : List ℕ) → get_delivered_blks c hs ≡ ok rs → Links c hs rs
unfolding get_delivered_blks
get_delivered_blks-Links c [] [] e = tt
get_delivered_blks-Links c [] (r ∷ rs) e = cc
get_delivered_blks-Links c (h ∷ hs) rs e =
    let (q, e₁, e₂) = >>=-eq-ok (get_delivered_blk c h) _ e in
    let (qs, e₃, e₄) = >>=-eq-ok (get_delivered_blks c hs) _ e₂ in
    let same : rs ≡ q ∷ qs = ground arith in
    rw same (get_delivered_blk-IsLink c h q e₁, get_delivered_blks-Links c hs qs e₃)

first_of_parents-cons :
    (ps : List ℕ) {p : ℕ} → first_of_parents ps ≡ ok p → (rest : List ℕ) × (ps ≡ p ∷ rest)
unfolding first_of_parents
first_of_parents-cons [] e = cc
first_of_parents-cons (q ∷ rest) e = (rest, ground arith)

abbrev pub delivered_blk : Block → List ℕ → Block → Block
delivered_blk blk ps pblk = record blk {
  parents = ps;
  height = (pblk.height + 1) % 2 ^ 32;
  delivered = true;
}

-- What a delivery has done to the state.
abbrev pub IsDelivery : ℕ → Block → Core → Core → Type 0
IsDelivery r blk c c' =
    (p : ℕ) × (rest : List ℕ) × (pb : Block) × Links c blk.parent_hashes (p ∷ rest)
    × Holds c p pb
    × (c' ≡ record (put r (delivered_blk blk (p ∷ rest) pb) c) {
      tails = set_insert r (set_erase_all (p ∷ rest) c.tails);
    })

pub deliver-IsDelivery :
    (r : ℕ) (blk : Block) (c c' : Core) → deliver r blk c ≡ ok c' → IsDelivery r blk c c'
unfolding deliver
deliver-IsDelivery r blk c c' e =
    let (ps, e₁, e₂) = >>=-eq-ok (get_delivered_blks c blk.parent_hashes) _ e in
    let (p, e₃, e₄) = >>=-eq-ok (first_of_parents ps) _ e₂ in
    let (pb, e₅, e₆) = >>=-eq-ok (deref c p) _ e₄ in
    let (rest, same) = first_of_parents-cons ps e₃ in
    (
      p,
      rest,
      pb,
      rw (← same) (get_delivered_blks-Links c blk.parent_hashes ps e₁),
      or_fail-eq-ok _ null_pointer e₅,
      ground arith,
    )

-- A call either finds the block delivered and changes nothing, or delivers it.
abbrev pub Outcome : Bool → ℕ → Block → Core → Core → Type 0
Outcome true r b c c' = (b.delivered ≡ false) × IsDelivery r b c c'
Outcome false r b c c' = (b.delivered ≡ true) × (c' ≡ c)

deliver_unless-Outcome :
    (t : Bool) (r : ℕ) (b : Block) (c c' : Core) (fresh : Bool)
    → b.delivered ≡ t
    → deliver_unless t r b c ≡ ok (fresh, c')
    → Outcome fresh r b c c'
unfolding deliver_unless
deliver_unless-Outcome true r b c c' true d e = cc
deliver_unless-Outcome true r b c c' false d e = (d, ground arith)
deliver_unless-Outcome false r b c c' true d e =
    let (x, e₁, e₂) = >>=-eq-ok (deliver r b c) _ e in
    let at : x ≡ c' = ground arith in (d, deliver-IsDelivery r b c c' (rw (← at) e₁))
deliver_unless-Outcome false r b c c' false d e =
    let (x, e₁, e₂) = >>=-eq-ok (deliver r b c) _ e in cc

pub on_deliver_blk_cases :
    (r : ℕ) (c c' : Core) (fresh : Bool)
    → on_deliver_blk r c ≡ ok (fresh, c')
    → (b : Block) × Holds c r b × Outcome fresh r b c c'
unfolding on_deliver_blk
on_deliver_blk_cases r c c' fresh e =
    let (b, at, e₁) = >>=-eq-ok (deref c r) _ e in
    (b, or_fail-eq-ok _ null_pointer at, deliver_unless-Outcome b.delivered r b c c' fresh refl e₁)

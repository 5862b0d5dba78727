-- ===== src/Net/Async/Received.antt =====
-- What a message adds to the core: blocks that are fetched, one by one.
use libe2c_cpp.Prelude.{ℕ, zero, suc, ◌≡◌, refl, List, none, false, arith, Result, ok, >>=-eq-ok}
use libe2c_cpp.Wire.{Salticidae, read_size, read_hashes}
use libe2c_cpp.Crypto.{Secp256k1, PartCert, parse_part_cert}
use libe2c_cpp.Entity.{Block}
use libe2c_cpp.Entity.Codec.{unserialize, read_extra, read_proposal}
use libe2c_cpp.Core.{Core, add_new_blk}
use libe2c_cpp.Core.System.{Step, Reach, fetch, here, next}
use libe2c_cpp.Net.Handlers.{parse_blks, parse_resp_block}
use libe2c_cpp.Net.Async.{parse_proposal}

-- A block from a message is neither delivered nor decided, and no timer runs for it.
abbrev pub IsNew : Block → Type 0
IsNew b = (b.delivered ≡ false) × (b.decision ≡ 0) × (b.commit_timer ≡ none)

unserialize-IsNew :
    (w : Salticidae) (s : List ℕ) (x : Block × List ℕ) → unserialize w s ≡ ok x → IsNew x.0
unfolding unserialize
unserialize-IsNew w s x e =
    let (p, e₁, f₁) = >>=-eq-ok (read_size w s) _ e in
    let (h, e₂, f₂) = >>=-eq-ok (read_size w p.1) _ f₁ in
    let (n, e₃, f₃) = >>=-eq-ok (read_size w h.1) _ f₂ in
    let (hs, e₄, f₄) = >>=-eq-ok (read_hashes w n.0 n.1) _ f₃ in
    let (m, e₅, f₅) = >>=-eq-ok (read_size w hs.1) _ f₄ in
    let (cs, e₆, f₆) = >>=-eq-ok (read_hashes w m.0 m.1) _ f₅ in
    let (k, e₇, f₇) = >>=-eq-ok (read_size w cs.1) _ f₆ in
    let (ex, e₈, f₈) = >>=-eq-ok (read_extra w k.0 k.1) _ f₇ in
    (ground (arith, f₈), ground (arith, f₈), ground (arith, f₈))

pub read_proposal-IsNew :
    (w : Salticidae) (l : Secp256k1) (s : List ℕ) (x : Block × List ℕ)
    → read_proposal w l s ≡ ok x
    → IsNew x.0
unfolding read_proposal
read_proposal-IsNew w l s x e =
    let (b, e₁, f₁) = >>=-eq-ok (unserialize w s) _ e in
    let (cert, e₂, f₂) = >>=-eq-ok (parse_part_cert w l b.1) _ f₁ in
    let (d, o, t) = unserialize-IsNew w s b e₁ in
    (ground (arith, f₂, d), ground (arith, f₂, o), ground (arith, f₂, t))

module _ {w : Salticidae} {create_part_cert : ℕ → Result PartCert} where
  pub Reach-trans :
      {c d e : Core}
      → Reach w create_part_cert c d
      → Reach w create_part_cert d e
      → Reach w create_part_cert c e
  Reach-trans p here = p
  Reach-trans p (next q s) = next (Reach-trans p q) s

  pub Reach-same : {c c' : Core} → c' ≡ c → Reach w create_part_cert c c'
  Reach-same eq = rw eq here

  pub Reach-one : {c c' : Core} → Step w create_part_cert c c' → Reach w create_part_cert c c'
  Reach-one s = next here s

module _ (w : Salticidae) (create_part_cert : ℕ → Result PartCert) where
  pub parse_proposal-Reach :
      (l : Secp256k1) (s : List ℕ) (r : ℕ) (c c' : Core)
      → parse_proposal w l s c ≡ ok (r, c')
      → Reach w create_part_cert c c'
  unfolding parse_proposal
  parse_proposal-Reach l s r c c' e =
      let (x, e₁, e₂) = >>=-eq-ok (read_proposal w l s) _ e in
      let (d, o, t) = read_proposal-IsNew w l s x e₁ in Reach-one (fetch x.0 d o t (ground arith))

  parse_blks-Reach :
      (n : ℕ) (s : List ℕ) (rs : List ℕ) (c c' : Core)
      → parse_blks w n s c ≡ ok (rs, c')
      → Reach w create_part_cert c c'
  unfolding parse_blks
  parse_blks-Reach zero s rs c c' e = Reach-same (ground arith)
  parse_blks-Reach (suc n) s rs c c' e =
      let (x, e₁, e₂) = >>=-eq-ok (unserialize w s) _ e in
      let (y, e₃, e₄) = >>=-eq-ok (parse_blks w n x.1 (add_new_blk x.0 c).1) _ e₂ in
      let (d, o, t) = unserialize-IsNew w s x e₁ in
      let eq : c' ≡ y.1 = ground arith in
      Reach-trans (Reach-one (fetch x.0 d o t refl)) (parse_blks-Reach n x.1 y.0 _ c' (rw eq e₃))

  pub parse_resp_block-Reach :
      (s : List ℕ) (x : List ℕ × Core) (c : Core)
      → parse_resp_block w s c ≡ ok x
      → Reach w create_part_cert c x.1
  unfolding parse_resp_block
  parse_resp_block-Reach s x c e =
      let (n, e₁, e₂) = >>=-eq-ok (read_size w s) _ e in parse_blks-Reach n.0 n.1 x.0 c x.1 e₂

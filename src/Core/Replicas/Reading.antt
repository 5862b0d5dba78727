-- ===== src/Core/Replicas/Reading.antt =====
-- Messages carry blocks of the chain, and what is read from one is such a block again.
use libe2c_cpp.Prelude.{
  ℕ, ◌≡◌, refl, ◌∙◌, sym, ap, List, [], ◌++◌, none, some, or_fail, null_pointer, false, get_elem?,
  arith, ok, >>=-eq-ok,
}
use mathlib.Core.List.{append-nil, append_assoc}
use libe2c_cpp.Wire.{Salticidae, IsStream}
use libe2c_cpp.Crypto.{Secp256k1, parse_part_cert, put_cert}
use libe2c_cpp.Entity.{Block}
use libe2c_cpp.Entity.Codec.{serialize, unserialize, put_proposal, read_proposal}
use libe2c_cpp.Entity.Codec.Roundtrip.{IsWire, received, unserialize-serialize}
use libe2c_cpp.Core.Replicas.{Message, proposal, response, Sends, Reads}
use libe2c_cpp.Core.Replicas.Sent.{IsSame}
use libe2c_cpp.Core.Replicas.Chain.{Among}

-- What is written of a block depends on what is sent alone.
serialize_same : (w : Salticidae) (p b : Block) → IsSame p b → serialize w b ≡ serialize w p
unfolding serialize
serialize_same w p b s = rw (s.proposer, s.height, s.parent_hashes, s.cmds, s.extra) refl

-- A message has a block of the chain in front.
abbrev pub Carried : Salticidae → List Block → List ℕ → Type 0
Carried w ps bytes =
    (b : Block) × (rest : List ℕ) × Among ps b × IsWire b × (bytes ≡ serialize w b ++ rest)

abbrev pub bytes_of : Message → List ℕ
bytes_of (proposal bytes) = bytes
bytes_of (response bytes) = bytes

received_same :
    (w : Salticidae) (p b : Block)
    → p.hash ≡ w.digest (serialize w p)
    → IsSame p b
    → IsSame p (received w b)
received_same w p b hash s = record {
  parent_hashes = s.parent_hashes;
  cmds = s.cmds;
  extra = s.extra;
  proposer = s.proposer;
  height = s.height;
  hash = ap w.digest (serialize_same w p b s) ∙ sym hash;
}

-- A block of the chain as a reader makes it.
abbrev pub IsFresh : List Block → Block → Type 0
IsFresh ps b = Among ps b × (b.delivered ≡ false) × (b.decision ≡ 0) × (b.commit_timer ≡ none)

module _ (w : Salticidae) (ps : List Block) where
  pub sent-Carried :
      (l : Secp256k1) (b : Block) (m : Message)
      → Among ps b
      → IsWire b
      → Sends w l b m
      → Carried w ps (bytes_of m)
  unfolding put_proposal
  sent-Carried l b (proposal bytes) known v e =
      let (cert, e₁, e₂) = >>=-eq-ok (or_fail b.signature null_pointer) _ e in
      (b, put_cert w l cert, known, v, ground arith)
  sent-Carried l b (response bytes) known v e = (b, [], known, v, e ∙ sym (append-nil _))

  module _ (stream : IsStream w)
      (hashed : (k : ℕ) (p : Block)
        → get_elem? ps k ≡ some p
        → p.hash ≡ w.digest (serialize w p)) where
    unserialize-IsFresh :
        (bytes more rest : List ℕ) (b : Block)
        → Carried w ps bytes
        → unserialize w (bytes ++ more) ≡ ok (b, rest)
        → IsFresh ps b
    unserialize-IsFresh bytes more rest b (a, tail, (k, p, at, s), v, is) e =
        let run : unserialize w (bytes ++ more) ≡ ok (received w a, tail ++ more) =
          rw (is, append_assoc) (unserialize-serialize w stream a (tail ++ more) v) in
        let eq : b ≡ received w a = ground (arith, run, e) in
        rw eq ((k, p, at, received_same w p a (hashed k p at) s), refl, refl, refl)

    pub read-IsFresh :
        (l : Secp256k1) (m : Message) (b : Block)
        → Carried w ps (bytes_of m)
        → Reads w l m b
        → IsFresh ps b
    unfolding read_proposal
    read-IsFresh l (proposal bytes) b carried (rest, e) =
        let ((a, tail), e₁, f₁) = >>=-eq-ok (unserialize w bytes) _ e in
        let ((cert, tail'), e₂, f₂) = >>=-eq-ok (parse_part_cert w l tail) _ f₁ in
        let whole : unserialize w (bytes ++ []) ≡ ok (a, tail) = rw append-nil e₁ in
        let ((k, p, at, s), d, o, t) = unserialize-IsFresh bytes [] tail a carried whole in
        let eq : b ≡ record a { signature = some cert } = ground arith in
        let same : IsSame p (record a { signature = some cert }) = record {
          parent_hashes = s.parent_hashes;
          cmds = s.cmds;
          extra = s.extra;
          proposer = s.proposer;
          height = s.height;
          hash = s.hash;
        } in
        rw eq ((k, p, at, same), d, o, t)
    read-IsFresh l (response bytes) b carried (more, rest, e) =
        unserialize-IsFresh bytes more rest b carried e

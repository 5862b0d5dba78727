-- ===== src/Net/Handlers/Proposals.antt =====
-- Which proposals a replica looks at.
use libe2c_cpp.Prelude.{
  ℕ, ◌≡◌, refl, inl, inr, ◌≢◌, ◌⊎◌, List, [], ◌∷◌, none, some, arith, Result, ok, err, out_of_range,
  ◌++◌, lookup, length, get_elem?-append_last, insert, ap, ◌∙◌,
}
use libe2c_cpp.Wire.{Salticidae, IsStream, IsHash}
use libe2c_cpp.Crypto.{Secp256k1, IsSecp256k1, PartCert}
use libe2c_cpp.Entity.Codec.{serialize, put_proposal}
use libe2c_cpp.Entity.Codec.Roundtrip.{IsWire, received}
use libe2c_cpp.Entity.Codec.Signed.{read-put_proposal}
use libe2c_cpp.Core.Propose.Storing.{appended, add_new_blk_fresh}
use libe2c_cpp.Net.Async.{parse_proposal}
use libe2c_cpp.Entity.{Block}
use libe2c_cpp.Core.{Core}
use libe2c_cpp.Core.History.{Holds}
use libe2c_cpp.PaceMaker.{get_proposer}
use libe2c_cpp.Net.{Base}
use libe2c_cpp.Net.Fetch.{async_deliver_blk, continues}
use libe2c_cpp.Net.Async.Deliverable.{async_deliver_blk-stored}
use libe2c_cpp.Net.Handlers.{check_proposal, propose_handler, first_parent_hash}
use libe2c_cpp.Entity.Text.{head_or_fail}

has_first :
    (w : Salticidae) (blk : Block)
    → blk.parent_hashes ≢ []
    → (h : ℕ) × (first_parent_hash w blk ≡ ok h)
unfolding first_parent_hash
has_first w blk some_ = at blk.parent_hashes refl
  where
    at : (hs : List ℕ) → blk.parent_hashes ≡ hs → (h : ℕ) × (head_or_fail blk.parent_hashes ≡ ok h)
    at [] e = absurd (some_ e)
    at (h ∷ hs) e = (h, rw e refl)

-- On a stream that is parsed.
parsed_lem :
    (w : Salticidae) (parse : List ℕ → Core → Result (ℕ × Core)) (s : List ℕ) (peer : ℕ) (b : Base)
    (r : ℕ) (c : Core) (blk : Block)
    → parse s b.core ≡ ok (r, c)
    → Holds c r blk
    → (peer ≡ 0 → propose_handler w parse s peer b ≡ ok (none, b))
      × (peer ≢ 0
          → (blk.height ≡ 0) ⊎ ((blk.proposer ≢ get_proposer b.pmaker) × (blk.parent_hashes ≢ []))
          → propose_handler w parse s peer b ≡ ok (none, record b { core = c }))
      × (peer ≢ 0
          → blk.height ≢ 0
          → blk.proposer ≡ get_proposer b.pmaker
          → let (d, b') = async_deliver_blk blk.hash peer (record b { core = c }) in
            propose_handler w parse s peer b ≡ ok (some d, b'))
      × (peer ≢ 0
          → blk.height ≢ 0
          → blk.proposer ≢ get_proposer b.pmaker
          → blk.parent_hashes ≡ []
          → propose_handler w parse s peer b ≡ err out_of_range)
unfolding propose_handler check_proposal
parsed_lem w parse s peer b r c blk parsed held = (
  λ null. rw (parsed, held) (ground arith),
  λ known bad.
      rw (parsed, held)
        (elim bad [
          | inl low ↦ ground arith
          | inr (other, some_) ↦ let (h, first) = has_first w blk some_ in ground (arith, first)
        ]),
  λ known high expected. rw (parsed, held) (ground arith),
  λ known high other none_. rw (parsed, held) (unfold first_parent_hash in rw none_ (ground arith)),
)

module _ (w : Salticidae) where
  -- The block that the proposal brings.
  abbrev pub proposed : Block → (h : ℕ) → (sig : List ℕ) → Block
  proposed blk h sig = record (received w blk) { signature = some (PartCert.secp256k1 h sig) }

  -- The replica with the block behind the others.
  abbrev pub with_proposed : Block → (h : ℕ) → (sig : List ℕ) → Base → Base
  with_proposed blk h sig b = record b { core = appended (proposed blk h sig) b.core }

module _ (w : Salticidae) (l : Secp256k1) (public : List ℕ → List ℕ) (s : IsStream w)
    (k : IsSecp256k1 l public) where
  -- A proposal that was written with the bytes of `put_proposal`, its fields fitting their types and
  -- its certificate of 64 bytes, comes in from a peer with an identity, its block not yet in the
  -- storage. If the block's height is 0, or its proposer is not the expected one and it has a parent,
  -- the block is stored behind the others, and that is all. If its height is not 0, its proposer is the
  -- expected one and nobody waits for its delivery, it is stored, its hash waits for the delivery,
  -- and the delivery goes on with the stored block. If its height is not 0, its proposer is not the
  -- expected one and it has no parents, the handler reads its first parent's hash for the log line,
  -- which is out of range: a peer can bring the replica there with bytes.
  pub propose_handler_lem :
      (blk : Block) (h : ℕ) (sig rest : List ℕ) (peer : ℕ) (b : Base)
      → IsWire blk
      → blk.signature ≡ some (PartCert.secp256k1 h sig)
      → IsHash h
      → length sig ≡ 64
      → lookup (w.digest (serialize w blk)) b.core.storage.blk_cache ≡ none
      → peer ≢ 0
      → (bytes : List ℕ) × (put_proposal w l blk ≡ ok bytes)
        × ((blk.height ≡ 0) ⊎ ((blk.proposer ≢ get_proposer b.pmaker) × (blk.parent_hashes ≢ []))
            → propose_handler w (parse_proposal w l) (bytes ++ rest) peer b
              ≡ ok (none, with_proposed w blk h sig b))
        × (blk.height ≢ 0
            → blk.proposer ≡ get_proposer b.pmaker
            → lookup (w.digest (serialize w blk)) b.blk_delivery_waiting ≡ none
            → propose_handler w (parse_proposal w l) (bytes ++ rest) peer b
              ≡ ok (
                some (continues (length b.core.blocks)),
                record (with_proposed w blk h sig b) {
                  blk_delivery_waiting =
                      insert (w.digest (serialize w blk)) tt b.blk_delivery_waiting;
                },
              ))
        × (blk.height ≢ 0
            → blk.proposer ≢ get_proposer b.pmaker
            → blk.parent_hashes ≡ []
            → propose_handler w (parse_proposal w l) (bytes ++ rest) peer b ≡ err out_of_range)
  propose_handler_lem blk h sig rest peer b v signed ok_h n fresh known =
      let (bytes, put, read) = read-put_proposal w l public s k blk h sig rest v signed ok_h n in
      let got = proposed w blk h sig in
      let parsed : parse_proposal w l (bytes ++ rest) b.core
          ≡ ok (length b.core.blocks, appended got b.core) =
        unfold parse_proposal in rw (read, add_new_blk_fresh got b.core fresh) refl in
      let (none_, dropped, begun, bad) =
        parsed_lem w (parse_proposal w l) (bytes ++ rest) peer b (length b.core.blocks)
          (appended got b.core) got parsed (get_elem?-append_last b.core.blocks got) in
      (
        bytes,
        put,
        dropped known,
        λ high expected idle.
            begun known high expected
            ∙ ap (λ x. ok (some x.0, x.1)) (async_deliver_blk-stored got peer b refl fresh idle),
        bad known,
      )

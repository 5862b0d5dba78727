-- ===== src/Net/Handlers/Blocks.antt =====
-- Blocks on request.
use libe2c_cpp.Prelude.{
  ℕ, ◌%◌, ◌^◌, ◌<◌, ◌≡◌, refl, ◌≢◌, List, [], ◌∷◌, ◌++◌, map, some, false, lookup, All, length,
  arith, ◌==◌, ok, empty_promises, err,
}
use mathlib.Core.List.{append_assoc}
use libe2c_cpp.Wire.{Salticidae, IsStream, IsHash, put_hashes}
use libe2c_cpp.Wire.Roundtrip.{read-put_size, read-put_hashes}
use libe2c_cpp.Entity.{Block}
use libe2c_cpp.Entity.Storage
use libe2c_cpp.Entity.Codec.Roundtrip.{IsWire, received, unserialize-serialize}
use libe2c_cpp.Core.{Core, add_new_blk}
use libe2c_cpp.Net.{Base, send, msg_resp_block}
use libe2c_cpp.Net.Fetch.{async_fetch_blk}
use libe2c_cpp.Net.Handlers.{
  put_req_block, read_req_block, put_blks, put_resp_block, parse_blks, parse_resp_block, fetch_all,
  answer_request, req_blk_handler,
}

-- The storage has a block for each hash.
abbrev pub AreStored : Base → List ℕ → List ℕ → Type 0
AreStored b [] [] = Unit
AreStored b [] (r ∷ rs) = ⊥
AreStored b (h ∷ hs) [] = ⊥
AreStored b (h ∷ hs) (r ∷ rs) = (lookup h b.core.storage.blk_cache ≡ some r) × AreStored b hs rs

fetch_all_stored : (hs rs : List ℕ) (b : Base) → AreStored b hs rs → fetch_all hs b ≡ (some rs, b)
unfolding fetch_all async_fetch_blk Storage.is_blk_fetched Storage.find_blk
fetch_all_stored [] [] b a = refl
fetch_all_stored [] (r ∷ rs) b a = elim a [ ]
fetch_all_stored (h ∷ hs) [] b a = elim a [ ]
fetch_all_stored (h ∷ hs) (r ∷ rs) b a = rw (a.0, fetch_all_stored hs rs b a.1) refl

-- A request for blocks that the storage has is answered at once, to the peer that asked, with these
-- blocks in the order of the request, and nothing else changes. A request for no blocks ends in an
-- exception.
pub req_blk_handler_lem :
    (h r : ℕ) (hs rs : List ℕ) (peer : ℕ) (b : Base)
    → peer ≢ 0
    → AreStored b (h ∷ hs) (r ∷ rs)
    → (req_blk_handler (h ∷ hs) peer b ≡ ok (send (msg_resp_block (r ∷ rs) peer) b))
      × (req_blk_handler [] peer b ≡ err empty_promises)
unfolding req_blk_handler answer_request
req_blk_handler_lem h r hs rs peer b known a =
    let e : (peer == 0) ≡ false = ground arith in
    (rw (e, fetch_all_stored (h ∷ hs) (r ∷ rs) b a) refl, rw e refl)

-- The blocks of a response, each handed to the storage.
unfoldable pub store_all : List Block → Core → List ℕ × Core
unfolding add_new_blk
store_all [] c = ([], c)
store_all (b ∷ bs) c =
    let (r, c₁) = add_new_blk b c in let (rs, c₂) = store_all bs c₁ in (r ∷ rs, c₂)

module _ (w : Salticidae) (s : IsStream w) where
  parse_blks-put_blks :
      (bs : List Block) (rest : List ℕ) (c : Core)
      → All IsWire bs
      → parse_blks w (length bs) (put_blks w bs ++ rest) c ≡ ok (store_all (map (received w) bs) c)
  unfolding parse_blks put_blks store_all
  parse_blks-put_blks [] rest c a = refl
  parse_blks-put_blks (b ∷ bs) rest c a =
      rw
        (
          append_assoc,
          unserialize-serialize w s b (put_blks w bs ++ rest) a.0,
          parse_blks-put_blks bs rest (add_new_blk (received w b) c).1 a.1,
        )
        refl

  -- Parsing a response that carries fewer than 2 ^ 32 blocks stores each of them in turn, as it was
  -- sent but for its signature, and hashed anew.
  pub parse-put_resp_block :
      (bs : List Block) (rest : List ℕ) (c : Core)
      → All IsWire bs
      → length bs < 2 ^ 32
      → parse_resp_block w (put_resp_block w bs ++ rest) c ≡ ok (store_all (map (received w) bs) c)
  unfolding parse_resp_block put_resp_block
  parse-put_resp_block bs rest c a small =
      let e : length bs % 2 ^ 32 ≡ length bs = omega (arith, small) in
      rw (append_assoc, e, read-put_size w s (length bs) (put_blks w bs ++ rest) small)
        (parse_blks-put_blks bs rest c a)

  -- A request of fewer than 2 ^ 32 hashes is read back as it was written.
  pub read-put_req_block :
      (hs rest : List ℕ)
      → All IsHash hs
      → length hs < 2 ^ 32
      → read_req_block w (put_req_block w hs ++ rest) ≡ ok (hs, rest)
  unfolding read_req_block put_req_block
  read-put_req_block hs rest a small =
      let e : length hs % 2 ^ 32 ≡ length hs = omega (arith, small) in
      rw (append_assoc, e, read-put_size w s (length hs) (put_hashes w hs ++ rest) small)
        (read-put_hashes w s hs rest a)

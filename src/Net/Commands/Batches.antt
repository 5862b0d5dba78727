-- ===== src/Net/Commands/Batches.antt =====
-- Commands keep their order on the way into blocks.
use libe2c_cpp.Prelude.{
  ℕ, suc, ◌+◌, ◌-◌, ◌<◌, ◌≤◌, ◌≡◌, ◌≢◌, refl, sym, ◌∙◌, ap, List, [], ◌∷◌, ◌++◌, map, Option, none,
  some, true, false, length, length-append, take, drop, arith, leb, ◌==◌, Bool-cases, inl, inr,
}
use mathlib.Core.List.{append_assoc, append-nil}
use libe2c_cpp.PaceMaker.{get_proposer}
use libe2c_cpp.Net.{Base}
use libe2c_cpp.Net.Commands.{enter, drain}

abbrev pub hashes : List (ℕ × ℕ) → List ℕ
hashes q = map (λ e. e.0) q

-- With the queue behind it the buffer is short of a block; or it is enough for one.
abbrev pub Batched :
    (buffer : List ℕ) (q : List (ℕ × ℕ)) (blk_size : ℕ) → Option (List ℕ) × Base → Type 0
Batched buffer q n (cmds, b) =
    (length (buffer ++ hashes q) < n
      → (cmds ≡ none) × (b.cmd_pending_buffer ≡ buffer ++ hashes q) × (b.cmd_pending ≡ []))
    × (n ≤ length (buffer ++ hashes q)
        → (cmds ≡ some (take n (buffer ++ hashes q)))
          × (b.cmd_pending_buffer ≡ [])
          × (b.cmd_pending ≡ drop (n - length buffer) q))

enter_same :
    (h cb : ℕ) (b : Base)
    → ((enter h cb b).cmd_pending_buffer ≡ b.cmd_pending_buffer)
      × ((enter h cb b).core ≡ b.core)
      × ((enter h cb b).pmaker ≡ b.pmaker)
      × ((enter h cb b).blk_size ≡ b.blk_size)
unfolding enter
enter_same h cb b = ground arith

length-snoc : (xs : List ℕ) (x : ℕ) → length (xs ++ x ∷ []) ≡ suc (length xs)
length-snoc xs x = length-append xs (x ∷ []) ∙ omega arith

take-all : (xs ys : List ℕ) → take (length xs) (xs ++ ys) ≡ xs
take-all [] ys = refl
take-all (x ∷ xs) ys = ap (λ l. x ∷ l) (take-all xs ys)

take_whole : (xs : List ℕ) → take (length xs) xs ≡ xs
take_whole [] = refl
take_whole (x ∷ xs) = ap (λ l. x ∷ l) (take_whole xs)

drop_whole : (xs : List ℕ) → drop (length xs) xs ≡ []
drop_whole [] = refl
drop_whole (x ∷ xs) = drop_whole xs

Batched-shift :
    (buffer : List ℕ) (q : List (ℕ × ℕ)) (h cb n : ℕ) (r : Option (List ℕ) × Base)
    → length buffer + 1 < n
    → Batched (buffer ++ h ∷ []) q n r
    → Batched buffer ((h, cb) ∷ q) n r
Batched-shift buffer q h cb n (cmds, b) lt (few, enough) =
    let whole = append_assoc buffer (h ∷ []) (hashes q) in
    let step : n - length buffer ≡ suc (n - length (buffer ++ h ∷ [])) =
      omega (arith, length-snoc buffer h, lt) in
    (
      λ less. rw (← whole) (few (rw whole less)),
      λ more. let (c, e, l) = enough (rw whole more) in (c ∙ rw whole refl, e, l ∙ rw step refl),
    )

Batched-same :
    (buf buf' : List ℕ) (q : List (ℕ × ℕ)) (n n' : ℕ) (r : Option (List ℕ) × Base)
    → buf ≡ buf'
    → n ≡ n'
    → Batched buf q n r
    → Batched buf' q n' r
Batched-same buf buf' q n n' r e size v = rw (← e, ← size) v

-- The buffer is full with this command.
Batched-full :
    (buffer buf : List ℕ) (q : List (ℕ × ℕ)) (h cb n : ℕ) (b' : Base)
    → buf ≡ buffer ++ h ∷ []
    → n ≡ length buf
    → b'.cmd_pending_buffer ≡ drop n buf
    → b'.cmd_pending ≡ q
    → Batched buffer ((h, cb) ∷ q) n (some (take n buf), b')
Batched-full buffer buf q h cb n b' added size left rest =
    let whole : buf ++ hashes q ≡ buffer ++ h ∷ hashes q =
      rw added (append_assoc buffer (h ∷ []) (hashes q)) in
    let count = length-append buf (hashes q) in
    let one : n - length buffer ≡ 1 = omega (arith, size, ap length added, length-snoc buffer h) in
    let block : take n (buffer ++ h ∷ hashes q) ≡ take n buf =
      rw (← whole, size, take-all buf (hashes q)) (sym (take_whole buf)) in
    (
      λ less. absurd (omega (arith, less, ap length whole, count, size)),
      λ more. (ap some (sym block), left ∙ rw size (drop_whole buf), rest ∙ rw one refl),
    )

drain_leader :
    (q : List (ℕ × ℕ)) (b : Base)
    → length b.cmd_pending_buffer < b.blk_size
    → get_proposer b.pmaker ≡ b.core.id
    → Batched b.cmd_pending_buffer q b.blk_size (drain q b)
unfolding drain
drain_leader [] b short leader = (
  λ less. (refl, sym (append-nil b.cmd_pending_buffer), refl),
  λ more. absurd (omega (arith, short, rw append-nil at more)),
)
drain_leader ((h, cb) ∷ q) b short leader =
    let (same_buffer, same_core, same_pmaker, same_size) = enter_same h cb b in
    let b₂ = record (enter h cb b) {
      cmd_pending_buffer = (enter h cb b).cmd_pending_buffer ++ h ∷ [];
    } in
    let here : (get_proposer b.pmaker == b.core.id) ≡ true = ground arith in
    let leader₂ : get_proposer b₂.pmaker ≡ b₂.core.id = rw (same_pmaker, same_core) leader in
    let added : b₂.cmd_pending_buffer ≡ b.cmd_pending_buffer ++ h ∷ [] = rw same_buffer refl in
    let count = length-snoc b.cmd_pending_buffer h in
    elim (Bool-cases (leb b.blk_size (length b₂.cmd_pending_buffer))) [
      | inl full ↦
          let exact : b.blk_size ≡ length b₂.cmd_pending_buffer =
            ground (arith, full, short, ap length added, count) in
          rw (here, full)
            (Batched-full b.cmd_pending_buffer b₂.cmd_pending_buffer q h cb b.blk_size
              (record b₂ {
                cmd_pending_buffer = drop b.blk_size b₂.cmd_pending_buffer;
                cmd_pending = q;
              })
              added exact refl refl)
      | inr short_ ↦
          let size : length b₂.cmd_pending_buffer < b₂.blk_size =
            ground (arith, short_, same_size) in
          let rest = drain_leader q b₂ size leader₂ in
          let rest' : Batched (b.cmd_pending_buffer ++ h ∷ []) q b.blk_size (drain q b₂) =
            Batched-same b₂.cmd_pending_buffer _ q b₂.blk_size b.blk_size (drain q b₂) added
              same_size rest in
          let more : length b.cmd_pending_buffer + 1 < b.blk_size =
            ground (arith, short_, ap length added, count) in
          rw (here, short_)
            (Batched-shift b.cmd_pending_buffer q h cb b.blk_size (drain q b₂) more rest')
    ]

drain_other :
    (q : List (ℕ × ℕ)) (b : Base)
    → get_proposer b.pmaker ≢ b.core.id
    → ((drain q b).0 ≡ none)
      × ((drain q b).1.cmd_pending_buffer ≡ b.cmd_pending_buffer)
      × ((drain q b).1.cmd_pending ≡ [])
unfolding drain
drain_other [] b other = (refl, refl, refl)
drain_other ((h, cb) ∷ q) b other =
    let (same_buffer, same_core, same_pmaker, same_size) = enter_same h cb b in
    let away : (get_proposer b.pmaker == b.core.id) ≡ false = ground arith in
    let other₁ : get_proposer (enter h cb b).pmaker ≢ (enter h cb b).core.id =
      λ e. other (rw (same_pmaker, same_core) at e) in
    let (none_, buffer, queue) = drain_other q (enter h cb b) other₁ in
    (rw away none_, rw away (buffer ∙ same_buffer), rw away queue)

-- The loop of the handler, on a buffer that is short of a block. On the leader every command of
-- the queue goes behind the buffer, whether or not it is waiting already. If the buffer and the
-- queue together are short of a block, there is none, and the buffer has them all, in order; if
-- not, there is one, of their first `blk_size` commands, the buffer is empty, and the rest of the
-- queue waits for the next call. On any other replica there is no block, the buffer stays, and
-- the queue is empty.
pub drain-Batched :
    (q : List (ℕ × ℕ)) (b : Base)
    → length b.cmd_pending_buffer < b.blk_size
    → (get_proposer b.pmaker ≡ b.core.id → Batched b.cmd_pending_buffer q b.blk_size (drain q b))
      × (get_proposer b.pmaker ≢ b.core.id
          → ((drain q b).0 ≡ none)
            × ((drain q b).1.cmd_pending_buffer ≡ b.cmd_pending_buffer)
            × ((drain q b).1.cmd_pending ≡ []))
drain-Batched q b short = (drain_leader q b short, drain_other q b)

-- ===== src/Core/Replicas/Joint.antt =====
-- What holds of all replicas and messages together, kept by every act.
use libe2c_cpp.Prelude.{
  ℕ, zero, suc, ◌≡◌, ◌⊎◌, inl, inr, List, ◌∷◌, some, lookup-insert, insert, length, get_elem?,
  get_elem?-set, get_elem?_lt, set, arith, Result, ◌==◌, ==_iff, Bool-cases,
}
use libe2c_cpp.Wire.{Salticidae, IsStream}
use libe2c_cpp.Crypto.{Secp256k1, PartCert}
use libe2c_cpp.Entity.{Block}
use libe2c_cpp.Entity.Storage
use libe2c_cpp.Entity.Codec.{serialize}
use libe2c_cpp.Core.{Core, add_new_blk}
use libe2c_cpp.Core.History.{Extends}
use libe2c_cpp.Core.Invariant.{IsValid}
use libe2c_cpp.Core.System.{initial, initial-IsValid, Step-Kept}
use libe2c_cpp.Core.System as System
use libe2c_cpp.Core.Propose.Storing.{add_new_blk-Kept}
use libe2c_cpp.Core.Replicas.{
  Message, Replicas, Local, deliver, receive, expire, Act, propose, call, send, read, Run, here,
  next,
}
use libe2c_cpp.Core.Replicas.Sent.{Alike, on_receive_proposal-Alike, commit_timer_cb-Alike}
use libe2c_cpp.Core.Replicas.Chain.{
  IsChain, Carries, Alike-Carries, add_new_blk-Carries, on_deliver_blk-Alike,
}
use libe2c_cpp.Core.Replicas.Leader.{IsLeader, Carries-suc, Among-suc}
use libe2c_cpp.Core.Replicas.Quiet.{
  Quiet, on_receive_proposal-Quiet, on_deliver_blk-Quiet, commit_timer_cb-Quiet,
}
use libe2c_cpp.Core.Replicas.Proposing.{proposed_lem}
use libe2c_cpp.Core.Replicas.Reading.{Carried, bytes_of, sent-Carried, read-IsFresh}

pub record IsJoint (w : Salticidae) (g leader : ℕ) (ps : List Block) (s : Replicas) : Type 0 where
  pub chain : IsChain g ps
  pub hashed : (k : ℕ) (p : Block) → get_elem? ps k ≡ some p → p.hash ≡ w.digest (serialize w p)
  pub each :
      (i : ℕ) (c : Core) → get_elem? s.cores i ≡ some c → IsValid c × Carries g ps c × Quiet c
  pub leading : (c : Core) → get_elem? s.cores leader ≡ some c → IsLeader ps c
  pub sent : (k : ℕ) (m : Message) → get_elem? s.pool k ≡ some m → Carried w ps (bytes_of m)

-- After a write to replica `i`, a replica is that one or as before.
set_cases :
    (cs : List Core) (i j : ℕ) (c c' d : Core)
    → get_elem? cs i ≡ some c
    → get_elem? (set cs i c') j ≡ some d
    → ((i ≡ j) × (d ≡ c')) ⊎ (get_elem? cs j ≡ some d)
set_cases cs i j c c' d at e = elim (Bool-cases (i == j)) [
  | inl same ↦
      let w = get_elem?-set cs i j c' (get_elem?_lt cs i at) in
      inl ((==_iff i j).0 same, ground (arith, w, e, same))
  | inr other ↦
      let w = get_elem?-set cs i j c' (get_elem?_lt cs i at) in inr (ground (arith, w, e, other))
]

add_new_blk_map : (b : Block) (c : Core) → (add_new_blk b c).1.ht_blk_map ≡ c.ht_blk_map
unfolding add_new_blk Storage.add_blk
add_new_blk_map b c = ground arith

add_new_blk_outputs : (b : Block) (c : Core) → (add_new_blk b c).1.outputs ≡ c.outputs
unfolding add_new_blk Storage.add_blk
add_new_blk_outputs b c = ground arith

add_new_blk_cache :
    (b : Block) (c : Core)
    → (add_new_blk b c).1.storage.blk_cache ≡ insert b.hash (length c.blocks) c.storage.blk_cache
unfolding add_new_blk Storage.add_blk
add_new_blk_cache b c = ground arith

module _ (w : Salticidae) (l : Secp256k1) (create_part_cert : ℕ → Result PartCert)
    (g leader : ℕ) where
  -- One replica changes, and the chain stays.
  one_changes :
      (ps : List Block) (s : Replicas) (i : ℕ) (c c' : Core)
      → IsJoint w g leader ps s
      → get_elem? s.cores i ≡ some c
      → IsValid c'
      → Carries g ps c'
      → Quiet c'
      → (IsLeader ps c → IsLeader ps c')
      → IsJoint w g leader ps (record s { cores = set s.cores i c' })
  one_changes ps s i c c' v at valid carries quiet leads = record {
    chain = v.chain;
    hashed = v.hashed;
    each = λ j d e. elim (set_cases s.cores i j c c' d at e) [
      | inl (_, is) ↦ rw is (valid, carries, quiet)
      | inr old ↦ v.each j d old
    ];
    leading = λ d e. elim (set_cases s.cores i leader c c' d at e) [
      | inl (same, is) ↦ rw is (leads (v.leading c (rw (← same) at)))
      | inr old ↦ v.leading d old
    ];
    sent = v.sent;
  }

  Local-Alike :
      (ps : List Block) (c c' : Core)
      → IsChain g ps
      → IsValid c
      → Carries g ps c
      → Local c c'
      → Alike c c'
  Local-Alike ps c c' chain valid v (deliver r fresh e) =
      on_deliver_blk-Alike g ps chain c v r c' fresh valid e
  Local-Alike ps c c' chain valid v (receive r e) = on_receive_proposal-Alike r c c' e
  Local-Alike ps c c' chain valid v (expire r b t h a e) =
      commit_timer_cb-Alike r b t c c' valid h a e

  Local-Quiet :
      (ps : List Block) (c c' : Core)
      → IsChain g ps
      → IsValid c
      → Carries g ps c
      → Local c c'
      → Quiet c
      → Quiet c'
  Local-Quiet ps c c' chain valid v (deliver r fresh e) = on_deliver_blk-Quiet r c c' fresh e
  Local-Quiet ps c c' chain valid v (receive r e) =
      on_receive_proposal-Quiet g ps chain r c c' valid v e
  Local-Quiet ps c c' chain valid v (expire r b t h a e) =
      commit_timer_cb-Quiet r b t c c' valid h a e

  Local-Step : {c c' : Core} → Local c c' → System.Step w create_part_cert c c'
  Local-Step (deliver r fresh e) = System.deliver r fresh e
  Local-Step (receive r e) = System.receive r e
  Local-Step (expire r b t h a e) = System.expire r b t h a e

  IsLeader-Kept :
      (ps : List Block) (c c' : Core) → Alike c c' → Extends c c' → IsLeader ps c → IsLeader ps c'
  IsLeader-Kept ps c c' x e v = record {
    proposed = λ k p at. let (r, held) = v.proposed k p at in (r, e.held p.height r held);
    stored = λ k p at. let (r, known) = v.stored k p at in (r, rw x.storage known);
  }

  add_new_blk-IsLeader :
      (ps : List Block) (b : Block) (c : Core) → IsLeader ps c → IsLeader ps (add_new_blk b c).1
  add_new_blk-IsLeader ps b c v = record {
    proposed = λ k p at. let (r, held) = v.proposed k p at in (r, rw (add_new_blk_map b c) held);
    stored = λ k p at.
        let (r, known) = v.stored k p at in
        (
          r,
          rw (add_new_blk_cache b c) (
              ground
                (arith, lookup-insert b.hash p.hash (length c.blocks) c.storage.blk_cache, known)),
        );
  }

  -- The proposer changes, and the chain is one block longer.
  longer :
      (ps : List Block) (s : Replicas) (c c' : Core) (n : Block)
      → IsJoint w g leader ps s
      → get_elem? s.cores leader ≡ some c
      → n.hash ≡ w.digest (serialize w n)
      → IsChain g (n ∷ ps)
      → Carries g (n ∷ ps) c'
      → IsLeader (n ∷ ps) c'
      → IsValid c'
      → Quiet c'
      → IsJoint w g leader (n ∷ ps) (record s { cores = set s.cores leader c' })
  longer ps s c c' n v at hash chain' carries' leads' valid' quiet' = record {
    chain = chain';
    hashed = hashed;
    each = λ j d e. elim (set_cases s.cores leader j c c' d at e) [
      | inl (_, is) ↦ rw is (valid', carries', quiet')
      | inr old ↦
          let (valid, carries, quiet) = v.each j d old in
          (valid, Carries-suc g ps n d carries, quiet)
    ];
    leading = λ d e.
        let w = get_elem?-set s.cores leader leader c' (get_elem?_lt s.cores leader at) in
        let is : d ≡ c' = ground (arith, w, e) in rw is leads';
    sent = λ k m e.
        let (b, rest, known, wire, is) = v.sent k m e in
        (b, rest, Among-suc g ps n b known, wire, is);
  }
    where
      hashed :
          (k : ℕ) (p : Block) → get_elem? (n ∷ ps) k ≡ some p → p.hash ≡ w.digest (serialize w p)
      hashed zero p e = let is : n ≡ p = ground arith in rw (← is) hash
      hashed (suc k) p e = v.hashed k p e

  one_sent :
      (ps : List Block) (s : Replicas) (m : Message)
      → IsJoint w g leader ps s
      → Carried w ps (bytes_of m)
      → IsJoint w g leader ps (record s { pool = m ∷ s.pool })
  one_sent ps s m v carried = record {
    chain = v.chain;
    hashed = v.hashed;
    each = v.each;
    leading = v.leading;
    sent = sent_at;
  }
    where
      sent_at :
          (k : ℕ) (m' : Message) → get_elem? (m ∷ s.pool) k ≡ some m' → Carried w ps (bytes_of m')
      sent_at zero m' e = let is : m ≡ m' = ground arith in rw (← is) carried
      sent_at (suc k) m' e = v.sent k m' e

  -- One act of one replica keeps the joint invariant, of a chain that is at most one block longer.
  Act-IsJoint :
      (ps : List Block) (s s' : Replicas)
      → IsStream w
      → IsJoint w g leader ps s
      → Act w l create_part_cert leader s s'
      → (qs : List Block) × IsJoint w g leader qs s'
  Act-IsJoint ps s s' stream v (propose c c₁ c' cmds xs r mark at parents run hm room new eq) =
      let (valid, carries, quiet) = v.each leader c at in
      let (n, hash, chain', carries', leads', valid', quieter) =
        proposed_lem w create_part_cert g ps v.chain c c₁ c' cmds xs r mark carries valid
          (v.leading c at) parents run hm room new in
      (n ∷ ps, rw eq (longer ps s c c' n v at hash chain' carries' leads' valid' (quieter quiet)))
  Act-IsJoint ps s s' stream v (call i c c' at step eq) =
      let (valid, carries, quiet) = v.each i c at in
      let alike = Local-Alike ps c c' v.chain valid carries step in
      let (valid', ext) = Step-Kept (Local-Step step) valid in
      (
        ps,
        rw eq (
            one_changes ps s i c c' v at valid' (Alike-Carries g ps c c' alike carries)
              (Local-Quiet ps c c' v.chain valid carries step quiet)
              (IsLeader-Kept ps c c' alike ext)),
      )
  Act-IsJoint ps s s' stream v (send i r c b m at held inner wire sends eq) =
      let (valid, carries, quiet) = v.each i c at in
      let carried = sent-Carried w ps l b m (carries.others r b held inner) wire sends in
      (ps, rw eq (one_sent ps s m v carried))
  Act-IsJoint ps s s' stream v (read i k c m b at there reads eq) =
      let (valid, carries, quiet) = v.each i c at in
      let (known, new, open_, unarmed) =
        read-IsFresh w ps stream v.hashed l m b (v.sent k m there) reads in
      (
        ps,
        rw eq (
            one_changes ps s i c (add_new_blk b c).1 v at
              (add_new_blk-Kept b c new open_ unarmed valid).0
              (add_new_blk-Carries g ps b c valid carries known)
              (rw (add_new_blk_outputs b c) quiet) (add_new_blk-IsLeader ps b c)),
      )

  pub Run-IsJoint :
      (ps : List Block) (s : Replicas) {t : Replicas}
      → IsStream w
      → IsJoint w g leader ps s
      → Run w l create_part_cert leader s t
      → (qs : List Block) × IsJoint w g leader qs t
  Run-IsJoint ps s stream v here = (ps, v)
  Run-IsJoint ps s stream v (next {t} {u} run act) =
      let (qs, x) = Run-IsJoint ps s stream v run in Act-IsJoint qs t u stream x act

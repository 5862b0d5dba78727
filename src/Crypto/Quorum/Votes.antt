-- ===== src/Crypto/Quorum/Votes.antt =====
-- What a quorum certificate attests.
use libe2c_cpp.Prelude.{
  ℕ, zero, suc, ◌+◌, ◌≤◌, ◌<◌, ◌≡◌, refl, ◌∙◌, ap, ◌↔◌, List, [], ◌∷◌, some, Bool, true, false,
  lookup, insert, lookup-insert, length, get_elem?, set, ltb, ltb→lt, get_elem?-set, Error, guard,
  ==_iff, arith, ◌==◌, if◌then◌else◌, Result, ok, >>=-eq-ok, Bool-cases, inl, inr, is_some, or_fail,
  or_fail-eq-ok, out_of_range,
}
use libe2c_cpp.Wire.{Salticidae}
use libe2c_cpp.Crypto.{Secp256k1, PubKey, PartCert, get_obj_hash, verify_sig}
use libe2c_cpp.Entity.Config.{ReplicaConfig, get_pubkey}
use libe2c_cpp.Crypto.Quorum.{
  QuorumCert, clear_bits, new_quorum_cert, add_part, sig_of, replica_id, verify_with, verify_at,
  verify_bits, verify_quorum,
}

both_true :
    (valid : Bool) (rest : Result Bool)
    → (if valid then rest else ok false) ≡ ok true
    → (valid ≡ true) × (rest ≡ ok true)
both_true true rest e = (refl, e)
both_true false rest e = cc

pub suc_shift : (i k : ℕ) → suc i + k ≡ i + suc k
suc_shift i k = omega arith

pub zero_plus : (k : ℕ) → 0 + k ≡ k
zero_plus k = omega arith

module _ (w : Salticidae) (l : Secp256k1) (config : ReplicaConfig) (q : QuorumCert) where
  bits_sound :
      (bs : List Bool) (i : ℕ)
      → verify_bits w l config q i bs ≡ ok true
      → (k : ℕ) → get_elem? bs k ≡ some true
      → verify_at w l config q (i + k) ≡ ok true
  unfolding verify_bits
  bits_sound [] i e k g = cc
  bits_sound (false ∷ bs) i e zero g = cc
  bits_sound (false ∷ bs) i e (suc k) g = rw (← suc_shift i k) (bits_sound bs (suc i) e k g)
  bits_sound (true ∷ bs) i e zero g =
      let (valid, at, more) = >>=-eq-ok (verify_at w l config q i) _ e in
      let (accepted, rest) = both_true valid (verify_bits w l config q (suc i) bs) more in
      let here : i + 0 ≡ i = omega arith in rw here (rw accepted at at)
  bits_sound (true ∷ bs) i e (suc k) g =
      let (valid, at, more) = >>=-eq-ok (verify_at w l config q i) _ e in
      let (accepted, rest) = both_true valid (verify_bits w l config q (suc i) bs) more in
      rw (← suc_shift i k) (bits_sound bs (suc i) rest k g)

  bits_complete :
      (bs : List Bool) (i : ℕ)
      → ((k : ℕ) → get_elem? bs k ≡ some true → verify_at w l config q (i + k) ≡ ok true)
      → verify_bits w l config q i bs ≡ ok true
  unfolding verify_bits
  bits_complete [] i a = refl
  bits_complete (false ∷ bs) i a =
      bits_complete bs (suc i) (λ k g. rw (suc_shift i k) (a (suc k) g))
  bits_complete (true ∷ bs) i a =
      let here : i + 0 ≡ i = omega arith in
      let now : verify_at w l config q i ≡ ok true = rw here at (a 0 refl) in
      rw now (bits_complete bs (suc i) (λ k g. rw (suc_shift i k) (a (suc k) g)))

  -- The replica is configured with a key of the class, and its signature is there and verifies.
  abbrev pub IsAttested : (bit : ℕ) → Type 0
  IsAttested k =
      (key sig : List ℕ) × (get_pubkey config (replica_id k) ≡ ok (PubKey.secp256k1 key))
      × (lookup (replica_id k) q.sigs ≡ some sig)
      × (verify_sig w l sig (w.to_bytes q.obj_hash) key ≡ ok true)

  verify_at-IsAttested : (k : ℕ) → verify_at w l config q k ≡ ok true → IsAttested k
  unfolding verify_at
  verify_at-IsAttested k e =
      let (key, known, e₁) = >>=-eq-ok (get_pubkey config (replica_id k)) _ e in
      let (sig, found, e₂) = >>=-eq-ok (or_fail (lookup (replica_id k) q.sigs) out_of_range) _ e₁ in
      let (bs, same, valid) = with_key key sig e₂ in
      (bs, sig, known ∙ ap ok same, or_fail-eq-ok _ out_of_range found, valid)
    where
      with_key :
          (key : PubKey) (sig : List ℕ)
          → verify_with w l q.obj_hash sig key ≡ ok true
          → (bs : List ℕ) × (key ≡ PubKey.secp256k1 bs)
            × (verify_sig w l sig (w.to_bytes q.obj_hash) bs ≡ ok true)
      with_key PubKey.dummy sig e = absurd (unfold verify_with in let no_ : ⊥ = cc in no_)
      with_key (PubKey.secp256k1 bs) sig e = (bs, refl, unfold verify_with in e)

  IsAttested-verify_at : (k : ℕ) → IsAttested k → verify_at w l config q k ≡ ok true
  unfolding verify_at verify_with
  IsAttested-verify_at k (key, sig, known, found, valid) = rw (known, found) valid

  -- The verification of a quorum certificate returns true exactly if it has as many signatures as
  -- the majority, and for each bit that is set, from 2 ^ 16 on cut to the 16 bits of a replica's
  -- number, the replica of that number is configured, and its signature is there and verifies under
  -- its key for the certificate's hash.
  pub verify_quorum_iff : (verify_quorum w l config q ≡ ok true) ↔ (
      (config.nmajority ≤ length q.sigs)
      × ((k : ℕ) → get_elem? q.rids k ≡ some true → IsAttested k))
  unfolding verify_quorum
  verify_quorum_iff = elim (Bool-cases (ltb (length q.sigs) config.nmajority)) [
    | inl few ↦
        rw few (
          λ e. cc,
          λ (n, a). absurd (omega (arith, ltb→lt (length q.sigs) config.nmajority few, n)),
        )
    | inr enough ↦ rw enough (
      λ e. (
        ground arith,
        λ k g. verify_at-IsAttested k (rw (zero_plus k) at (bits_sound q.rids 0 e k g)),
      ),
      λ (n, a). bits_complete q.rids 0 (λ k g. rw (zero_plus k) (IsAttested-verify_at k (a k g))),
    )
  ]

-- The bits that are set are the replicas that have a signature.
abbrev pub IsCounted : QuorumCert → Type 0
IsCounted q = (k : ℕ) → (get_elem? q.rids k ≡ some true) ↔ (is_some (lookup k q.sigs) ≡ true)

no_bit : (n k : ℕ) → get_elem? (clear_bits n) k ≡ some true → ⊥
unfolding clear_bits
no_bit zero k e = cc
no_bit (suc n) zero e = cc
no_bit (suc n) (suc k) e = no_bit n k e

pub new_quorum_cert-IsCounted :
    (config : ReplicaConfig) (h : ℕ) → IsCounted (new_quorum_cert config h)
unfolding new_quorum_cert lookup
new_quorum_cert-IsCounted config h k = (λ e. absurd (no_bit config.nreplicas k e), λ e. cc)

abbrev with_part : (rid : ℕ) (sig : List ℕ) → QuorumCert → QuorumCert
with_part rid sig q = record q { sigs = insert rid sig q.sigs; rids = set q.rids rid true }

with_part_lem :
    (rid : ℕ) (sig : List ℕ) (q : QuorumCert)
    → IsCounted q
    → rid < length q.rids
    → IsCounted (with_part rid sig q)
      × (get_elem? (set q.rids rid true) rid ≡ some true)
      × ((k : ℕ) (old : List ℕ)
          → lookup k q.sigs ≡ some old
          → lookup k (insert rid sig q.sigs) ≡ some old)
with_part_lem rid sig q v h = (
  λ k.
      ground (arith, get_elem?-set q.rids rid k true h, lookup-insert rid k sig q.sigs, v k, v rid),
  ground (arith, get_elem?-set q.rids rid rid true h),
  λ k old l. ground (arith, lookup-insert rid k sig q.sigs, l),
)

guard-eq-ok : (t : Bool) (e : Error) {u : Unit {0}} → guard t e ≡ ok u → t ≡ true
guard-eq-ok true e h = refl
guard-eq-ok false e h = cc

ok-injective {ℓ} : {A : Type ℓ} {a b : A} → Path (Result A) (ok a) (ok b) → a ≡ b
ok-injective h = cc

-- When a part is added to a certificate whose set bits are the replicas with a signature, it has
-- the certificate's hash, its replica's bit is set afterwards, a signature that is there already
-- stays, and the set bits are still those of the replicas with a signature.
pub add_part-IsCounted :
    (rid : ℕ) (pc : PartCert) (q q' : QuorumCert)
    → IsCounted q
    → add_part rid pc q ≡ ok q'
    → IsCounted q'
      × (get_obj_hash pc ≡ q.obj_hash)
      × (get_elem? q'.rids rid ≡ some true)
      × ((k : ℕ) (sig : List ℕ) → lookup k q.sigs ≡ some sig → lookup k q'.sigs ≡ some sig)
unfolding add_part
add_part-IsCounted rid pc q q' v e =
    let (u, same, e₁) = >>=-eq-ok (guard (get_obj_hash pc == q.obj_hash) _) _ e in
    let (sig, of, e₂) = >>=-eq-ok (sig_of pc) _ e₁ in
    let (u₂, small, e₃) = >>=-eq-ok (guard (ltb rid (length q.rids)) _) _ e₂ in
    let h : rid < length q.rids = ltb→lt rid (length q.rids) (guard-eq-ok _ _ small) in
    let (kept, here, old) = with_part_lem rid sig q v h in
    let done : with_part rid sig q ≡ q' = ok-injective e₃ in
    rw (← done) (kept, (==_iff (get_obj_hash pc) q.obj_hash).0 (guard-eq-ok _ _ same), here, old)

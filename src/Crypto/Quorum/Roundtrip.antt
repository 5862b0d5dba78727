-- ===== src/Crypto/Quorum/Roundtrip.antt =====
-- The codec of quorum certificates.
use libe2c_cpp.Prelude.{
  ℕ, zero, suc, ◌+◌, ◌<◌, ◌^◌, ◌≡◌, refl, ◌∙◌, List, [], ◌∷◌, ◌++◌, some, Bool, true, false, Assoc,
  lookup, assign, lookup-assign, length, get_elem?, arith, ok, ◌⊎◌, inl, inr, ◌==◌, ==_iff,
  Bool-cases,
}
use mathlib.Core.List.{append_assoc}
use libe2c_cpp.Wire.{Salticidae, IsStream}
use libe2c_cpp.Crypto.{Secp256k1, IsSecp256k1, put_sig}
use libe2c_cpp.Crypto.Quorum.{
  QuorumCert, replica_id, put_sigs, put_quorum_cert, read_sigs, read_quorum_cert, verify_at,
  verify_bits,
}
use libe2c_cpp.Entity.Config.{ReplicaConfig}
use libe2c_cpp.Entity.Codec.Signed.{read-put_sig}

-- Every bit that is set, from bit `i` on, has a signature of 64 bytes.
abbrev pub AreSigned : QuorumCert → (i : ℕ) → List Bool → Type 0
AreSigned q i [] = Unit {0}
AreSigned q i (false ∷ bs) = AreSigned q (suc i) bs
AreSigned q i (true ∷ bs) =
    ((sig : List ℕ) × (lookup (replica_id i) q.sigs ≡ some sig) × (length sig ≡ 64))
    × AreSigned q (suc i) bs

-- Two tables have the same signatures at the bits that are set.
abbrev pub Agree : Assoc (List ℕ) → Assoc (List ℕ) → (i : ℕ) → List Bool → Type 0
Agree m' m i bs =
    (k : ℕ)
    → get_elem? bs k ≡ some true
    → lookup (replica_id (i + k)) m' ≡ lookup (replica_id (i + k)) m

Agree-tail :
    (m' m : Assoc (List ℕ)) (i : ℕ) (b : Bool) (bs : List Bool)
    → Agree m' m i (b ∷ bs)
    → Agree m' m (suc i) bs
Agree-tail m' m i b bs a k e = let at : suc i + k ≡ i + suc k = omega arith in rw at (a (suc k) e)

Agree-cons :
    (m' m : Assoc (List ℕ)) (i : ℕ) (b : Bool) (bs : List Bool)
    → (b ≡ true → lookup (replica_id i) m' ≡ lookup (replica_id i) m)
    → Agree m' m (suc i) bs
    → Agree m' m i (b ∷ bs)
Agree-cons m' m i b bs first a zero e =
    let zero_ : i ≡ i + 0 = omega arith in
    let set_ : b ≡ true = ground arith in rw zero_ at (first set_)
Agree-cons m' m i b bs first a (suc j) e =
    let at : suc i + j ≡ i + suc j = omega arith in rw at at (a j e)

module _ (w : Salticidae) (l : Secp256k1) (config : ReplicaConfig) (q q' : QuorumCert)
    (same : q'.obj_hash ≡ q.obj_hash) where
  pub verify_bits-Agree :
      (i : ℕ) (bs : List Bool)
      → Agree q'.sigs q.sigs i bs
      → verify_bits w l config q' i bs ≡ verify_bits w l config q i bs
  unfolding verify_bits verify_at
  verify_bits-Agree i [] a = refl
  verify_bits-Agree i (false ∷ bs) a =
      verify_bits-Agree (suc i) bs (Agree-tail q'.sigs q.sigs i false bs a)
  verify_bits-Agree i (true ∷ bs) a =
      let zero_ : i + 0 ≡ i = omega arith in
      let here : lookup (replica_id i) q'.sigs ≡ lookup (replica_id i) q.sigs =
        rw zero_ at (a 0 refl) in
      let rest = verify_bits-Agree (suc i) bs (Agree-tail q'.sigs q.sigs i true bs a) in
      rw (here, same, rest) refl

-- A table that was read has what an earlier one has, or what the certificate has.
assigned :
    (r j : ℕ) (sig : List ℕ) (m m' sigs : Assoc (List ℕ))
    → lookup r sigs ≡ some sig
    → (lookup j m' ≡ lookup j (assign r sig m)) ⊎ (lookup j m' ≡ lookup j sigs)
    → (lookup j m' ≡ lookup j m) ⊎ (lookup j m' ≡ lookup j sigs)
assigned r j sig m m' sigs at (inr e) = inr e
assigned r j sig m m' sigs at (inl e) = elim (Bool-cases (r == j)) [
  | inl same ↦
      let eq : r ≡ j = (==_iff r j).0 same in
      inr (e ∙ lookup-assign r j sig m ∙ ground (arith, same, at, eq))
  | inr other ↦ inl (e ∙ lookup-assign r j sig m ∙ ground (arith, other))
]

assigned_here :
    (r : ℕ) (sig : List ℕ) (m m' sigs : Assoc (List ℕ))
    → lookup r sigs ≡ some sig
    → (lookup r m' ≡ lookup r (assign r sig m)) ⊎ (lookup r m' ≡ lookup r sigs)
    → lookup r m' ≡ lookup r sigs
assigned_here r sig m m' sigs at (inr e) = e
assigned_here r sig m m' sigs at (inl e) = e ∙ lookup-assign r r sig m ∙ ground (arith, at)

module _ (w : Salticidae) (l : Secp256k1) (public : List ℕ → List ℕ) (s : IsStream w)
    (k : IsSecp256k1 l public) where
  read_sigs-put_sigs :
      (q : QuorumCert) (i : ℕ) (bs : List Bool) (m : Assoc (List ℕ)) (rest : List ℕ)
      → AreSigned q i bs
      → (bytes : List ℕ) × (m' : Assoc (List ℕ)) × (put_sigs w l q i bs ≡ ok bytes)
        × (read_sigs w l i bs m (bytes ++ rest) ≡ ok (m', rest))
        × ((j : ℕ) → (lookup j m' ≡ lookup j m) ⊎ (lookup j m' ≡ lookup j q.sigs))
        × Agree m' q.sigs i bs
  unfolding put_sigs read_sigs
  read_sigs-put_sigs q i [] m rest signed = ([], m, refl, refl, λ j. inl refl, λ j e. cc)
  read_sigs-put_sigs q i (false ∷ bs) m rest signed =
      let (bytes, m', put, read, kept, agree) = read_sigs-put_sigs q (suc i) bs m rest signed in
      (bytes, m', put, read, kept, Agree-cons m' q.sigs i false bs (λ e. cc) agree)
  read_sigs-put_sigs q i (true ∷ bs) m rest ((sig, at, long), signed) =
      let (bytes, m', put, read, kept, agree) =
        read_sigs-put_sigs q (suc i) bs (assign (replica_id i) sig m) rest signed in
      (
        put_sig w l sig ++ bytes,
        m',
        rw (at, put) refl,
        rw (append_assoc, read-put_sig w l public s k sig (bytes ++ rest) long) read,
        λ j. assigned (replica_id i) j sig m m' q.sigs at (kept j),
        Agree-cons m' q.sigs i true bs
            (λ e. assigned_here (replica_id i) sig m m' q.sigs at (kept (replica_id i))) agree,
      )

  -- A certificate whose hash fits, with a signature of 64 bytes for every bit that is set, under the
  -- bit's number cut to 16 bits, is written,
  -- and read back it has the same hash, the same bits and, at the bits that are set, the same
  -- signatures; what follows it in the stream is left. So the signatures of the one verify exactly
  -- when those of the other do, under any configuration.
  pub read-put_quorum_cert :
      (q : QuorumCert) (rest : List ℕ)
      → AreSigned q 0 q.rids
      → q.obj_hash < 2 ^ 256
      → (bytes : List ℕ) × (q' : QuorumCert) × (put_quorum_cert w l q ≡ ok bytes)
        × (read_quorum_cert w l (bytes ++ rest) ≡ ok (q', rest))
        × (q'.obj_hash ≡ q.obj_hash)
        × (q'.rids ≡ q.rids)
        × Agree q'.sigs q.sigs 0 q.rids
        × ((config : ReplicaConfig)
            → verify_bits w l config q' 0 q'.rids ≡ verify_bits w l config q 0 q.rids)
  unfolding put_quorum_cert read_quorum_cert
  read-put_quorum_cert q rest signed small =
      let (bytes, m, put, read, kept, agree) = read_sigs-put_sigs q 0 q.rids [] rest signed in
      let q' : QuorumCert = record { obj_hash = q.obj_hash; rids = q.rids; sigs = m } in
      let tail_ = w.put_bits q.rids ++ bytes in
      (
        w.put_hash q.obj_hash ++ tail_,
        q',
        rw put refl,
        rw
            (
              append_assoc (w.put_hash q.obj_hash) tail_ rest,
              s.hash q.obj_hash (tail_ ++ rest) small,
              append_assoc (w.put_bits q.rids) bytes rest,
              s.bits q.rids (bytes ++ rest),
              read,
            )
            refl,
        refl,
        refl,
        agree,
        λ config. verify_bits-Agree w l config q q' refl 0 q.rids agree,
      )

-- ===== src/Crypto/Quorum/Pooled.antt =====
-- The verification of a quorum certificate through the thread pool, src/crypto.cpp: every signature
-- is verified, and the results are joined when all are there. A task's result is its verification's,
-- which is what the pool resolves its promise with.
use libe2c_cpp.Prelude.{
  ℕ, zero, suc, ◌+◌, ◌<◌, ◌≤◌, ◌≡◌, ◌≢◌, refl, List, [], ◌∷◌, Bool, true, false, ltb, length,
  get_elem?, some, arith, if◌then◌else◌, Result, ok, err, ◌>>=◌, >>=-eq-ok, Bool-cases, inl, inr,
  empty_promises,
}
use libe2c_cpp.Wire.{Salticidae}
use libe2c_cpp.Crypto.{Secp256k1}
use libe2c_cpp.Entity.Config.{ReplicaConfig}
use libe2c_cpp.Crypto.Quorum.Votes.{suc_shift, zero_plus}
use libe2c_cpp.Crypto.Quorum.{QuorumCert, verify_at, verify_bits, verify_quorum}

-- `promise::all`, which throws when it is given no promise, and its continuation.
unfoldable pub all_valid : List Bool → Bool
all_valid [] = true
all_valid (v ∷ vs) = if v then all_valid vs else false

unfoldable pub join_valid : List Bool → Result Bool
unfolding all_valid
join_valid [] = err empty_promises
join_valid (v ∷ vs) = ok (all_valid (v ∷ vs))

module _ (w : Salticidae) (l : Secp256k1) (config : ReplicaConfig) (q : QuorumCert) where
  -- The tasks, from bit `i` on, each with its result.
  unfoldable pub pool_bits : (i : ℕ) → List Bool → Result (List Bool)
  unfolding verify_at
  pool_bits i [] = ok []
  pool_bits i (false ∷ bs) = pool_bits (suc i) bs
  pool_bits i (true ∷ bs) = do
    valid ← verify_at w l config q i
    rest ← pool_bits (suc i) bs
    ok (valid ∷ rest)

  unfoldable pub verify_pooled : Result Bool
  unfolding pool_bits join_valid
  verify_pooled =
      if ltb (length q.sigs) config.nmajority
      then ok false
      else (do vs ← pool_bits 0 q.rids; join_valid vs)

ok-injective {ℓ} : {A : Type ℓ} {a b : A} → Path (Result A) (ok a) (ok b) → a ≡ b
ok-injective h = cc

joined :
    (vs : List Bool) {b : Bool}
    → join_valid vs ≡ ok b
    → Path (Result Bool) (ok (all_valid vs)) (ok b)
unfolding join_valid
joined [] e = cc
joined (v ∷ vs) e = e

join_returns : (vs : List Bool) → vs ≢ [] → (b : Bool) × (join_valid vs ≡ ok b)
unfolding join_valid
join_returns [] ne = absurd (ne refl)
join_returns (v ∷ vs) ne = (all_valid (v ∷ vs), refl)

chosen :
    (valid all : Bool) → (if valid then ok all else ok false) ≡ ok (if valid then all else false)
chosen true all = refl
chosen false all = refl

module _ (w : Salticidae) (l : Secp256k1) (config : ReplicaConfig) (q : QuorumCert) where
  -- The check of a signature does not fail.
  abbrev pub Returns : (bit : ℕ) → Type 0
  Returns k = (v : Bool) × (verify_at w l config q k ≡ ok v)

  bits_agree :
      (bs : List Bool) (i : ℕ) (vs : List Bool)
      → pool_bits w l config q i bs ≡ ok vs
      → verify_bits w l config q i bs ≡ ok (all_valid vs)
  unfolding pool_bits verify_bits all_valid
  bits_agree [] i vs e = rw (← ok-injective e) refl
  bits_agree (false ∷ bs) i vs e = bits_agree bs (suc i) vs e
  bits_agree (true ∷ bs) i vs e =
      let (valid, at, e₁) = >>=-eq-ok (verify_at w l config q i) _ e in
      let (rest, more, e₂) = >>=-eq-ok (pool_bits w l config q (suc i) bs) _ e₁ in
      let whole = bits_agree bs (suc i) rest more in
      rw (at, ← ok-injective e₂, whole) (chosen valid (all_valid rest))

  bits_return :
      (bs : List Bool) (i : ℕ)
      → ((k : ℕ) → get_elem? bs k ≡ some true → Returns (i + k))
      → (vs : List Bool) × (pool_bits w l config q i bs ≡ ok vs)
        × ((k : ℕ) → get_elem? bs k ≡ some true → vs ≢ [])
  unfolding pool_bits
  bits_return [] i a = ([], refl, λ k g. cc)
  bits_return (false ∷ bs) i a =
      let (vs, run, some_) = bits_return bs (suc i) (λ k g. rw (suc_shift i k) (a (suc k) g)) in
      (vs, run, next vs some_)
    where
      next :
          (vs : List Bool)
          → ((k : ℕ) → get_elem? bs k ≡ some true → vs ≢ [])
          → (k : ℕ) → get_elem? (false ∷ bs) k ≡ some true
          → vs ≢ []
      next vs s zero g = cc
      next vs s (suc k) g = s k g
  bits_return (true ∷ bs) i a =
      let (vs, run, some_) = bits_return bs (suc i) (λ k g. rw (suc_shift i k) (a (suc k) g)) in
      let here : i + 0 ≡ i = omega arith in
      let (v, at) : Returns i = rw here at (a 0 refl) in (v ∷ vs, rw (at, run) refl, λ k g e. cc)

  no_bits :
      (bs : List Bool) (i : ℕ)
      → ((k : ℕ) → get_elem? bs k ≢ some true)
      → (pool_bits w l config q i bs ≡ ok []) × (verify_bits w l config q i bs ≡ ok true)
  unfolding pool_bits verify_bits
  no_bits [] i a = (refl, refl)
  no_bits (false ∷ bs) i a = no_bits bs (suc i) (λ k. a (suc k))
  no_bits (true ∷ bs) i a = absurd (a 0 refl)

  agrees : (b : Bool) → verify_pooled w l config q ≡ ok b → verify_quorum w l config q ≡ ok b
  unfolding verify_pooled verify_quorum
  agrees b e = elim (Bool-cases (ltb (length q.sigs) config.nmajority)) [
    | inl few ↦ rw few (rw few at e)
    | inr enough ↦
        let e' = rw enough at e in
        let (vs, run, last) = >>=-eq-ok (pool_bits w l config q 0 q.rids) _ e' in
        rw (enough, bits_agree q.rids 0 vs run) (joined vs last)
  ]

  too_few : length q.sigs < config.nmajority → verify_pooled w l config q ≡ ok false
  unfolding verify_pooled
  too_few lt = ground (arith, lt)

  returns :
      config.nmajority ≤ length q.sigs
      → ((k : ℕ) → get_elem? q.rids k ≡ some true → Returns k)
      → (k : ℕ) → get_elem? q.rids k ≡ some true
      → (b : Bool) × (verify_pooled w l config q ≡ ok b)
  unfolding verify_pooled
  returns le a k g =
      let enough : ltb (length q.sigs) config.nmajority ≡ false = ground (arith, le) in
      let (vs, run, some_) = bits_return q.rids 0 (λ j h. rw (zero_plus j) (a j h)) in
      let (b, e) = join_returns vs (some_ k g) in (b, rw (enough, run) e)

  throws :
      config.nmajority ≤ length q.sigs
      → ((k : ℕ) → get_elem? q.rids k ≢ some true)
      → (verify_pooled w l config q ≡ err empty_promises) × (verify_quorum w l config q ≡ ok true)
  unfolding verify_pooled verify_quorum join_valid
  throws le a =
      let enough : ltb (length q.sigs) config.nmajority ≡ false = ground (arith, le) in
      let (none_, all) = no_bits q.rids 0 a in (rw (enough, none_) refl, rw enough all)

  -- When the verification through the pool gives a result, the sequential one gives the same, though
  -- it stops at the first signature that is not valid. The one through the pool gives a result if
  -- the signatures are too few for the majority, and if they are enough, some bit is set, and the
  -- check of each set bit's signature returns, whether or not it is valid. If they are enough and no
  -- bit is set, it throws, where the sequential one accepts the certificate.
  pub verify_pooled-verify_quorum :
      ((b : Bool) → verify_pooled w l config q ≡ ok b → verify_quorum w l config q ≡ ok b)
      × (length q.sigs < config.nmajority → verify_pooled w l config q ≡ ok false)
      × (config.nmajority ≤ length q.sigs
          → ((k : ℕ) → get_elem? q.rids k ≡ some true → Returns k)
          → (k : ℕ) → get_elem? q.rids k ≡ some true
          → (b : Bool) × (verify_pooled w l config q ≡ ok b))
      × (config.nmajority ≤ length q.sigs
          → ((k : ℕ) → get_elem? q.rids k ≢ some true)
          → (verify_pooled w l config q ≡ err empty_promises)
            × (verify_quorum w l config q ≡ ok true))
  verify_pooled-verify_quorum = (agrees, too_few, returns, throws)

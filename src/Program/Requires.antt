-- ===== src/Program/Requires.antt =====
-- What the replica program has read when it starts.
use libe2c_cpp.Prelude.{
  ℕ, suc, ◌<◌, ◌≡◌, refl, sym, ◌∙◌, ap, List, [], ◌∷◌, Option, none, some, true, false, Result, ok,
  get_elem?_lt, length, arith, ℤ, pos, negsuc, >>=-eq-ok, or_fail-eq-ok, idx_out_of_range,
  Bool-cases, inl, inr,
}
use libe2c_cpp.Wire.{Salticidae}
use libe2c_cpp.Crypto.{Secp256k1, PubKey}
use libe2c_cpp.Crypto.Keys.{read_pub_key, read_priv_key}
use libe2c_cpp.PaceMaker.{PaceMaker}
use libe2c_cpp.Net.App.{App}
use libe2c_cpp.Net.Start
use libe2c_cpp.Program.{Texts, comma, semicolon, narrow, at_idx}
use libe2c_cpp.Program.Replica.{
  Options, Running, three_parts, two_parts, parse_replicas, split_ip_port_cport, client_port_of,
  tls_config, to_reps, to_replicas, start_app, new_app, build, main_body, main,
}
use libe2c_cpp.Program.Starts.{IsListed, AreListed}

ok-injective {ℓ} : {A : Type ℓ} {a b : A} → Path (Result A) (ok a) (ok b) → a ≡ b
ok-injective h = cc

some-injective {ℓ} : {A : Type ℓ} {a b : A} → Path (Option A) (some a) (some b) → a ≡ b
some-injective h = cc

three_parts-eq-ok :
    (xs : List (List ℕ)) {a b c : List ℕ} → three_parts xs ≡ ok (a, b, c) → xs ≡ a ∷ b ∷ c ∷ []
three_parts-eq-ok [] e = cc
three_parts-eq-ok (a ∷ []) e = cc
three_parts-eq-ok (a ∷ b ∷ []) e = cc
three_parts-eq-ok (a ∷ b ∷ c ∷ []) e = cc
three_parts-eq-ok (a ∷ b ∷ c ∷ d ∷ xs) e = cc

two_parts-eq-ok : (xs : List (List ℕ)) {a b : List ℕ} → two_parts xs ≡ ok (a, b) → xs ≡ a ∷ b ∷ []
two_parts-eq-ok [] e = cc
two_parts-eq-ok (a ∷ []) e = cc
two_parts-eq-ok (a ∷ b ∷ []) e = cc
two_parts-eq-ok (a ∷ b ∷ c ∷ xs) e = cc

at_idx-eq-ok :
    {A : Type 0} (k : ℤ) (xs : List A) {x : A}
    → at_idx k xs ≡ ok x
    → (i : ℕ) × (k ≡ pos i) × (i < length xs)
at_idx-eq-ok (pos i) xs e = (i, refl, get_elem?_lt xs i (or_fail-eq-ok _ idx_out_of_range e))
at_idx-eq-ok (negsuc i) xs e = cc

module _ (w : Salticidae) (l : Secp256k1) (t : Texts) where
  -- The replicas, the own index, the raw private key, and what is left behind it.
  abbrev pub IsReady : Options → Running → Type 0
  IsReady o x =
      (rs : List Start.Replica) × (i : ℕ) × (raw rest : List ℕ) × AreListed w l t o.replicas rs
      × (o.idx ≡ pos i)
      × (i < length rs)
      × (t.from_hex o.privkey ≡ ok raw)
      × (read_priv_key w l raw ≡ ok (x.priv_key, rest))

  to_replicas-cons :
      (addr : ℕ) (key cert : List ℕ) (ys : List (ℕ × List ℕ × List ℕ)) (rs : List Start.Replica)
      → to_replicas w l t ((addr, key, cert) ∷ ys) ≡ ok rs
      → (pub_key left : List ℕ) × (zs : List Start.Replica) × (read_pub_key w l key
          ≡ ok (pub_key, left))
        × (to_replicas w l t ys ≡ ok zs)
        × (rs
            ≡ record { addr = addr; key = PubKey.secp256k1 pub_key; cert_hash = t.to_hash cert }
              ∷ zs)
  unfolding to_replicas
  to_replicas-cons addr key cert ys rs e =
      let ((pub_key, left), r₁, r₂) = >>=-eq-ok (read_pub_key w l key) _ e in
      let (zs, r₃, r₄) = >>=-eq-ok (to_replicas w l t ys) _ r₂ in
      (pub_key, left, zs, r₁, r₃, sym (ok-injective r₄))

  to_reps-cons :
      (a b c : List ℕ) (xs : List (List ℕ × List ℕ × List ℕ)) (reps : List (ℕ × List ℕ × List ℕ))
      → to_reps w l t ((a, b, c) ∷ xs) ≡ ok reps
      → (ip cport : List ℕ) × (addr : ℕ) × (key cert : List ℕ) × (ys : List (ℕ × List ℕ × List ℕ))
        × (t.trim_all (t.split a semicolon) ≡ ip ∷ cport ∷ [])
        × (t.net_addr ip ≡ ok addr)
        × (t.from_hex b ≡ ok key)
        × (t.from_hex c ≡ ok cert)
        × (to_reps w l t xs ≡ ok ys)
        × (reps ≡ (addr, key, cert) ∷ ys)
  unfolding to_reps split_ip_port_cport
  to_reps-cons a b c xs reps e =
      let ((ip, cport), q₁, q₂) = >>=-eq-ok (split_ip_port_cport w l t a) _ e in
      let (addr, q₃, q₄) = >>=-eq-ok (t.net_addr ip) _ q₂ in
      let (key, q₅, q₆) = >>=-eq-ok (t.from_hex b) _ q₄ in
      let (cert, q₇, q₈) = >>=-eq-ok (t.from_hex c) _ q₆ in
      let (ys, q₉, q₁₀) = >>=-eq-ok (to_reps w l t xs) _ q₈ in
      (ip, cport, addr, key, cert, ys, two_parts-eq-ok _ q₁, q₃, q₅, q₇, q₉, sym (ok-injective q₁₀))

  -- One text more, and its replica.
  IsListed-cons :
      (s a b c ip cport key cert pub_key left : List ℕ) (addr : ℕ)
      → three_parts (t.trim_all (t.split s comma)) ≡ ok (a, b, c)
      → t.trim_all (t.split a semicolon) ≡ ip ∷ cport ∷ []
      → t.net_addr ip ≡ ok addr
      → t.from_hex b ≡ ok key
      → t.from_hex c ≡ ok cert
      → read_pub_key w l key ≡ ok (pub_key, left)
      → IsListed w l t s
          (record { addr = addr; key = PubKey.secp256k1 pub_key; cert_hash = t.to_hash cert })
  IsListed-cons s a b c ip cport key cert pub_key left addr p split net hex hex' read = record {
    address = a;
    key = b;
    cert = c;
    ip = ip;
    cport = cport;
    raw_key = key;
    raw_cert = cert;
    pub_key = pub_key;
    rest = left;
    parts = three_parts-eq-ok _ p;
    ports = split;
    addr_read = net;
    key_bytes = hex;
    key_read = read;
    cert_bytes = hex';
    is = refl;
  }

  abbrev Listed : List (List ℕ) → List Start.Replica → ℕ → Type 0
  Listed ss rs n = AreListed w l t ss rs × (length rs ≡ n)

  Listed-same :
      (ss : List (List ℕ)) (rs rs' : List Start.Replica) (n n' : ℕ)
      → rs' ≡ rs
      → n' ≡ n
      → Listed ss rs n
      → Listed ss rs' n'
  Listed-same ss rs rs' n n' e e' v = rw (e, e') v

  -- The three loops over the list, read backwards.
  loops-Listed :
      (ss : List (List ℕ)) (parsed : List (List ℕ × List ℕ × List ℕ))
      (reps : List (ℕ × List ℕ × List ℕ)) (rs : List Start.Replica)
      → parse_replicas w l t ss ≡ ok parsed
      → to_reps w l t parsed ≡ ok reps
      → to_replicas w l t reps ≡ ok rs
      → Listed ss rs (length parsed)
  unfolding parse_replicas
  loops-Listed [] parsed reps rs p q r =
      let e₁ : parsed ≡ [] = sym (ok-injective p) in
      let e₂ : reps ≡ [] = unfold to_reps in sym (ok-injective (rw e₁ at q)) in
      let e₃ : rs ≡ [] = unfold to_replicas in sym (ok-injective (rw e₂ at r)) in
      Listed-same [] [] rs 0 (length parsed) e₃ (ap length e₁) (tt, refl)
  loops-Listed (s ∷ ss) parsed reps rs p q r =
      let ((a, b, c), p₁, p₂) = >>=-eq-ok (three_parts (t.trim_all (t.split s comma))) _ p in
      let (xs, p₃, p₄) = >>=-eq-ok (parse_replicas w l t ss) _ p₂ in
      let e₁ : parsed ≡ (a, b, c) ∷ xs = sym (ok-injective p₄) in
      let q' = ap (to_reps w l t) (sym e₁) ∙ q in
      let (ip, cport, addr, key, cert, ys, split, net, hex, hex', more, e₂) =
        to_reps-cons a b c xs reps q' in
      let r' = ap (to_replicas w l t) (sym e₂) ∙ r in
      let (pub_key, left, zs, read, more', e₃) = to_replicas-cons addr key cert ys rs r' in
      let (rest, n) = loops-Listed ss xs ys zs p₃ more more' in
      let one =
        IsListed-cons s a b c ip cport key cert pub_key left addr p₁ split net hex hex' read in
      Listed-same (s ∷ ss) (_ ∷ zs) rs (suc (length xs)) (length parsed) e₃ (ap length e₁)
        ((one, rest), ap suc n)

  new_app-eq-ok :
      (blk_size rid : ℕ) (raw : List ℕ) (addr delta : ℕ) (p : PaceMaker) (a : App) (key : List ℕ)
      → new_app w l t blk_size rid raw addr delta p ≡ ok (a, key)
      → (rest : List ℕ) × (read_priv_key w l raw ≡ ok (key, rest))
  unfolding new_app
  new_app-eq-ok blk_size rid raw addr delta p a key e =
      let ((k, rest), e₁, e₂) = >>=-eq-ok (read_priv_key w l raw) _ e in
      (rest, e₁ ∙ ap (λ y. ok (y.1, rest)) (ok-injective e₂))

  start_app-eq-ok :
      (reps : List (ℕ × List ℕ × List ℕ)) (a a' : App)
      → start_app w l t reps a ≡ ok a'
      → (rs : List Start.Replica) × (to_replicas w l t reps ≡ ok rs)
  unfolding start_app
  start_app-eq-ok reps a a' e =
      let (rs, e₁, e₂) = >>=-eq-ok (to_replicas w l t reps) _ e in (rs, e₁)

  build-eq-ok :
      (o : Options) (parsed : List (List ℕ × List ℕ × List ℕ)) (addr : ℕ) (port : ℤ)
      (tls : Option (List ℕ × List ℕ)) (x : Running)
      → build w l t o parsed addr port tls ≡ ok x
      → (reps : List (ℕ × List ℕ × List ℕ)) × (rs : List Start.Replica) × (raw rest : List ℕ)
        × (to_reps w l t parsed ≡ ok reps)
        × (to_replicas w l t reps ≡ ok rs)
        × (t.from_hex o.privkey ≡ ok raw)
        × (read_priv_key w l raw ≡ ok (x.priv_key, rest))
  unfolding build
  build-eq-ok o parsed addr port tls x e =
      let (raw, e₁, f₁) = >>=-eq-ok (t.from_hex o.privkey) _ e in
      let pmaker : PaceMaker = record { proposer = narrow 16 o.fixed_proposer } in
      let ((a, key), e₂, f₂) =
        >>=-eq-ok
          (new_app w l t (narrow 32 o.blk_size) (narrow 16 o.idx) raw addr o.imp_timeout pmaker) _
          f₁ in
      let (reps, e₃, f₃) = >>=-eq-ok (to_reps w l t parsed) _ f₂ in
      let (a', e₄, f₄) = >>=-eq-ok (start_app w l t reps a) _ f₃ in
      let (rs, r) = start_app-eq-ok reps a a' e₄ in
      let (rest, read) =
        new_app-eq-ok (narrow 32 o.blk_size) (narrow 16 o.idx) raw addr o.imp_timeout pmaker a key
          e₂ in
      let same : key ≡ x.priv_key = ap (λ y. y.priv_key) (ok-injective f₄) in
      (reps, rs, raw, rest, e₃, r, e₁, read ∙ ap (λ k. ok (k, rest)) same)

  main_body-eq-ok : (o : Options) (x : Running) → main_body w l t o ≡ ok x → IsReady o x
  unfolding main_body
  main_body-eq-ok o x e =
      let (parsed, e₁, f₁) = >>=-eq-ok (parse_replicas w l t o.replicas) _ e in
      let (own, e₂, f₂) = >>=-eq-ok (at_idx o.idx parsed) _ f₁ in
      let (port, e₃, f₃) = >>=-eq-ok (client_port_of w l t o.client_port own.0) _ f₂ in
      let (parts, e₄, f₄) = >>=-eq-ok (split_ip_port_cport w l t own.0) _ f₃ in
      let (addr, e₅, f₅) = >>=-eq-ok (t.net_addr parts.0) _ f₄ in
      let (tls, e₆, f₆) = >>=-eq-ok (tls_config w l t o.tls_privkey o.tls_cert o.notls) _ f₅ in
      let (reps, rs, raw, rest, q, r, hex, read) = build-eq-ok o parsed addr port tls x f₆ in
      let (listed, n) = loops-Listed o.replicas parsed reps rs e₁ q r in
      let (i, idx, lt) = at_idx-eq-ok o.idx parsed e₂ in
      (rs, i, raw, rest, listed, idx, omega (arith, lt, n), hex, read)

  -- Asked for help, the program prints it and starts nothing, whatever the other options are. If it
  -- starts, it was not asked, every text of the list of replicas has exactly three parts, which are
  -- read as an address with exactly one port behind it, a key and a certificate hash; its own index
  -- is not negative and below the number of replicas; and its private key is the one that the option
  -- gives in hexadecimal. So it does not start with any option of these missing or out of range.
  pub main_requires :
      (o : Options)
      → (o.help ≡ true → main w l t o ≡ ok none)
        × ((x : Running) → main w l t o ≡ ok (some x) → (o.help ≡ false) × IsReady o x)
  unfolding main
  main_requires o = (
    λ asked. rw asked refl,
    λ x e. elim (Bool-cases o.help) [
      | inl asked ↦ absurd (let e' = rw asked at e in let no_ : ⊥ = cc in no_)
      | inr unasked ↦
          let (y, run, same) = >>=-eq-ok (main_body w l t o) _ (rw unasked at e) in
          let eq : y ≡ x = some-injective (ok-injective same) in
          (unasked, main_body-eq-ok o x (rw (← eq) run))
    ],
  )

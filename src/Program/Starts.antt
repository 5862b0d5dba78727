-- ===== src/Program/Starts.antt =====
-- What a replica program that is given a well-formed list of replicas starts as.
use libe2c_cpp.Prelude.{
  ℕ, zero, suc, ◌-◌, ◌/◌, ◌^◌, ◌≤◌, ◌<◌, ◌≡◌, ◌≢◌, refl, ap, List, [], ◌∷◌, none, some, false, ok,
  get_elem?, get_elem?_lt, length, arith, pos, ◌∙◌, sym,
}
use libe2c_cpp.Wire.{Salticidae}
use libe2c_cpp.Crypto.{Secp256k1, PubKey}
use libe2c_cpp.Crypto.Keys.{read_pub_key, read_priv_key}
use libe2c_cpp.Core
use libe2c_cpp.Core.{on_init}
use libe2c_cpp.Net.{Base}
use libe2c_cpp.Net.Start
use libe2c_cpp.Net.Start.{new_base, add_one, add_all}
use libe2c_cpp.Net.Start.Sizes.{others, start_lem}
use libe2c_cpp.Program.{Texts, comma, semicolon, narrow}
use libe2c_cpp.Program.Replica.{
  Options, Running, parse_replicas, split_ip_port_cport, client_port_of, tls_config, to_reps,
  to_replicas, start_app, new_app, build, main_body, main,
}

-- A replica alone at its address.
others_all :
    (a : ℕ) (rs : List Start.Replica)
    → ((j : ℕ) (r : Start.Replica) → get_elem? rs j ≡ some r → r.addr ≢ a)
    → others a rs ≡ length rs
others_all a [] ne = refl
others_all a (r ∷ rs) ne =
    let other = ne 0 r refl in ground (arith, other, others_all a rs (λ j q at. ne (suc j) q at))

others_but_one :
    (a i : ℕ) (rs : List Start.Replica) (self : Start.Replica)
    → get_elem? rs i ≡ some self
    → self.addr ≡ a
    → ((j : ℕ) (r : Start.Replica) → get_elem? rs j ≡ some r → r.addr ≡ a → j ≡ i)
    → suc (others a rs) ≡ length rs
others_but_one a i [] self at here alone = cc
others_but_one a zero (r ∷ rs) self at here alone =
    let rest = others_all a rs (λ j q e same. absurd (omega (arith, alone (suc j) q e same))) in
    let eq : r.addr ≡ a = ground (arith, at, here) in ground (arith, eq, rest)
others_but_one a (suc i) (r ∷ rs) self at here alone =
    let other : r.addr ≢ a = λ same. omega (arith, alone 0 r refl same) in
    let rest =
      others_but_one a i rs self at here (λ j q e same. omega (arith, alone (suc j) q e same)) in
    ground (arith, other, rest)

-- `start` keeps the identity and the delay.
add_all_keeps :
    (rs : List Start.Replica) (i : ℕ) (b : Base)
    → ((add_all i rs b).core.id ≡ b.core.id)
      × ((add_all i rs b).core.delta ≡ b.core.delta)
      × ((add_all i rs b).pmaker ≡ b.pmaker)
unfolding add_all add_one Core.add_replica
add_all_keeps [] i b = (refl, refl, refl)
add_all_keeps (r ∷ rs) i b = ground (arith, add_all_keeps rs (suc i) (add_one i r b))

module _ (w : Salticidae) (l : Secp256k1) (t : Texts) where
  -- The text of a replica: its address with the port of its clients, its key and its certificate hash.
  pub record IsListed (s : List ℕ) (r : Start.Replica) : Type 0 where
    pub address : List ℕ
    pub key : List ℕ
    pub cert : List ℕ
    pub ip : List ℕ
    pub cport : List ℕ
    pub raw_key : List ℕ
    pub raw_cert : List ℕ
    pub pub_key : List ℕ
    pub rest : List ℕ
    pub parts : t.trim_all (t.split s comma) ≡ address ∷ key ∷ cert ∷ []
    pub ports : t.trim_all (t.split address semicolon) ≡ ip ∷ cport ∷ []
    pub addr_read : t.net_addr ip ≡ ok r.addr
    pub key_bytes : t.from_hex key ≡ ok raw_key
    pub key_read : read_pub_key w l raw_key ≡ ok (pub_key, rest)
    pub cert_bytes : t.from_hex cert ≡ ok raw_cert
    pub is :
        r ≡ record { addr = r.addr; key = PubKey.secp256k1 pub_key; cert_hash = t.to_hash raw_cert }

  abbrev pub AreListed : List (List ℕ) → List Start.Replica → Type 0
  AreListed [] [] = Unit {0}
  AreListed (s ∷ ss) (r ∷ rs) = IsListed s r × AreListed ss rs
  AreListed _ _ = ⊥

  -- An entry of the list that is parsed has the address of its replica.
  abbrev IsOwn : List (List ℕ × List ℕ × List ℕ) → List Start.Replica → Type 0
  IsOwn parsed rs =
      (i : ℕ) (r : Start.Replica)
      → get_elem? rs i ≡ some r
      → (x : List ℕ × List ℕ × List ℕ) × (ip : List ℕ) × (cport : List ℕ) × (get_elem? parsed i
          ≡ some x)
        × (split_ip_port_cport w l t x.0 ≡ ok (ip, cport))
        × (t.net_addr ip ≡ ok r.addr)

  IsOwn-cons :
      (s : List ℕ) (r : Start.Replica) (rs : List Start.Replica) (x : IsListed s r)
      (parsed : List (List ℕ × List ℕ × List ℕ))
      → IsOwn parsed rs
      → IsOwn ((x.address, x.key, x.cert) ∷ parsed) (r ∷ rs)
  unfolding split_ip_port_cport
  IsOwn-cons s r rs x parsed own zero q e =
      let eq : r ≡ q = ground arith in
      ((x.address, x.key, x.cert), x.ip, x.cport, refl, rw x.ports refl, rw (← eq) x.addr_read)
  IsOwn-cons s r rs x parsed own (suc i) q e = own i q e

  -- What the loops over a well-formed list make of it.
  record IsParsed (ss : List (List ℕ)) (rs : List Start.Replica) : Type 0 where
    parsed : List (List ℕ × List ℕ × List ℕ)
    reps : List (ℕ × List ℕ × List ℕ)
    parses : parse_replicas w l t ss ≡ ok parsed
    converts : to_reps w l t parsed ≡ ok reps
    reads : to_replicas w l t reps ≡ ok rs
    own : IsOwn parsed rs

  AreListed-IsParsed :
      (ss : List (List ℕ)) (rs : List Start.Replica) → AreListed ss rs → IsParsed ss rs
  unfolding parse_replicas to_reps to_replicas split_ip_port_cport
  AreListed-IsParsed [] [] h = record {
    parsed = [];
    reps = [];
    parses = refl;
    converts = refl;
    reads = refl;
    own = λ i r e. cc;
  }
  AreListed-IsParsed [] (r ∷ rs) h = absurd h
  AreListed-IsParsed (s ∷ ss) [] h = absurd h
  AreListed-IsParsed (s ∷ ss) (r ∷ rs) (x, h) =
      let p = AreListed-IsParsed ss rs h in
      record {
        parsed = (x.address, x.key, x.cert) ∷ p.parsed;
        reps = (r.addr, x.raw_key, x.raw_cert) ∷ p.reps;
        parses = rw (x.parts, p.parses) refl;
        converts = rw (x.ports, x.addr_read, x.key_bytes, x.cert_bytes, p.converts) refl;
        reads = rw (x.key_read, p.reads) (ap (λ q. ok (q ∷ rs)) (sym x.is));
        own = IsOwn-cons s r rs x p.parsed p.own;
      }

  -- The program is not asked for help, and is given n replicas, n from 2 to below 2 ^ 16, each in three parts that are read as
  -- its address, key and certificate hash, at different addresses; its own index i below n; a private
  -- key that is read; a port for its clients; and no key for TLS. Then it starts, with its index as
  -- its identity, its private key, the impeachment timeout as its delay, the fixed proposer cut to 16
  -- bits, n replicas, the n - 1 others as peers, and a majority of n less (n - 2) / 2.
  pub main_starts :
      (o : Options) (rs : List Start.Replica) (i port : ℕ) (self : Start.Replica)
      (raw key rest : List ℕ)
      → o.help ≡ false
      → AreListed o.replicas rs
      → 2 ≤ length rs
      → length rs < 2 ^ 16
      → o.idx ≡ pos i
      → get_elem? rs i ≡ some self
      → ((j : ℕ) (r : Start.Replica) → get_elem? rs j ≡ some r → r.addr ≡ self.addr → j ≡ i)
      → o.client_port ≡ pos port
      → o.tls_privkey ≡ []
      → t.from_hex o.privkey ≡ ok raw
      → read_priv_key w l raw ≡ ok (key, rest)
      → (x : Running) × (main w l t o ≡ ok (some x))
        × (x.priv_key ≡ key)
        × (x.app.base.core.id ≡ i)
        × (x.app.base.core.delta ≡ o.imp_timeout)
        × (x.app.base.pmaker.proposer ≡ narrow 16 o.fixed_proposer)
        × (x.app.base.core.config.nreplicas ≡ length rs)
        × (length x.app.base.peers ≡ length rs - 1)
        × (x.app.base.core.config.nmajority ≡ length rs - (length rs - 2) / 2)
  unfolding main main_body build start_app new_app client_port_of tls_config new_base Start.start
  main_starts o rs i port self raw key rest unasked listed two small idx own alone given plain hex
        priv =
      let p = AreListed-IsParsed o.replicas rs listed in
      let (y, ip, cport, at, split, addr) = p.own i self own in
      let count : suc (others self.addr rs) ≡ length rs =
        others_but_one self.addr i rs self own refl alone in
      let b =
        new_base (narrow 16 o.idx) w.digest_zero o.imp_timeout self.addr (narrow 32 o.blk_size)
          (record { proposer = narrow 16 o.fixed_proposer }) in
      let (n, peers, majority) =
        start_lem (narrow 16 o.idx) w.digest_zero o.imp_timeout self.addr (narrow 32 o.blk_size)
          (record { proposer = narrow 16 o.fixed_proposer }) rs small (omega (arith, count, two)) in
      let (id, delta, pmaker) = add_all_keeps rs 0 b in
      (
        record {
          app = record {
            base = Start.start rs b;
            resp_queue = [];
            responses = [];
            impeach_timer = none;
          };
          priv_key = key;
          clisten_port = narrow 16 (pos port);
          tls = none;
        },
        rw (unasked, p.parses, idx, at, given, split, addr, plain, hex, priv, p.converts, p.reads)
            refl,
        refl,
        id ∙ rw idx (omega (arith, small, get_elem?_lt rs i own)),
        delta,
        ap (λ q. q.proposer) pmaker,
        n,
        peers ∙ omega (arith, count),
        majority ∙ omega (arith, count, two),
      )

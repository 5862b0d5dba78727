-- ===== src/Program/Connects.antt =====
-- A client that is given the list of a replica: whom it connects to, and how it starts to send.
use libe2c_cpp.Prelude.{
  ℕ, zero, suc, ◌+◌, ◌%◌, ◌^◌, ◌≡◌, ◌≤◌, ◌<◌, refl, ◌∙◌, List, [], ◌∷◌, none, Result, ok, ℤ, pos,
  Assoc, insert, lookup, lookup-insert, length-insert_new, length-map, length, All, arith, true,
  false, ap,
}
use libe2c_cpp.Wire.{Salticidae}
use libe2c_cpp.Crypto.{Secp256k1}
use libe2c_cpp.Client
use libe2c_cpp.Client.{client_nfaulty, send_all, try_send}
use libe2c_cpp.Client.Window.{IsIssued, send_all_ends}
use libe2c_cpp.Net.Start.{Replica}
use libe2c_cpp.Program.{Texts, narrow}
use libe2c_cpp.Program.Starts.{IsListed, AreListed}
use libe2c_cpp.Program.Client.{
  Options, check_idx, cid_of, parse_raw, split_ip_port_cport, addresses, connect_all, new_client,
  main,
}

module _ (w : Salticidae) (l : Secp256k1) (t : Texts) (connect_sync : ℕ → Result ℕ) where
  abbrev pub IsReached : ℕ → Type 0
  IsReached a = (c : ℕ) × (connect_sync a ≡ ok c)

  -- Every connection has an index of its own.
  connect_all_lem :
      (addrs : List ℕ) (i : ℕ) (conns : Assoc ℕ)
      → All IsReached addrs
      → i + length addrs ≤ 2 ^ 16
      → ((j : ℕ) → i ≤ j → lookup j conns ≡ none)
      → (all : Assoc ℕ) × (connect_all w t connect_sync i addrs conns ≡ ok all)
        × (length all ≡ length conns + length addrs)
  unfolding connect_all
  connect_all_lem [] i conns reached small free = (conns, refl, omega arith)
  connect_all_lem (a ∷ addrs) i conns ((c, first), reached) small free =
      let key : i % 2 ^ 16 ≡ i = omega (arith, small) in
      let step : connect_all w t connect_sync i (a ∷ addrs) conns
          ≡ connect_all w t connect_sync (suc i) addrs (insert i c conns) =
        rw (first, key) refl in
      let (all, e, n) =
        connect_all_lem addrs (suc i) (insert i c conns) reached (omega (arith, small))
          (λ j le. ground (arith, lookup-insert i j c conns, free j, le)) in
      (all, step ∙ e, omega (arith, n, length-insert_new i c conns (free i (omega arith))))

  -- The port behind the semicolon is a number, and someone listens there.
  abbrev pub IsOpen : (s : List ℕ) (r : Replica) → IsListed w l t s r → Type 0
  IsOpen s r x =
      (port : ℤ) × (t.stoi x.cport ≡ ok port)
      × IsReached (t.with_port r.addr (t.htons (narrow 16 port)))

  abbrev pub AreOpen : (ss : List (List ℕ)) (rs : List Replica) → AreListed w l t ss rs → Type 0
  AreOpen [] [] h = Unit {0}
  AreOpen (s ∷ ss) (r ∷ rs) (x, h) = IsOpen s r x × AreOpen ss rs h
  AreOpen [] (r ∷ rs) h = ⊥
  AreOpen (s ∷ ss) [] h = ⊥

  -- What the loops over the list make of it.
  AreOpen-addresses :
      (ss : List (List ℕ)) (rs : List Replica) (h : AreListed w l t ss rs)
      → AreOpen ss rs h
      → (raw : List (List ℕ)) × (addrs : List ℕ) × (parse_raw w t connect_sync ss ≡ ok raw)
        × (addresses w t connect_sync raw ≡ ok addrs)
        × (length raw ≡ length rs)
        × (length addrs ≡ length rs)
        × All IsReached addrs
  unfolding parse_raw addresses split_ip_port_cport
  AreOpen-addresses [] [] h o = ([], [], refl, refl, refl, refl, tt)
  AreOpen-addresses [] (r ∷ rs) h o = absurd h
  AreOpen-addresses (s ∷ ss) [] h o = absurd h
  AreOpen-addresses (s ∷ ss) (r ∷ rs) (x, h) ((port, number, reached), o) =
      let (raw, addrs, parsed, read, n, m, all) = AreOpen-addresses ss rs h o in
      (
        x.address ∷ raw,
        t.with_port r.addr (t.htons (narrow 16 port)) ∷ addrs,
        rw (x.parts, parsed) refl,
        rw (x.ports, x.addr_read, number, read) refl,
        ap suc n,
        ap suc m,
        (reached, all),
      )

  check_idx_lem :
      (i : ℕ) (raw : List (List ℕ)) → i < length raw → (s : List ℕ) × (check_idx (pos i) raw ≡ ok s)
  check_idx_lem i [] lt = absurd (omega arith)
  check_idx_lem zero (s ∷ raw) lt = (s, refl)
  check_idx_lem (suc i) (s ∷ raw) lt = check_idx_lem i raw (omega (arith, lt))

  -- The client is given the list of replicas that the replica program accepts, of n replicas, n
  -- at most 2 ^ 16, with ports at which they can be reached, and its own index i below n. Then it
  -- starts: it has n connections and reckons with the faults of n replicas, its identity is its
  -- index unless one is given, and with fuel for more rounds than its window has places, but for
  -- fewer than 2 ^ 32, so that the window is smaller than that, its sending loop has ended by its
  -- own test. The client's commands with different numbers, below 2 ^ 32, are taken to have
  -- different hashes.
  pub main_connects :
      (o : Options) (rs : List Replica) (i fuel : ℕ) (h : AreListed w l t o.replicas rs)
      → AreOpen o.replicas rs h
      → length rs ≤ 2 ^ 16
      → o.idx ≡ pos i
      → i < length rs
      → narrow 64 o.max_async_num < fuel
      → fuel < 2 ^ 32
      → ((j k : ℕ)
          → j < 2 ^ 32
          → k < 2 ^ 32
          → (Client.new_command w (cid_of o.cid (pos i)) j).hash
            ≡ (Client.new_command w (cid_of o.cid (pos i)) k).hash
          → j ≡ k)
      → (c : Client.Client) × (main w t connect_sync fuel o ≡ ok (send_all w fuel c))
        × (c.cid ≡ cid_of o.cid (pos i))
        × (length c.conns ≡ length rs)
        × (c.nfaulty ≡ client_nfaulty (length rs))
        × ((try_send w true (send_all w fuel c)).0 ≡ false)
  unfolding main lookup
  main_connects o rs i fuel h open_ small idx lt room wide distinct =
      let (raw, addrs, parsed, read, n, m, all) = AreOpen-addresses o.replicas rs h open_ in
      let (s, at) = check_idx_lem i raw (omega (arith, n, lt)) in
      let (conns, connected, k) =
        connect_all_lem addrs 0 [] all (omega (arith, m, small)) (λ j le. refl) in
      let c =
        new_client w t connect_sync (cid_of o.cid (pos i)) (client_nfaulty (length addrs))
          (narrow 64 o.max_async_num) o.max_iter_num conns in
      let issued : IsIssued w c = record { distinct = distinct; issued = λ q req e. cc } in
      (
        c,
        rw (parsed, idx, at, read, connected) refl,
        refl,
        length-map conns (λ x. x.1) ∙ omega (arith, k, m),
        ap client_nfaulty m,
        send_all_ends w fuel c issued (omega (arith, room)) (omega (arith, wide)),
      )

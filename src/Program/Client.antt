-- ===== src/Program/Client.antt =====
-- `main`, `connect_all` and `split_ip_port_cport` of programs/client.cpp, up to the event loop. A
-- connection is the number that `connect_sync` returns for an address.
use libe2c_cpp.Prelude.{
  ℕ, zero, suc, ◌%◌, ◌^◌, List, [], ◌∷◌, map, Result, ok, err, format_error, invalid_argument,
  out_of_range, ◌>>=◌, ℤ, pos, negsuc, Assoc, insert, length, get_elem?, or_fail,
}
use libe2c_cpp.Wire.{Salticidae}
use libe2c_cpp.Client
use libe2c_cpp.Client.{client_nfaulty, send_all}
use libe2c_cpp.Program.{Texts, comma, semicolon, narrow}

pub record Options : Type 0 where
  pub idx : ℤ
  pub replicas : List (List ℕ)
  pub max_iter_num : ℤ
  pub max_async_num : ℤ
  pub cid : ℤ

abbrev pub default_options : Options
default_options = record {
  idx = pos 0;
  replicas = [];
  max_iter_num = pos 100;
  max_async_num = pos 10;
  cid = negsuc 0;
}

abbrev pub first_part : List (List ℕ) → Result (List ℕ)
first_part [] = err format_error
first_part (a ∷ rest) = ok a

-- `ret[0]` and `ret[1]`, without a test of the size.
abbrev pub first_two : List (List ℕ) → Result (List ℕ × List ℕ)
first_two (a ∷ b ∷ rest) = ok (a, b)
first_two _ = err out_of_range

-- `!(0 <= idx && (size_t)idx < raw.size() && raw.size() > 0)`
abbrev pub check_idx : ℤ → List (List ℕ) → Result (List ℕ)
check_idx (pos n) raw = or_fail (get_elem? raw n) invalid_argument
check_idx (negsuc n) raw = err invalid_argument

abbrev pub cid_of : (cid idx : ℤ) → ℕ
cid_of (negsuc zero) idx = narrow 32 idx
cid_of cid idx = narrow 32 cid

module _ (w : Salticidae) (t : Texts) (connect_sync : ℕ → Result ℕ) where
  unfoldable pub parse_raw : List (List ℕ) → Result (List (List ℕ))
  parse_raw [] = ok []
  parse_raw (s ∷ ss) = do
    a ← first_part (t.trim_all (t.split s comma))
    raw ← parse_raw ss
    ok (a ∷ raw)

  unfoldable pub split_ip_port_cport : List ℕ → Result (List ℕ × List ℕ)
  split_ip_port_cport s = first_two (t.trim_all (t.split s semicolon))

  unfoldable pub addresses : List (List ℕ) → Result (List ℕ)
  unfolding split_ip_port_cport
  addresses [] = ok []
  addresses (s ∷ ss) = do
    (ip, cport) ← split_ip_port_cport s
    addr ← t.net_addr ip
    port ← t.stoi cport
    rest ← addresses ss
    ok (t.with_port addr (t.htons (narrow 16 port)) ∷ rest)

  -- The index becomes a `ReplicaID` of 16 bits.
  unfoldable pub connect_all : (i : ℕ) → List ℕ → Assoc ℕ → Result (Assoc ℕ)
  unfolding insert
  connect_all i [] conns = ok conns
  connect_all i (a ∷ addrs) conns = do
    c ← connect_sync a
    connect_all (suc i) addrs (insert (i % 2 ^ 16) c conns)

  abbrev pub new_client :
      (cid nfaulty max_async_num : ℕ) → (max_iter_num : ℤ) → (conns : Assoc ℕ) → Client.Client
  new_client cid nfaulty max_async_num max_iter_num conns = record {
    cid = cid;
    cnt = 0;
    nfaulty = nfaulty;
    max_async_num = max_async_num;
    max_iter_num = max_iter_num;
    conns = map (λ c. c.1) conns;
    waiting = [];
    sent = [];
  }

  -- The sending loop takes its fuel as an argument.
  unfoldable pub main : (fuel : ℕ) → Options → Result Client.Client
  unfolding parse_raw addresses connect_all client_nfaulty send_all
  main fuel o = do
    raw ← parse_raw o.replicas
    _ ← check_idx o.idx raw
    replicas ← addresses raw
    conns ← connect_all 0 replicas []
    let c =
        new_client (cid_of o.cid o.idx) (client_nfaulty (length replicas))
          (narrow 64 o.max_async_num) o.max_iter_num conns
    ok (send_all w fuel c)

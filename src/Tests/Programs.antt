-- ===== src/Tests/Programs.antt =====
-- The programs' options, with texts that are split at a character, numbers of one digit and hexadecimal
-- texts that are their own bytes.
use libe2c_cpp.Prelude.{
  ℕ, ◌+◌, ◌-◌, ◌*◌, ◌≡◌, refl, List, [], ◌∷◌, ◌++◌, some, true, false, Result, ok, err,
  invalid_replica_info, not_positive, unknown_algo, invalid_argument, if◌then◌else◌, ◌==◌, leb,
  length, get_elem?, ℤ, pos, negsuc, arith, zero, suc, All, Bool, none,
}
use libe2c_cpp.Crypto.{PubKey}
use libe2c_cpp.Crypto.Keys.{read_pub_key, read_priv_key, pubkey_of}
use libe2c_cpp.Client
use libe2c_cpp.Client.{client_nfaulty, send_all, try_send}
use libe2c_cpp.Net.Start
use libe2c_cpp.Program.{Texts}
use libe2c_cpp.Program.Client as ClientMain
use libe2c_cpp.Program.Keygen
use libe2c_cpp.Program.Keygen.{IsPair, main_prints}
use libe2c_cpp.Program.Replica
use libe2c_cpp.Program.Replica.{Running, parse_replicas, split_ip_port_cport}
use libe2c_cpp.Program.Starts.{IsListed, AreListed, main_starts}
use libe2c_cpp.Program.Requires.{IsReady, main_requires}
use libe2c_cpp.Program.Connects.{AreOpen, main_connects}
use libe2c_cpp.Tests.World.{stream, stream-IsStream, curve, curve-IsSecp256k1, zeros}

abbrev add_char : ℕ → List (List ℕ) → List (List ℕ)
add_char c [] = (c ∷ []) ∷ []
add_char c (x ∷ xs) = (c ∷ x) ∷ xs

abbrev split : List ℕ → ℕ → List (List ℕ)
split [] sep = [] ∷ []
split (c ∷ s) sep = let rest = split s sep in if c == sep then [] ∷ rest else add_char c rest

abbrev stoi : List ℕ → Result ℤ
stoi [] = err invalid_argument
stoi (c ∷ s) = if leb 48 c then ok (pos (c - 48)) else err invalid_argument

abbrev net_addr : List ℕ → Result ℕ
net_addr [] = err invalid_argument
net_addr (c ∷ s) = ok c

abbrev to_hash : List ℕ → ℕ
to_hash [] = 0
to_hash (c ∷ s) = c

abbrev texts : Texts
texts = record {
  split = split;
  trim_all = λ xs. xs;
  stoi = stoi;
  from_hex = λ s. ok s;
  net_addr = net_addr;
  with_port = λ addr port. addr * 100 + port;
  htons = λ n. n;
  to_hash = to_hash;
}

abbrev raw_key : ℕ → List ℕ
raw_key i = (70 + i) ∷ zeros 32

-- For 0: address `A`, port `5` for the clients, a key and a certificate hash.
abbrev text : ℕ → List ℕ
text i = (65 + i) ∷ 59 ∷ 53 ∷ 44 ∷ raw_key i ++ 44 ∷ (100 + i) ∷ []

abbrev replica : ℕ → Start.Replica
replica i = record { addr = 65 + i; key = PubKey.secp256k1 (raw_key i); cert_hash = 100 + i }

abbrev lines : List (List ℕ)
lines = text 0 ∷ text 1 ∷ text 2 ∷ []

abbrev replicas : List Start.Replica
replicas = replica 0 ∷ replica 1 ∷ replica 2 ∷ []

abbrev options : Replica.Options
options = record Replica.default_options {
  replicas = lines;
  idx = pos 1;
  client_port = pos 20000;
  privkey = 71 ∷ zeros 31;
}

listed_0 : IsListed stream curve texts (text 0) (replica 0)
unfolding read_pub_key
listed_0 = record {
  address = 65 ∷ 59 ∷ 53 ∷ [];
  key = raw_key 0;
  cert = 100 ∷ [];
  ip = 65 ∷ [];
  cport = 53 ∷ [];
  raw_key = raw_key 0;
  raw_cert = 100 ∷ [];
  pub_key = raw_key 0;
  rest = [];
  parts = refl;
  ports = refl;
  addr_read = refl;
  key_bytes = refl;
  key_read = refl;
  cert_bytes = refl;
  is = refl;
}

listed_1 : IsListed stream curve texts (text 1) (replica 1)
unfolding read_pub_key
listed_1 = record {
  address = 66 ∷ 59 ∷ 53 ∷ [];
  key = raw_key 1;
  cert = 101 ∷ [];
  ip = 66 ∷ [];
  cport = 53 ∷ [];
  raw_key = raw_key 1;
  raw_cert = 101 ∷ [];
  pub_key = raw_key 1;
  rest = [];
  parts = refl;
  ports = refl;
  addr_read = refl;
  key_bytes = refl;
  key_read = refl;
  cert_bytes = refl;
  is = refl;
}

listed_2 : IsListed stream curve texts (text 2) (replica 2)
unfolding read_pub_key
listed_2 = record {
  address = 67 ∷ 59 ∷ 53 ∷ [];
  key = raw_key 2;
  cert = 102 ∷ [];
  ip = 67 ∷ [];
  cport = 53 ∷ [];
  raw_key = raw_key 2;
  raw_cert = 102 ∷ [];
  pub_key = raw_key 2;
  rest = [];
  parts = refl;
  ports = refl;
  addr_read = refl;
  key_bytes = refl;
  key_read = refl;
  cert_bytes = refl;
  is = refl;
}

all_listed : AreListed stream curve texts lines replicas
all_listed = (listed_0, (listed_1, (listed_2, tt)))

alone : (j : ℕ) (r : Start.Replica) → get_elem? replicas j ≡ some r → r.addr ≡ 66 → j ≡ 1
alone zero r e same = absurd (ground (arith, e, same))
alone (suc zero) r e same = refl
alone (suc (suc zero)) r e same = absurd (ground (arith, e, same))
alone (suc (suc (suc j))) r e same = cc

read_own : read_priv_key stream curve (71 ∷ zeros 31) ≡ ok (71 ∷ zeros 31, [])
unfolding read_priv_key
read_own = refl

main_starts_example :
    (x : Running) × (Replica.main stream curve texts options ≡ ok (some x))
    × (x.priv_key ≡ 71 ∷ zeros 31)
    × (x.app.base.core.id ≡ 1)
    × (x.app.base.core.delta ≡ 60)
    × (x.app.base.pmaker.proposer ≡ 1)
    × (x.app.base.core.config.nreplicas ≡ 3)
    × (length x.app.base.peers ≡ 2)
    × (x.app.base.core.config.nmajority ≡ 3)
main_starts_example =
    main_starts stream curve texts options replicas 1 20000 (replica 1) (71 ∷ zeros 31)
      (71 ∷ zeros 31) [] refl all_listed (omega arith) (omega arith) refl refl alone refl refl refl
      read_own

main_requires_example :
    (Path Bool false true → Replica.main stream curve texts options ≡ ok none)
    × ((x : Running)
        → Replica.main stream curve texts options ≡ ok (some x)
        → Path Bool false false × IsReady stream curve texts options x)
main_requires_example = main_requires stream curve texts options

-- A list with a replica in one part, without help and with it.
abbrev bad_options : Replica.Options
bad_options = record options { replicas = text 0 ∷ (65 ∷ []) ∷ [] }

bad_test : Replica.main stream curve texts bad_options ≡ err invalid_replica_info
unfolding Replica.main Replica.main_body parse_replicas
bad_test = refl

help_test : Replica.main stream curve texts (record bad_options { help = true }) ≡ ok none
unfolding Replica.main
help_test = refl

abbrev client_options : ClientMain.Options
client_options = record ClientMain.default_options { replicas = lines }

abbrev connect_sync : ℕ → Result ℕ
connect_sync a = ok a

all_open : AreOpen stream curve texts connect_sync lines replicas all_listed
unfolding all_listed listed_0 listed_1 listed_2
all_open =
    ((pos 5, refl, (6505, refl)), ((pos 5, refl, (6605, refl)), ((pos 5, refl, (6705, refl)), tt)))

hash_of : (n : ℕ) → (Client.new_command stream 0 n).hash ≡ 3 * (n + 21)
unfolding Client.new_command
hash_of n = omega arith

main_connects_example :
    (c : Client.Client) × (ClientMain.main stream texts connect_sync 11 client_options
      ≡ ok (send_all stream 11 c))
    × (c.cid ≡ 0)
    × (length c.conns ≡ 3)
    × (c.nfaulty ≡ client_nfaulty 3)
    × ((try_send stream true (send_all stream 11 c)).0 ≡ false)
main_connects_example =
    main_connects stream curve texts connect_sync client_options replicas 0 11 all_listed all_open
      (omega arith) refl (omega arith) (omega arith) (omega arith)
      (λ j k lj lk e. omega (arith, e, hash_of j, hash_of k))

drawn : (k : ℕ) → Keygen.IsDrawn stream curve (λ n. some (n ∷ zeros 31)) k
unfolding pubkey_of
drawn k = (k ∷ zeros 31, k ∷ zeros 32, refl, refl, refl)

main_prints_example :
    ((printed : List (List ℕ × List ℕ)) × (Keygen.main stream curve
          (λ n. some (n ∷ zeros 31))
          true
          (pos 2)
        ≡ ok printed)
      × (length printed ≡ 2)
      × All (IsPair stream curve (λ n. some (n ∷ zeros 31))) printed)
    × (Keygen.main stream curve (λ n. some (n ∷ zeros 31)) true (pos 0) ≡ err not_positive)
    × (Keygen.main stream curve (λ n. some (n ∷ zeros 31)) true (negsuc 1) ≡ err not_positive)
    × ((k : ℤ) → Keygen.main stream curve (λ n. some (n ∷ zeros 31)) false k ≡ err unknown_algo)
main_prints_example =
    main_prints stream curve (λ n. some (n ∷ zeros 31)) (λ key. key) stream-IsStream
      curve-IsSecp256k1 drawn 1

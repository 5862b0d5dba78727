-- ===== src/Program/Replica.antt =====
-- `main` of programs/application.cpp up to the event loop, with the constructors and `start` of
-- `E2CApp` and of the template `E2C` of include/libe2c/e2c.h. The opaque network settings, the worker
-- counts and the threads have no effect on the state. Durations are natural numbers.
use libe2c_cpp.Prelude.{
  ℕ, zero, ◌*◌, ◌^◌, List, [], ◌∷◌, Option, none, some, Bool, true, false, Result, ok, err,
  invalid_replica_info, invalid_cport, no_client_port, invalid_argument, ◌>>=◌, if◌then◌else◌, ℤ,
  pos, negsuc,
}
use libe2c_cpp.Wire.{Salticidae}
use libe2c_cpp.Crypto.{Secp256k1, PubKey}
use libe2c_cpp.Crypto.Keys.{read_pub_key, read_priv_key}
use libe2c_cpp.PaceMaker.{PaceMaker}
use libe2c_cpp.Net.Start
use libe2c_cpp.Net.Start.{new_base}
use libe2c_cpp.Net.App.{App}
use libe2c_cpp.Program.{Texts, comma, semicolon, narrow, at_idx}

pub record Options : Type 0 where
  pub blk_size : ℤ
  pub parent_limit : ℤ
  pub stat_period : ℕ
  pub replicas : List (List ℕ)
  pub idx : ℤ
  pub client_port : ℤ
  pub privkey : List ℕ
  pub tls_privkey : List ℕ
  pub tls_cert : List ℕ
  pub help : Bool
  pub pace_maker : List ℕ
  pub fixed_proposer : ℤ
  pub base_timeout : ℕ
  pub prop_delay : ℕ
  pub imp_timeout : ℕ
  pub nworker : ℤ
  pub repnworker : ℤ
  pub repburst : ℤ
  pub clinworker : ℤ
  pub cliburst : ℤ
  pub notls : Bool
  pub max_rep_msg : ℤ
  pub max_cli_msg : ℤ

-- What the options are when neither the command line nor the file sets them. "dummy" is spelled out.
abbrev pub default_options : Options
default_options = record {
  blk_size = pos 1;
  parent_limit = negsuc 0;
  stat_period = 200;
  replicas = [];
  idx = pos 0;
  client_port = negsuc 0;
  privkey = [];
  tls_privkey = [];
  tls_cert = [];
  help = false;
  pace_maker = 100 ∷ 117 ∷ 109 ∷ 109 ∷ 121 ∷ [];
  fixed_proposer = pos 1;
  base_timeout = 1;
  prop_delay = 1;
  imp_timeout = 60;
  nworker = pos 1;
  repnworker = pos 1;
  repburst = pos 100;
  clinworker = pos 8;
  cliburst = pos 1000;
  notls = false;
  max_rep_msg = pos (4 * 2 ^ 20);
  max_cli_msg = pos 65536;
}

-- One replica of the option: address, public key, certificate hash.
abbrev pub three_parts : List (List ℕ) → Result (List ℕ × List ℕ × List ℕ)
three_parts (a ∷ b ∷ c ∷ []) = ok (a, b, c)
three_parts _ = err invalid_replica_info

abbrev pub two_parts : List (List ℕ) → Result (List ℕ × List ℕ)
two_parts (a ∷ b ∷ []) = ok (a, b)
two_parts _ = err invalid_cport

-- `catch (std::invalid_argument &)` around `stoi`
abbrev pub port_or_fail : Result ℤ → Result ℤ
port_or_fail (err invalid_argument) = err no_client_port
port_or_fail r = r

-- What `main` has built when it enters the event loop.
pub record Running : Type 0 where
  pub app : App
  pub priv_key : List ℕ
  pub clisten_port : ℕ
  pub tls : Option (List ℕ × List ℕ)

module _ (w : Salticidae) (l : Secp256k1) (t : Texts) where
  unfoldable pub parse_replicas : List (List ℕ) → Result (List (List ℕ × List ℕ × List ℕ))
  parse_replicas [] = ok []
  parse_replicas (s ∷ ss) = do
    r ← three_parts (t.trim_all (t.split s comma))
    rs ← parse_replicas ss
    ok (r ∷ rs)

  unfoldable pub split_ip_port_cport : List ℕ → Result (List ℕ × List ℕ)
  split_ip_port_cport s = two_parts (t.trim_all (t.split s semicolon))

  unfoldable pub client_port_of : ℤ → (binding_addr : List ℕ) → Result ℤ
  unfolding split_ip_port_cport
  client_port_of (negsuc zero) s = do
    (_, cport) ← split_ip_port_cport s
    port_or_fail (t.stoi cport)
  client_port_of port s = ok port

  -- The key and the certificate, in DER.
  unfoldable pub tls_config :
      (tls_privkey tls_cert : List ℕ) (notls : Bool) → Result (Option (List ℕ × List ℕ))
  tls_config [] cert notls = ok none
  tls_config (x ∷ xs) cert true = ok none
  tls_config (x ∷ xs) cert false = do
    key ← t.from_hex (x ∷ xs)
    crt ← t.from_hex cert
    ok (some (key, crt))

  unfoldable pub to_reps : List (List ℕ × List ℕ × List ℕ) → Result (List (ℕ × List ℕ × List ℕ))
  unfolding split_ip_port_cport
  to_reps [] = ok []
  to_reps ((a, b, c) ∷ rs) = do
    (ip, _) ← split_ip_port_cport a
    addr ← t.net_addr ip
    key ← t.from_hex b
    cert ← t.from_hex c
    reps ← to_reps rs
    ok ((addr, key, cert) ∷ reps)

  -- The loop of `E2C::start`
  unfoldable pub to_replicas : List (ℕ × List ℕ × List ℕ) → Result (List Start.Replica)
  unfolding read_pub_key
  to_replicas [] = ok []
  to_replicas ((addr, key, cert) ∷ reps) = do
    (pub_key, _) ← read_pub_key w l key
    rs ← to_replicas reps
    ok (record { addr = addr; key = PubKey.secp256k1 pub_key; cert_hash = t.to_hash cert } ∷ rs)

  -- `E2CApp::start`, with `E2C::start`
  unfoldable pub start_app : List (ℕ × List ℕ × List ℕ) → App → Result App
  unfolding to_replicas Start.start
  start_app reps a = do rs ← to_replicas reps; ok (record a { base = Start.start rs a.base })

  -- `E2CApp::E2CApp`, with `E2C::E2C`, and the `delta` that `set_delta` sets afterwards.
  unfoldable pub new_app :
      (blk_size rid : ℕ) (raw_privkey : List ℕ) (plisten_addr delta : ℕ)
      → PaceMaker
      → Result (App × List ℕ)
  unfolding new_base read_priv_key
  new_app blk_size rid raw plisten_addr delta pmaker = do
    (key, _) ← read_priv_key w l raw
    ok (
      record {
        base = new_base rid w.digest_zero delta plisten_addr blk_size pmaker;
        resp_queue = [];
        responses = [];
        impeach_timer = none;
      },
      key,
    )

  -- The application of a replica with its private key, started with the list of replicas.
  unfoldable pub build :
      Options
      → (replicas : List (List ℕ × List ℕ × List ℕ)) (plisten_addr : ℕ) (port : ℤ)
        (tls : Option (List ℕ × List ℕ))
      → Result Running
  unfolding new_app to_reps start_app
  build o replicas plisten_addr port tls = do
    let pmaker : PaceMaker = record { proposer = narrow 16 o.fixed_proposer }
    raw ← t.from_hex o.privkey
    (a, key) ←
        new_app (narrow 32 o.blk_size) (narrow 16 o.idx) raw plisten_addr o.imp_timeout pmaker
    reps ← to_reps replicas
    a' ← start_app reps a
    ok (record { app = a'; priv_key = key; clisten_port = narrow 16 port; tls = tls })

  -- Behind the help
  unfoldable pub main_body : Options → Result Running
  unfolding parse_replicas client_port_of split_ip_port_cport tls_config build
  main_body o = do
    replicas ← parse_replicas o.replicas
    (binding_addr, _, _) ← at_idx o.idx replicas
    port ← client_port_of o.client_port binding_addr
    (ip, _) ← split_ip_port_cport binding_addr
    plisten_addr ← t.net_addr ip
    tls ← tls_config o.tls_privkey o.tls_cert o.notls
    build o replicas plisten_addr port tls

  -- With `help` the program prints the help and exits: it builds nothing.
  unfoldable pub main : Options → Result (Option Running)
  unfolding main_body
  main o = let run = (do x ← main_body o; ok (some x)) in if o.help then ok none else run

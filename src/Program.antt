-- ===== src/Program.antt =====
-- How the two programs read their options: what programs/application.cpp and programs/client.cpp
-- call of salticidae and of the standard library on texts, and the numbers that they narrow. A text is
-- the list of its character codes. `config.parse` fills the options in; here they are given.
pub mod Replica
pub mod Starts
pub mod Requires
pub mod Client
pub mod Connects
pub mod Keygen
use libe2c_cpp.Prelude.{
  ℕ, ◌+◌, ◌-◌, ◌%◌, ◌^◌, List, [], ◌∷◌, Option, none, some, get_elem?, Result, ok, err,
  out_of_range, idx_out_of_range, or_fail, ℤ, pos, negsuc,
}

pub record Texts : Type 0 where
  pub split : (s : List ℕ) (separator : ℕ) → List (List ℕ)
  pub trim_all : List (List ℕ) → List (List ℕ)
  -- `std::stoi`, which throws `invalid_argument` or `out_of_range`
  pub stoi : List ℕ → Result ℤ
  pub from_hex : List ℕ → Result (List ℕ)
  -- `NetAddr(s)`, and `NetAddr(addr.ip, port)`
  pub net_addr : List ℕ → Result ℕ
  pub with_port : (addr : ℕ) (port : ℕ) → ℕ
  pub htons : ℕ → ℕ
  -- `uint256_t(bytes)`
  pub to_hash : List ℕ → ℕ

abbrev pub comma : ℕ
comma = 44

abbrev pub semicolon : ℕ
semicolon = 59

-- An `int` that becomes an unsigned number of `w` bits.
abbrev pub narrow : (w : ℕ) → ℤ → ℕ
narrow w (pos n) = n % 2 ^ w
narrow w (negsuc n) = 2 ^ w - 1 - n % 2 ^ w

-- `0 <= idx && (size_t)idx < xs.size()`, and `xs[idx]`.
abbrev pub at_idx {ℓ} : {A : Type ℓ} → ℤ → List A → Result A
at_idx (pos n) xs = or_fail (get_elem? xs n) idx_out_of_range
at_idx (negsuc n) xs = err idx_out_of_range

-- ===== src/Entity/Storage.antt =====
-- `EntityStorage` of include/libe2c/entity.h. A cache maps a hash to a reference. The functions
-- that take a `block_t` or a `command_t` are given its hash; `try_release` is given the count of its
-- references too.
use libe2c_cpp.Prelude.{
  ℕ, [], Option, none, some, Bool, true, false, Assoc, lookup, insert, erase, is_some, length, ◌==◌,
  if◌then◌else◌,
}

pub record EntityStorage : Type 0 where
  pub blk_cache : Assoc ℕ
  pub cmd_cache : Assoc ℕ

abbrev pub new_storage : EntityStorage
new_storage = record { blk_cache = []; cmd_cache = [] }

-- What `m.insert({k, v}).first->second` is.
abbrev pub present : Option ℕ → ℕ → ℕ
present none v = v
present (some w) v = w

module _ (s : EntityStorage) where
  -- `delivered` reads `is_delivered` of a block.
  unfoldable pub is_blk_delivered : (ℕ → Bool) → ℕ → Bool
  is_blk_delivered delivered h = elim (lookup h s.blk_cache) [ none ↦ false | some r ↦ delivered r ]

  unfoldable pub is_blk_fetched : ℕ → Bool
  is_blk_fetched h = is_some (lookup h s.blk_cache)

  unfoldable pub add_blk : (h r : ℕ) → ℕ × EntityStorage
  add_blk h r = (present (lookup h s.blk_cache) r, record s { blk_cache = insert h r s.blk_cache })

  unfoldable pub find_blk : ℕ → Option ℕ
  find_blk h = lookup h s.blk_cache

  unfoldable pub is_cmd_fetched : ℕ → Bool
  is_cmd_fetched h = is_some (lookup h s.cmd_cache)

  unfoldable pub add_cmd : (h r : ℕ) → ℕ × EntityStorage
  add_cmd h r = (present (lookup h s.cmd_cache) r, record s { cmd_cache = insert h r s.cmd_cache })

  unfoldable pub find_cmd : ℕ → Option ℕ
  find_cmd h = lookup h s.cmd_cache

  unfoldable pub get_cmd_cache_size : ℕ
  get_cmd_cache_size = length s.cmd_cache

  unfoldable pub get_blk_cache_size : ℕ
  get_blk_cache_size = length s.blk_cache

  unfoldable pub try_release_cmd : (h cnt : ℕ) → Bool × EntityStorage
  try_release_cmd h cnt =
      if cnt == 2 then (true, record s { cmd_cache = erase h s.cmd_cache }) else (false, s)

  unfoldable pub try_release_blk : (h cnt : ℕ) → Bool × EntityStorage
  try_release_blk h cnt =
      if cnt == 2 then (true, record s { blk_cache = erase h s.blk_cache }) else (false, s)

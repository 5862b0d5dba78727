-- ===== src/Entity/Text.antt =====
-- The conversions to strings of include/libe2c/entity.h, which log lines use. A text is the list of its
-- character codes.
use libe2c_cpp.Prelude.{ℕ, List, [], ◌∷◌, ◌++◌, Result, ok, err, out_of_range, ◌>>=◌}
use Prim.Native.Char.{code}
use Prim.Native.String.{String}
use libe2c_cpp.Entity.{Block}

-- salticidae's `get_hex10`, and `std::to_string`.
pub record Formats : Type 0 where
  pub get_hex10 : (hash : ℕ) → List ℕ
  pub to_string : ℕ → List ℕ

abbrev pub codes : String → List ℕ
codes String.[] = []
codes (String.◌∷◌ c s) = code c ∷ codes s

-- `hashes[0]`, undefined for a vector without entries.
abbrev pub head_or_fail : List ℕ → Result ℕ
head_or_fail [] = err out_of_range
head_or_fail (h ∷ hs) = ok h

module _ (f : Formats) where
  unfoldable pub command_text : (hash : ℕ) → List ℕ
  command_text hash = codes "<cmd id=" ++ f.get_hex10 hash ++ codes ">"

  -- The text of a block with its first parent's hash.
  abbrev pub block_line : Block → (parent : ℕ) → List ℕ
  block_line b parent =
      codes "<block id="
      ++ f.get_hex10 b.hash
      ++ codes " height="
      ++ f.to_string b.height
      ++ codes " parent="
      ++ f.get_hex10 parent
      ++ codes " proposer="
      ++ f.to_string b.proposer
      ++ codes " >"

  unfoldable pub block_text : Block → Result (List ℕ)
  block_text b = do parent ← head_or_fail b.parent_hashes; ok (block_line b parent)

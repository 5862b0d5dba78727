-- ===== src/Tests/Protocol.antt =====
-- A replica that is sent a block, accepts and decides it, and is sent a second block of its height.
use libe2c_cpp.Prelude.{
  ℕ, List, err, out_of_range, ◌≡◌, ◌≢◌, refl, [], ◌∷◌, ◌++◌, none, some, true, Result, ok, arith,
  lookup, insert, assign, get_elem?,
}
use libe2c_cpp.Crypto.{PartCert, create_part_cert}
use libe2c_cpp.Entity.{Block, Timer, new_block}
use libe2c_cpp.Entity.Storage
use libe2c_cpp.Core.{
  Core, add_new_blk, new_core, on_init, contains, set_insert, set_erase, set_erase_all, put,
  consensus, broadcast_proposal, resolve_receive_proposal, equivocation,
}
use libe2c_cpp.Core.History.{Holds}
use libe2c_cpp.Core.Invariant.{IsValid}
use libe2c_cpp.Core.Deliver.{
  on_deliver_blk, deliver_unless, get_delivered_blks, get_delivered_blk, first_of_parents,
  sanity_check_delivered,
}
use libe2c_cpp.Core.Deliver
use libe2c_cpp.Core.Update.{install, update_at, update}
use libe2c_cpp.Core.Receive.{accept, receive_at, on_receive_proposal}
use libe2c_cpp.Core.Receive.Once.{receive_first, receive_conflict, armed_blk}
use libe2c_cpp.Core.Propose.{index_map}
use libe2c_cpp.Core.Commit.{decisions, commit_blk, commit_loop, commit_timer_cb}
use libe2c_cpp.Core.System.{Step, Reach, fetch, deliver, receive, expire, here, next, initial}
use libe2c_cpp.Core.Agreement.{reached-IsValid, held_forever, decided_once, expire_decides}
use libe2c_cpp.Core.Deliver.Links.{Links}
use libe2c_cpp.Core.Ancestry.Runs.{parents_stored}
use libe2c_cpp.Entity.Text.{Formats, block_line, block_text}
use libe2c_cpp.Core.Text.{proposal_line, proposal_text, delivered_texts}
use libe2c_cpp.Core.Equivocation.{IsRival, receive_two, rivals_fork}
use libe2c_cpp.Tests.World.{stream, curve}

abbrev cert : ℕ → Result PartCert
cert h = create_part_cert stream curve (4 ∷ []) h

abbrev c₀ : Core
c₀ = initial 0 5 3 1

-- A child of the genesis block, whose hash is 5, and a second one.
abbrev blk : Block
blk = record new_block {
  parent_hashes = 5 ∷ [];
  cmds = 21 ∷ 22 ∷ [];
  proposer = 1;
  height = 1;
  hash = 60;
}

abbrev other : Block
other = record new_block {
  parent_hashes = 5 ∷ [];
  cmds = 23 ∷ [];
  proposer = 1;
  height = 1;
  hash = 61;
}

abbrev timer : Timer
timer = record { for_height = 1; delay = 6 }

abbrev blk₂ : Block
blk₂ = record blk { parents = 0 ∷ []; delivered = true }

abbrev blk₃ : Block
blk₃ = record blk₂ { commit_timer = some timer }

abbrev blk₄ : Block
blk₄ = record blk₂ { decision = 1 }

abbrev c₁ : Core
c₁ = (add_new_blk blk c₀).1

abbrev c₂ : Core
c₂ = record (put 1 blk₂ c₁) { tails = 1 ∷ [] }

abbrev c₃ : Core
c₃ = record (put 1 blk₃ c₂) {
  b_mark = 1;
  ht_blk_map = (0, some 0) ∷ (1, some 1) ∷ [];
  outputs = broadcast_proposal 1 ∷ resolve_receive_proposal 1 ∷ [];
}

abbrev c₄ : Core
c₄ = commit_blk 1 blk₃ c₃

abbrev c₅ : Core
c₅ = (add_new_blk other c₄).1

abbrev other₂ : Block
other₂ = record other { parents = 0 ∷ []; delivered = true }

abbrev c₆ : Core
c₆ = record (put 2 other₂ c₅) { tails = 2 ∷ 1 ∷ [] }

step₁ : Step stream cert c₀ c₁
step₁ = fetch blk refl refl refl refl

step₂ : Step stream cert c₁ c₂
unfolding on_deliver_blk deliver_unless Deliver.deliver get_delivered_blks get_delivered_blk
    first_of_parents set_insert set_erase set_erase_all contains add_new_blk Storage.add_blk
    Storage.find_blk lookup insert new_core on_init
step₂ = deliver 1 true refl

step₃ : Step stream cert c₂ c₃
unfolding on_receive_proposal sanity_check_delivered receive_at accept update update_at install
    lookup assign add_new_blk Storage.add_blk insert new_core on_init
step₃ = receive 1 refl

step₄ : Step stream cert c₃ c₄
unfolding commit_timer_cb commit_loop commit_blk index_map lookup assign add_new_blk Storage.add_blk
    insert new_core on_init
step₄ = expire 1 blk₃ timer refl refl refl

step₅ : Step stream cert c₄ c₅
step₅ = fetch other refl refl refl refl

step₆ : Step stream cert c₅ c₆
unfolding on_deliver_blk deliver_unless Deliver.deliver get_delivered_blks get_delivered_blk
    first_of_parents set_insert set_erase set_erase_all contains add_new_blk Storage.add_blk
    Storage.find_blk lookup insert new_core on_init commit_blk
step₆ = deliver 2 true refl

run₂ : Reach stream cert c₀ c₂
run₂ = next (next here step₁) step₂

run₃ : Reach stream cert c₀ c₃
run₃ = next run₂ step₃

run₄ : Reach stream cert c₀ c₄
run₄ = next run₃ step₄

later : Reach stream cert c₄ c₆
later = next (next here step₅) step₆

run₆ : Reach stream cert c₀ c₆
run₆ = next (next run₄ step₅) step₆

reached-IsValid_example : IsValid c₆
reached-IsValid_example = reached-IsValid stream cert 0 5 3 1 run₆

held₄ : lookup 1 c₄.ht_blk_map ≡ some (some 1)
unfolding commit_blk lookup
held₄ = refl

held_forever_example : lookup 1 c₆.ht_blk_map ≡ some (some 1)
held_forever_example = held_forever stream cert 0 5 3 1 run₄ 1 (some 1) later held₄

decided₄ : Holds c₄ 1 blk₄
unfolding commit_blk add_new_blk Storage.add_blk lookup insert new_core on_init
decided₄ = refl

decided₆ : Holds c₆ 1 blk₄
unfolding commit_blk add_new_blk Storage.add_blk lookup insert new_core on_init
decided₆ = refl

decided_once_example : Path ℕ 1 1
decided_once_example =
    decided_once stream cert 0 5 3 1 run₄ 1 1 blk₄ blk₄ later decided₄ refl decided₆ refl refl

armed₃ : Holds c₃ 1 blk₃
unfolding add_new_blk Storage.add_blk lookup insert new_core on_init
armed₃ = refl

expire_decides_example :
    (c' : Core) × (commit_timer_cb 1 c₃ ≡ ok c')
    × Holds c' 1 (record blk₃ { commit_timer = none; decision = 1 })
    × (c'.outputs ≡ c₃.outputs ++ (consensus 1 ∷ decisions 0 blk₃ 0 (21 ∷ 22 ∷ [])))
    × ((j : ℕ) → j ≢ 1 → get_elem? c'.blocks j ≡ get_elem? c₃.blocks j)
unfolding add_new_blk Storage.add_blk lookup insert new_core on_init
expire_decides_example = expire_decides stream cert 0 5 3 1 run₃ 1 blk₃ timer armed₃ refl (λ e. cc)

held₃ : lookup 1 c₃.ht_blk_map ≡ some (some 1)
unfolding lookup
held₃ = refl

holds₂ : Holds c₂ 1 blk₂
unfolding add_new_blk Storage.add_blk lookup insert new_core on_init
holds₂ = refl

free₂ : lookup 1 c₂.ht_blk_map ≡ none
unfolding add_new_blk Storage.add_blk lookup insert assign new_core on_init
free₂ = refl

receive_first_example :
    (c' : Core) × (on_receive_proposal 1 c₂ ≡ ok c')
    × (lookup 1 c'.ht_blk_map ≡ some (some 1))
    × Holds c' 1 (armed_blk c₂ blk₂)
    × (c'.outputs ≡ (c₂.outputs ++ broadcast_proposal 1 ∷ []) ++ resolve_receive_proposal 1 ∷ [])
    × (on_receive_proposal 1 c' ≡ ok c')
receive_first_example =
    receive_first 1 blk₂ c₂ (reached-IsValid stream cert 0 5 3 1 run₂) holds₂ refl free₂

holds₆ : Holds c₆ 2 other₂
unfolding commit_blk add_new_blk Storage.add_blk lookup insert new_core on_init
holds₆ = refl

held₆ : lookup 1 c₆.ht_blk_map ≡ some (some 1)
held₆ = held_forever stream cert 0 5 3 1 run₄ 1 (some 1) later held₄

sixty : Path ℕ 60 61 → ⊥
sixty e = omega (arith, e)

receive_conflict_example :
    on_receive_proposal 2 c₆
    ≡ ok (record c₆ {
      outputs =
          ((c₆.outputs ++ equivocation 1 ∷ []) ++ broadcast_proposal 2 ∷ [])
          ++ resolve_receive_proposal 2 ∷ [];
    })
receive_conflict_example =
    receive_conflict 2 other₂ c₆ (reached-IsValid stream cert 0 5 3 1 run₆) holds₆ refl 1 blk₄ held₆
      decided₆ sixty

-- Both blocks are delivered before either is received.
abbrev c₇ : Core
c₇ = (add_new_blk other c₂).1

abbrev c₈ : Core
c₈ = record (put 2 other₂ c₇) { tails = 2 ∷ 1 ∷ [] }

step₇ : Step stream cert c₂ c₇
step₇ = fetch other refl refl refl refl

step₈ : Step stream cert c₇ c₈
unfolding on_deliver_blk deliver_unless Deliver.deliver get_delivered_blks get_delivered_blk
    first_of_parents set_insert set_erase set_erase_all contains add_new_blk Storage.add_blk
    Storage.find_blk lookup insert new_core on_init
step₈ = deliver 2 true refl

rival₈ : IsRival c₈ 1 2 blk₂ other₂
unfolding add_new_blk Storage.add_blk lookup insert new_core on_init
rival₈ = record {
  first = refl;
  second = refl;
  first_delivered = refl;
  second_delivered = refl;
  first_open = λ e. cc;
  second_open = λ e. cc;
  same_height = refl;
  other_hash = sixty;
}

free₈ : lookup 1 c₈.ht_blk_map ≡ none
unfolding add_new_blk Storage.add_blk lookup assign insert new_core on_init
free₈ = refl

rivals_fork_example :
    ((c' : Core) × (receive_two 1 2 1 c₈ ≡ ok c')
      × ((a : Block) × Holds c' 1 a × (a.decision ≡ 1))
      × ((a : Block) × Holds c' 2 a × (a.decision ≢ 1)))
    × ((c' : Core) × (receive_two 2 1 1 c₈ ≡ ok c')
        × ((a : Block) × Holds c' 2 a × (a.decision ≡ 1))
        × ((a : Block) × Holds c' 1 a × (a.decision ≢ 1)))
rivals_fork_example =
    rivals_fork c₈ 1 2 blk₂ other₂
      (reached-IsValid stream cert 0 5 3 1 (next (next run₂ step₇) step₈)) free₈ rival₈

parents_stored_example : Links c₆ (5 ∷ []) (0 ∷ [])
parents_stored_example = parents_stored stream cert 0 5 3 1 c₆ run₆ 2 other₂ holds₆ refl

-- Numbers and hashes as single codes.
abbrev formats : Formats
formats = record { get_hex10 = λ h. h ∷ []; to_string = λ n. n ∷ [] }

delivered_texts_example :
    ((Path ℕ 2 c₆.b0 → ⊥)
      → (h : ℕ) × (rest : List ℕ) × (other₂.parent_hashes ≡ h ∷ rest)
        × (block_text formats other₂ ≡ ok (block_line formats other₂ h))
        × (proposal_text formats c₆ 2
            ≡ ok (proposal_line formats other₂ (block_line formats other₂ h))))
    × (Path ℕ 2 c₆.b0
        → (block_text formats other₂ ≡ err out_of_range)
          × (proposal_text formats c₆ 2 ≡ err out_of_range))
delivered_texts_example = delivered_texts stream cert 0 5 3 1 c₆ run₆ formats 2 other₂ holds₆ refl

block_text_test : block_text formats other₂ ≡ ok (block_line formats other₂ 5)
unfolding block_text
block_text_test = refl

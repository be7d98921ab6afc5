-- ===== src/Net/Block/Tests.antt =====
-- Blocks at concrete inputs, and the theorems applied there.
use chroutine.Prelude.{◌≡◌, refl, none, some, [], ◌∷◌, ◌==◌, if◌then◌else◌, arith}
use chroutine.Net.Block.{Memory, no_block, destroy, assign}
use chroutine.Net.Block.Dangling.{assign-empty}

abbrev memory : Memory
memory = record { next = 0; buffers = λ p. none; blocks = λ a. no_block }

-- The block 5 has two bytes in the buffer 1, and the block 6 is empty.
abbrev two_blocks : Memory
two_blocks = record {
  next = 1;
  buffers = λ p. if p == 1 then some (1 ∷ 2 ∷ []) else none;
  blocks = λ a. if a == 5 then record { buf = 1; len = 2; key = 9 } else no_block;
}

assign-empty_example : (m' : Memory) × (assign 5 6 [] two_blocks ≡ some m') × (destroy 5 m' ≡ none)
assign-empty_example = assign-empty 5 6 (1 ∷ 2 ∷ []) [] two_blocks (omega arith) refl refl

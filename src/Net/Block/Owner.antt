-- ===== src/Net/Block/Owner.antt =====
-- A block of net/epoll/socket.hpp owns its buffer: it keeps its bytes, and gives the buffer back.
use chroutine.Prelude.{ℕ, suc, ◌<◌, ◌≡◌, refl, none, some, List, [], ◌∷◌, arith}
use chroutine.Net.Block.{
  Memory, no_block, put_block, put_buffer, delete_buf, construct, destroy, contents,
}

-- A memory in which `new` does not return a buffer that is in use.
pub record IsFresh (m : Memory) : Type 0 where
  pub unused : (p : ℕ) → m.next < p → m.buffers p ≡ none

-- A block that is constructed has the bytes that it was made from, and after its destruction every
-- buffer is as it was before.
pub construct-destroy :
    (a : ℕ) (data_ : List ℕ) (key : ℕ) (m : Memory)
    → IsFresh m
    → (contents a (construct a data_ key m) ≡ some data_)
      × ((m' : Memory) × (destroy a (construct a data_ key m) ≡ some m')
          × ((p : ℕ) → m'.buffers p ≡ m.buffers p))
unfolding construct destroy delete_buf contents
construct-destroy a [] key m v = (ground arith, (put_block a no_block m, ground arith, λ p. refl))
construct-destroy a (b ∷ bs) key m v = (
  ground arith,
  (
    put_buffer (suc m.next) none (construct a (b ∷ bs) key m),
    ground arith,
    λ p. ground (arith, v.unused p),
  ),
)

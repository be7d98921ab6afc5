-- ===== src/Net/Block/Dangling.antt =====
-- Where `raw_data_block_t` of net/epoll/socket.hpp keeps a pointer to a buffer that it has deleted.
use chroutine.Prelude.{ℕ, ◌≡◌, ◌≢◌, refl, ap, ◌∙◌, false, none, some, List, ◌==◌, arith}
use chroutine.Net.Block.{Memory, put_block, put_buffer, delete_buf, destroy, assign, copy_members}

-- The memory after a block that has a buffer was assigned an empty one.
abbrev after_empty : ℕ → ℕ → Memory → Memory
after_empty a other m =
    let freed = put_buffer (m.blocks a).buf none m in
    put_block a (record (m.blocks a) { len = (m.blocks other).len; key = (m.blocks other).key })
      freed

delete-live :
    (p : ℕ) (bs : List ℕ) (m : Memory)
    → p ≢ 0
    → m.buffers p ≡ some bs
    → delete_buf p m ≡ some (put_buffer p none m)
unfolding delete_buf
delete-live p bs m real there = simp (there, not_null) refl
  where
    not_null : (p == 0) ≡ false
    not_null = ground arith

copy_members-empty :
    (a other : ℕ) (garbage : List ℕ) (m : Memory)
    → (m.blocks other).len ≡ 0
    → copy_members a other garbage m
      ≡ some (
          put_block a
            (record (m.blocks a) { len = (m.blocks other).len; key = (m.blocks other).key })
            m)
unfolding copy_members
copy_members-empty a other garbage m empty = ground arith

delete-dead : (p : ℕ) (m : Memory) → p ≢ 0 → m.buffers p ≡ none → delete_buf p m ≡ none
unfolding delete_buf
delete-dead p m real gone = simp (not_null, gone) refl
  where
    not_null : (p == 0) ≡ false
    not_null = ground arith

-- The assignment of an empty block to one that has an allocated buffer, whatever `new` would return,
-- succeeds, but the pointer of that one still names the deleted buffer: its destructor then deletes the
-- buffer a second time, which is a fault.
pub assign-empty :
    (a other : ℕ) (bs garbage : List ℕ) (m : Memory)
    → (m.blocks a).buf ≢ 0
    → m.buffers (m.blocks a).buf ≡ some bs
    → (m.blocks other).len ≡ 0
    → (m' : Memory) × (assign a other garbage m ≡ some m') × (destroy a m' ≡ none)
unfolding assign destroy
assign-empty a other bs garbage m real there empty = (
  after_empty a other m,
  ap (λ o. elim o [ none ↦ none | some m' ↦ copy_members a other garbage m' ])
        (delete-live (m.blocks a).buf bs m real there)
      ∙ copy_members-empty a other garbage (put_buffer (m.blocks a).buf none m) empty,
  delete-dead ((after_empty a other m).blocks a).buf (after_empty a other m) (ground arith)
      (ground arith),
)

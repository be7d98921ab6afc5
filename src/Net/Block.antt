-- ===== src/Net/Block.antt =====
-- net/epoll/socket.hpp: `raw_data_block_t`, a block of bytes that owns its buffer, over a memory in
-- which a wrong `delete[]` or `memcpy` is a fault.
pub mod Owner
pub mod Dangling
mod Tests
use chroutine.Prelude.{
  ℕ, suc, ◌+◌, Bool, true, false, Option, none, some, List, [], ◌∷◌, length, take, ◌==◌,
  if◌then◌else◌,
}

-- `raw_data_block_t`; the buffer 0 is the null pointer.
pub record Block : Type 0 where
  pub buf : ℕ
  pub len : ℕ
  pub key : ℕ

abbrev pub no_block : Block
no_block = record { buf = 0; len = 0; key = 0 }

-- The buffers that are allocated, with their bytes; what `new` returns has the given bytes; and the
-- block objects by their addresses, since an assignment may be of a block to itself.
pub record Memory : Type 0 where
  pub next : ℕ
  pub buffers : ℕ → Option (List ℕ)
  pub blocks : ℕ → Block

abbrev pub put_buffer : ℕ → Option (List ℕ) → Memory → Memory
put_buffer p bs m = record m { buffers = λ q. if q == p then bs else m.buffers q }

abbrev pub put_block : ℕ → Block → Memory → Memory
put_block a b m = record m { blocks = λ c. if c == a then b else m.blocks c }

-- `delete [] p`: nothing for a null pointer, and a fault for a pointer that is not allocated.
pub delete_buf : ℕ → Memory → Option Memory
delete_buf p m =
    if p == 0
    then some m
    else elim (m.buffers p) [ none ↦ none | some bs ↦ some (put_buffer p none m) ]

-- `m_buf = new byte_t[m_len]` in the object at `a`; the bytes are arbitrary. Addresses start at 1.
pub new_buf : ℕ → List ℕ → Memory → Memory
new_buf a garbage m =
    put_block a (record (m.blocks a) { buf = suc m.next })
      (put_buffer (suc m.next) (some garbage) (record m { next = suc m.next }))

-- `memcpy(m_buf, p, m_len)` in the object at `a`.
pub copy_from : ℕ → ℕ → Memory → Option Memory
copy_from a p m = elim (m.buffers (m.blocks a).buf) [
  | none ↦ none
  | some old ↦ elim (m.buffers p) [
    | none ↦ none
    | some bs ↦ some (put_buffer (m.blocks a).buf (some (take (m.blocks a).len bs)) m)
  ]
]

-- The constructor, for the object at `a`, from the bytes at `data`, which is not in the buffers; no
-- bytes stand for a null pointer or a length that is not positive.
pub construct : ℕ → List ℕ → ℕ → Memory → Memory
construct a [] key m = put_block a no_block m
construct a (b ∷ bs) key m =
    put_block a (record { buf = suc m.next; len = length (b ∷ bs); key = key })
      (put_buffer (suc m.next) (some (b ∷ bs)) (record m { next = suc m.next }))

-- The destructor.
pub destroy : ℕ → Memory → Option Memory
unfolding delete_buf
destroy a m = delete_buf (m.blocks a).buf m

-- What the copy constructor and the assignment share, behind `delete [] m_buf`.
copy_members : ℕ → ℕ → List ℕ → Memory → Option Memory
unfolding new_buf copy_from
copy_members a other garbage m =
    let m' =
      put_block a (record (m.blocks a) { len = (m.blocks other).len; key = (m.blocks other).key })
        m in
    if (m'.blocks a).len == 0
    then some m'
    else (let m'' = new_buf a garbage m' in copy_from a (m''.blocks other).buf m'')

-- The copy constructor: the object at `a` is new.
pub copy : ℕ → ℕ → List ℕ → Memory → Option Memory
unfolding copy_members
copy a other garbage m = copy_members a other garbage (put_block a no_block m)

-- `operator=`
pub assign : ℕ → ℕ → List ℕ → Memory → Option Memory
unfolding copy_members delete_buf
assign a other garbage m = elim (delete_buf (m.blocks a).buf m) [
  | none ↦ none
  | some m' ↦ copy_members a other garbage m'
]

-- The move constructor: the object at `a` is new, and the other one is left empty.
pub move : ℕ → ℕ → Memory → Memory
move a other m = let b = m.blocks other in put_block a b (put_block other no_block m)

-- The bytes of a block.
pub contents : ℕ → Memory → Option (List ℕ)
contents a m = if (m.blocks a).buf == 0 then some [] else m.buffers (m.blocks a).buf

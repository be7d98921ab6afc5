-- ===== src/Net/Socket/Setup.antt =====
-- net/epoll/socket.cpp: the calls that set a descriptor up and read its addresses. What the system
-- returns is given.
use Prim.Native.Nat.{bit_or}
use chroutine.Prelude.{
  ℕ, ◌≡◌, ◌⊎◌, refl, inl, inr, Bool, true, false, Option, none, some, List, if◌then◌else◌,
}
use chroutine.Prelude.Int.{ℤ, pos, negsuc}

-- `make_socket_non_blocking(fd)`, with what `F_GETFL` returns, none for -1, and whether `F_SETFL`
-- succeeds: the result, and the descriptor's flags. `o_nonblock` is the system's `O_NONBLOCK`.
pub make_socket_non_blocking : ℕ → Option ℕ → Bool → ℕ → ℤ × ℕ
make_socket_non_blocking o_nonblock none set flags = (negsuc 0, flags)
make_socket_non_blocking o_nonblock (some got) set flags =
    if set then (pos 0, bit_or got o_nonblock) else (negsuc 0, flags)

-- `peer_info_t`, with strings as lists of characters.
pub record PeerInfo : Type 0 where
  pub local_addr : List ℕ
  pub remote_addr : List ℕ
  pub local_port : ℕ
  pub remote_port : ℕ

-- `update_peer_info()`: `getsockname` and `getpeername` return an address with a port in the order of
-- the network, or none if they fail.
module _ (ntoa : ℕ → List ℕ) (ntohs : ℕ → ℕ) where
  pub update_local : Option (ℕ × ℕ) → PeerInfo → PeerInfo
  update_local none p = p
  update_local (some (addr, port)) p = record p { local_addr = ntoa addr; local_port = ntohs port }

  pub update_remote : Option (ℕ × ℕ) → PeerInfo → PeerInfo
  update_remote none p = p
  update_remote (some (addr, port)) p = record p {
    remote_addr = ntoa addr;
    remote_port = ntohs port;
  }

  pub update_peer_info : Bool → Option (ℕ × ℕ) → Option (ℕ × ℕ) → PeerInfo → PeerInfo
  update_peer_info is_tcp sockname peername p =
      let here = update_local sockname p in if is_tcp then update_remote peername here else here

  -- Once both calls succeed, nothing of the old addresses is left.
  update_peer_info-fresh :
      (here there : ℕ × ℕ) (p q : PeerInfo)
      → update_peer_info true (some here) (some there) p
        ≡ update_peer_info true (some here) (some there) q
  unfolding update_peer_info update_local update_remote
  update_peer_info-fresh here there p q = refl

-- A result of 0 is the only one that sets the flag; any other leaves the flags as they were.
make_socket_non_blocking_lem :
    (o_nonblock : ℕ) (got : Option ℕ) (set : Bool) (flags : ℕ)
    → let r = make_socket_non_blocking o_nonblock got set flags in
      ((r.0 ≡ pos 0) × (f : ℕ) × (got ≡ some f) × (r.1 ≡ bit_or f o_nonblock))
      ⊎ ((r.0 ≡ negsuc 0) × (r.1 ≡ flags))
unfolding make_socket_non_blocking
make_socket_non_blocking_lem o_nonblock none set flags = inr (refl, refl)
make_socket_non_blocking_lem o_nonblock (some f) true flags = inl (refl, f, refl, refl)
make_socket_non_blocking_lem o_nonblock (some f) false flags = inr (refl, refl)

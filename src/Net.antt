-- ===== src/Net.antt =====
-- net/epoll/: raw TCP over epoll.
pub mod Block
pub mod Socket
pub mod Epoll
pub mod Drain
pub mod Server
pub mod Client

-- ===== src/Rpc.antt =====
-- net/rpc: the server's rounds (`Rpc/Server`) and the client's calls (`Rpc/Client`). What the queues of
-- grpc deliver is given.
pub mod Server
pub mod Client

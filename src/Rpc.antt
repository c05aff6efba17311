-- ===== src/Rpc.antt =====
-- elegance/rpc/rpc_manager.hpp and .cpp: remote procedure calls.
pub mod Session
pub mod Manager

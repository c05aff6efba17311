-- ===== src/Network.antt =====
-- elegance/network/network_manager.hpp and .cpp, with what they use of
-- elegance/platform/network: the connections of a process, the numbers they go by, and the way of
-- their bytes between the sockets, the packer and the handlers.
pub mod Endpoint
pub mod Manager
pub mod Sockets

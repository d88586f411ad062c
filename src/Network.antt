-- ===== src/Network.antt =====
-- The network stack (network/network_stack.cpp).
pub mod Buffers
pub mod Stack

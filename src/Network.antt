-- ===== src/Network.antt =====
-- src/ProtocolHelper.cpp, src/util/network_utils.h and src/logger/util/TcpClient.h: sockets.
pub mod Sockets
pub mod TcpClient
pub mod Port
pub mod Connected
mod Examples

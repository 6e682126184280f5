-- ===== src/Net.antt =====
-- cppboot/net: what the network layer keeps of a connection.
pub mod Buffer
pub mod TcpConn
pub mod TcpServer

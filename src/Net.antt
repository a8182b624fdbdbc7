-- ===== src/Net.antt =====
-- daemon/networkdriver: the allocation of ports and addresses, and the mapping of ports.
pub mod PortAllocator
pub mod Ipv4
pub mod IpAllocator
pub mod Iptables
pub mod PortMapper
pub mod Bridge

-- ===== src/Net.antt =====
-- include/mw/core/net and src/net: sockets, and the proxy that is reached through one.
pub mod Socket
pub mod Socks5Proxy

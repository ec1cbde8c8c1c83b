-- ===== src/Client.antt =====
-- client/src: the client's web socket session and its local front.
pub mod Wss
pub mod Socks5
pub mod Emergency
pub mod Doh

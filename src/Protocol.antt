-- ===== src/Protocol.antt =====
-- Client and server together: what one side sends, as the other side receives it.
pub mod Carry
pub mod Data
pub mod Upstream
pub mod Downstream
pub mod Greeting
pub mod Login
pub mod Account

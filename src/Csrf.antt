-- ===== src/Csrf.antt =====
-- server/src/api/csrf.rs: the token arithmetic, the cookie check and the request check.
-- A text that the code walks by `chars` is the list of its code points.
pub mod Token
pub mod Alphabet
pub mod Roundtrip
pub mod Check
pub mod Acceptance
pub mod Service
pub mod Poll

-- ===== src/Spamdlist.antt =====
-- internal/spamdlist: the scanner and the parser of spamd lists.
pub mod Scanner
pub mod Parser
pub mod Tokens

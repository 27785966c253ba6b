-- ===== src/FromPattern.antt =====
-- internal/frompattern/frompattern.go: the address allow-list grammar, which the sender and the
-- recipient allow-lists share.
pub mod Normalize
pub mod Canonical
pub mod Domain
pub mod Parse
pub mod RoundTrip
pub mod PatternRoundTrip
pub mod Matching
pub mod Covers
pub mod AllowList

-- ===== src/Nacha.antt =====
-- internal/nacha: the files of the ACH network.
pub mod RecordType
pub mod Parser
pub mod Generator
pub mod Padding
pub mod Scan
pub mod Lines
pub mod Clean
pub mod Records
pub mod RoundTrip
pub mod Steps
pub mod Entries
pub mod Amounts
pub mod Fields
pub mod Shape
pub mod Newlines

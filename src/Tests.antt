-- ===== src/Tests.antt =====
-- The theorems at concrete inputs, and runs of the definitions.
mod SharedTests
mod TrackerTests
mod ClientTests
mod TransferTests
mod DownloadTests
mod OptionsTests
mod MenuTests
mod SwarmTests
mod WritersTests
mod WireTests
mod ThreadsTests

-- ===== src/Tests.antt =====
-- Sample queues, transactions and runs, the theorems at these inputs, and tests by evaluation.
mod Samples
mod QueueTests
mod WriteTests
mod ReadTests
mod ChannelTests
mod Sha256Tests
mod HelperTests
mod FormatTests
mod JobTests
mod RunTrace
mod RunTests
mod StartTests
mod TransmissionTests
mod ProgramTests
mod ChecksumTests

-- ===== src/UnitTests.antt =====
-- The unit tests of the repository (tests/*.c) as programs: what each CU_ASSERT_EQUAL compares, in
-- order.
pub mod Packet
pub mod RecWindow
pub mod SendWindow
mod Tests

-- ===== src/Cpld.antt =====
-- files/accton_i2c_cpld.c: the driver of the CPLDs, through which other drivers reach their
-- registers.
pub mod Bus
pub mod Retry
pub mod Registry
pub mod Ports
pub mod Bits
pub mod Memory
pub mod Attributes
pub mod Life
pub mod Presence
mod Tests

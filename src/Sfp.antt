-- ===== src/Sfp.antt =====
-- files/x86-64-accton-csp7551-sfp.c: the driver of the SFP and QSFP ports.
pub mod Bus
pub mod Attempt
pub mod Eeprom
pub mod Client
pub mod Port
pub mod Bounds
pub mod Retry
pub mod Paged
pub mod Keeps
pub mod Ends
pub mod Mutex
pub mod Missing
pub mod Status
pub mod Life
mod Tests

-- ===== src/Fpga.antt =====
-- files/fpga_driver.c: the PCIe driver of the FPGA's SMBus masters.
pub mod Bus
pub mod Poll
pub mod Transfer
pub mod Read
pub mod Write
pub mod Keeps
pub mod Channel
pub mod Lock
pub mod Outcome
pub mod Protocol
pub mod Sent
pub mod Correct
pub mod Adapter
pub mod Ioctl
pub mod Setup
pub mod Life
pub mod Live
pub mod Slave
mod Tests

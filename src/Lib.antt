-- ===== src/Lib.antt =====
-- Verification of the kernel drivers for the Accton CSP7551, the switch platform for which BISDN
-- Linux builds its own modules. They are the C code of the repository, in
-- recipes-kernel/accton-csp7551-mods/files; the rest of the repository is build configuration.
--
-- The program and its parts
--
-- - fpga_driver.c drives a PCI FPGA with 34 I2C controllers ("channels"). A transfer
--   (fpga_smbus_read, fpga_smbus_write) takes the channel's semaphore, programs the controller
--   byte by byte, polls its status after each command, and leaves through one of the labels that
--   reset the bus or stop it. Two clients use it: the I2C adapters, one for each channel, whose
--   name carries the number of the channel (fpga_smbus_access), and the character device with its
--   requests for transfers and registers (fpga_ioctl).
-- - accton_i2c_cpld.c drives the CPLDs that sit on such buses. It keeps a list of its clients,
--   and offers accton_i2c_cpld_read and accton_i2c_cpld_write to other drivers.
-- - x86-64-accton-csp7551-sfp.c drives the ports. It reads and writes the EEPROMs of the modules
--   in the ports, which show 256 bytes at a time; the presence of a module, its reset and its low
--   power mode are bits of the CPLDs, which it reaches by accton_i2c_cpld_read and
--   accton_i2c_cpld_write, and the signals of its lanes are registers of the module.
--
-- Which file models which part
--
-- - Base: the names and lemmas that all share. Tests has the Boolean tests, Lists the lists over
--   the native numbers, Int the signed return values, Bits, Bytes and Nibbles single bits.
-- - Fpga.Bus: the registers, FPGA_ACCESS, the sleeps and the semaphores as events of a trace.
--   What the device and down_interruptible answer is a parameter, `Board`, and may depend on all
--   that happened before. Fpga.Poll: the three polling loops. Fpga.Transfer: what both transfers
--   share, their entry, checks, labels and return; a transfer returns a value or a jump to a
--   label, and `fault` for memory used outside an array. Fpga.Read and Fpga.Write:
--   fpga_smbus_read and fpga_smbus_write. Fpga.Adapter: fpga_smbus_access, with the kernel's
--   parsing of the digits in the adapter's name a parameter. Fpga.Ioctl: fpga_ioctl and the other
--   operations of the character device, with copy_from_user, copy_to_user and access_ok
--   parameters. Fpga.Setup: fpga_init_smbus and fpga_mask_all_intr. Fpga.Life: fpga_pci_probe and
--   fpga_pci_remove, as a log of what they take from the kernel and give back and of the fields
--   that they set, which fpga_pci_remove tests. Fpga.Live: what a device has to do for the
--   transfers to come to their end, and its proofs. Fpga.Slave: a device
--   that keeps 256 bytes behind a controller, which the driver's commands reach; what it is told,
--   and the bytes that come back, are followed in its child modules. Fpga.Slave.ByAdapter: the
--   abstract view of such a device behind an adapter, a memory.
-- - Fpga.Keeps, Fpga.Channel, Fpga.Lock, Fpga.Outcome, Fpga.Protocol, Fpga.Sent, Fpga.Correct and
--   the child modules Bounds, Transcript, Routes, Requests, Configured, Balance, Loop, Stored and
--   Left: the proofs. Base.Uses: what becomes of a resource that is taken and given back. Protocol
--   is the abstract view, the list of commands that an SMBus transfer consists of; the transfers
--   are compared with it through the commands found in the trace.
-- - Sfp.Bus: I2C transfers, `jiffies`, sleeps and the mutex of a port as events of a trace, and
--   the bus and the clock as a parameter, `Wire`. Sfp.Attempt and Sfp.Eeprom:
--   sff_8436_eeprom_read and sff_8436_eeprom_write with their four transports. Sfp.Client:
--   sff_8436_translate_offset and sff_8436_eeprom_update_client. Sfp.Port: sff_8436_page_legal
--   and sfp_port_read_write.
-- - Sfp.Bounds, Sfp.Retry, Sfp.Keeps, Sfp.Ends, Sfp.Mutex, Sfp.Missing and Sfp.Paged: the proofs.
--   Sfp.Mutex has the mutex of a port as well, and what a trace makes of it. Sfp.Paged is the
--   abstract view, a flat image behind a client with a page register; Transport, Client, Chunks
--   and Port below it follow a read through the layers, for each of the four transports.
-- - Sfp.Status: the data of a port and the exported functions of the CPLD driver as an interface,
--   on a world of any type. Sfp.Status.Present: sfp_update_present, sfp_update_present_by_port,
--   sfp_is_port_present, show_present, sfp_bin_read and sfp_bin_write. Sfp.Status.Switches:
--   get_mode_reset, set_mode_reset, get_lp_mode_sel and set_lp_mode_sel. Sfp.Status.Signals:
--   sfp_eeprom_read, sfp_eeprom_write, qsfp_update_tx_rx_status, qsfp_show_tx_rx_status and
--   qsfp_set_tx_disable. Sfp.Status.Msa: sfp_update_tx_rx_status, sfp_show_tx_rx_status and
--   sfp_set_tx_disable, with their branches for SFP ports, whose signals the CPLDs keep; the driver
--   sets up QSFP ports only, and nothing is proved of those branches.
--   Sfp.Status.Registers: what the attributes rely on, and the CPLD driver as its implementation.
--   Sfp.Status.Invariant: the accesses to a port as a step relation. The child modules of
--   Present, Switches, Signals and Invariant are proofs.
-- - Sfp.Life: sfp_device_probe and sfp_device_remove, as Fpga.Life, with the mode and the buffer
--   of a port; its child modules Held, Settled and Removed: the proofs.
-- - Cpld.Bus: byte transfers and mutexes as events. Cpld.Retry: cpld_read_internal,
--   cpld_write_internal and `access`. Cpld.Bits: show_bit and set_1bit; Cpld.Memory: what they do
--   to registers that keep their values. Cpld.Ports: get_present_reg, the number of ports and
--   get_reg_bit. Cpld.Presence: show_presnet_all and array_stringify, with what the kernel prints
--   for a number a parameter, and its child module Text, the proofs on them.
--   Sfp.Status.Present.Drivers compares it with the attributes of the ports. Cpld.Attributes:
--   add_attributes and the lists of attributes; Cpld.Attributes.Placed: the proofs on it.
--   Cpld.Registry: the list of clients and the four functions on it; Cpld.Registry.Routes: the
--   proofs on it, with a step relation for the lists that the driver can come to. Cpld.Life:
--   accton_i2c_cpld_probe and accton_i2c_cpld_remove, as Fpga.Life, with the list of clients;
--   Settled and Cycle below it: the proofs.
-- - The modules Tests of Fpga, Fpga.Life, Fpga.Slave, Sfp, Sfp.Status, Sfp.Life,
--   Cpld and Cpld.Life: the theorems at concrete devices.
--
-- Conventions, bounds and fuel
--
-- A stateful function takes the trace of all events so far and returns its result and the longer
-- trace, the latest event first; so an order of accesses, a lock held and a command sent are
-- predicates on traces. A status is a C `int` or `ssize_t`, a count or a negative error code (ℤ);
-- `size_t` and `unsigned long` are natural numbers with `% 2 ^ 64` written out where the source
-- can wrap. A buffer is the list of the bytes stored so far. In the FPGA driver `none` or `fault`
-- stands for an access outside an array, in the SFP driver `none` for a loop out of fuel, or for a
-- transfer that is told to go on past the end of the caller's buffer, whose room is part of a read.
--
-- The loops of fpga_driver.c and of the CPLD driver count down, and are recursive on the rounds
-- that are left. The retry loops of the EEPROM code run on time: their fuel is the timeout in
-- jiffies and two rounds more, since each round sleeps for a tick at least; on a clock for which
-- that holds that is enough. The loop of sff_8436_eeprom_update_client has one round of fuel for
-- each byte, since each round moves one at least.
--
-- What is not modelled
--
-- Of the CPLD driver, show_presnet_all_distinct, which is never called; of the drivers' set-up,
-- the locks and the fields that their proofs do not use; fpga_smbus_func, which returns a
-- constant of the kernel; the code that is compiled out (interrupts of the FPGA, EEPROMs without
-- pages); debug output; PCI, I2C, sysfs and memory functions of the kernel, whose results are
-- parameters. The rest of the repository is build configuration, shell scripts and patches to
-- other programs.
pub mod Base
pub mod Fpga
pub mod Cpld
pub mod Sfp

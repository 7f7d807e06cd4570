-- ===== src/Sfp/Tests.antt =====
-- The theorems on the SFP driver at concrete modules, ports and clocks.
use meta_bisdn_linux.Base.{
  ℕ, suc, ◌+◌, ◌-◌, ◌*◌, ◌/◌, ◌%◌, ◌≤◌, ◌<◌, ◌≡◌, refl, arith, [], ◌∷◌, pos, negsuc, some, take,
  if◌then◌else◌, ◌==◌,
}
use meta_bisdn_linux.Sfp.Bus.{
  Event, read, write, jiffies, msleep, mutex_lock, mutex_unlock, word_data, i2c_block_data, Trace,
  Wire,
}
use meta_bisdn_linux.Sfp.Attempt.{Got}
use meta_bisdn_linux.Sfp.Eeprom.{carried, write_count, sff_8436_eeprom_read, sff_8436_eeprom_write}
use meta_bisdn_linux.Sfp.Client.{qsfp, read_op, sff_8436_translate_offset}
use meta_bisdn_linux.Sfp.Port.{sff_8436_page_legal, sfp_port_read_write}
use meta_bisdn_linux.Sfp.Bounds.{translate_offset_inverts, write_stays_on_page}
use meta_bisdn_linux.Sfp.Retry.{Clock, ReadDone, WriteDone, eeprom_transfers_end}
use meta_bisdn_linux.Sfp.Mutex.{mutex, unlocked, port_read_write_returns}
use meta_bisdn_linux.Sfp.Missing.{missing_module_reads_as_end}
use meta_bisdn_linux.Sfp.Paged.{
  page, client_byte, client_bytes, client_byte-bound, image_bytes, Serves, Returns,
}
use meta_bisdn_linux.Sfp.Paged.Transport.{port_of}
use meta_bisdn_linux.Sfp.Paged.Port.{page_legal-Returns, port_read_delivers, past_end_not_trimmed}

-- A clock that counts sleeps.
abbrev slept : Trace → ℕ
slept [] = 0
slept (msleep n ∷ t) = suc (slept t)
slept (read mode reg count status bytes ∷ t) = slept t
slept (write mode reg bytes status ∷ t) = slept t
slept (jiffies n ∷ t) = slept t
slept (mutex_lock ∷ t) = slept t
slept (mutex_unlock ∷ t) = slept t

-- No module, and a module that holds `image`.
abbrev silent : Wire
silent = record {
  transfer_read = λ t reg count. (negsuc 5, []);
  read_i2c_block_data = λ t reg count. (negsuc 5, []);
  read_word_data = λ t reg. negsuc 5;
  read_byte_data = λ t reg. negsuc 5;
  transfer_write = λ t reg bytes. negsuc 5;
  write_i2c_block_data = λ t reg bytes. negsuc 5;
  write_word_data = λ t reg v. negsuc 5;
  write_byte_data = λ t reg v. negsuc 5;
  ticks = slept;
  write_timeout = 25;
}

abbrev holding : (ℕ → ℕ) → Wire
holding image = record {
  transfer_read = λ t reg count. (pos 2, client_bytes image (page t) reg count);
  read_i2c_block_data = λ t reg count. (negsuc 5, []);
  read_word_data =
      λ t reg. pos (client_byte image (page t) reg + 256 * client_byte image (page t) (suc reg));
  read_byte_data = λ t reg. pos (client_byte image (page t) reg);
  transfer_write = λ t reg bytes. pos 1;
  write_i2c_block_data = λ t reg bytes. negsuc 4;
  write_word_data = λ t reg v. negsuc 4;
  write_byte_data = λ t reg v. pos 0;
  ticks = slept;
  write_timeout = 25;
}

holding-Serves :
    (image : ℕ → ℕ) → ((a : ℕ) → image a < 256) → Serves word_data (holding image) image
holding-Serves image bytes = record {
  bytes = bytes;
  reads = λ t reg h. (
    client_byte image (page t) (suc reg),
    refl,
    client_byte-bound image (page t) (suc reg) bytes,
    λ _. refl,
  );
  writes = λ t reg v. refl;
}

slept-grows : (e : Event) (t : Trace) → (slept t ≤ slept (e ∷ t)) × (slept (e ∷ t) ≤ slept t + 1)
slept-grows (msleep n) t = (omega arith, omega arith)
slept-grows (read mode reg count status bytes) t = (omega arith, omega arith)
slept-grows (write mode reg bytes status) t = (omega arith, omega arith)
slept-grows (jiffies n) t = (omega arith, omega arith)
slept-grows mutex_lock t = (omega arith, omega arith)
slept-grows mutex_unlock t = (omega arith, omega arith)

holding-Clock : (image : ℕ → ℕ) → Clock (holding image)
holding-Clock image = record {
  grows = λ e t. (slept-grows e t).0;
  sleeps = λ t. omega arith;
  prompt = λ e t. let h = (slept-grows e t).1 in omega arith;
  short = omega arith;
}

-- A module with pages, and one without, which register 2 tells.
abbrev paged : ℕ → ℕ
paged off = if off == 2 then 0 else off % 251

abbrev unpaged : ℕ → ℕ
unpaged off = if off == 2 then 4 else off % 251

paged-byte : (a : ℕ) → paged a < 256
paged-byte a = ground arith

unpaged-byte : (a : ℕ) → unpaged a < 256
unpaged-byte a = ground arith

translate_offset_inverts_example :
    let (pg, phys) = sff_8436_translate_offset 300 in
    (300 ≡ pg * 128 + phys) × (phys < 256) × (128 ≤ 300 → 128 ≤ phys)
translate_offset_inverts_example = translate_offset_inverts 300 (omega arith)

write_stays_on_page_example :
    let n = carried i2c_block_data (write_count 64 120 50) in
    (0 < n) × (n ≤ 50) × (n ≤ 64) × ((120 + n - 1) / 128 ≡ 120 / 128)
write_stays_on_page_example =
    write_stays_on_page i2c_block_data 64 120 50 (omega arith) (omega arith)

eeprom_transfers_end_example :
    let n = carried i2c_block_data (write_count 1 3 2) in
    ReadDone i2c_block_data 3
      (carried i2c_block_data 2)
      (sff_8436_eeprom_read (holding paged) i2c_block_data 3 2 [])
    × WriteDone i2c_block_data 3
        (take n (7 ∷ 8 ∷ []))
        n
        (sff_8436_eeprom_write (holding paged) i2c_block_data 1 (7 ∷ 8 ∷ []) 3 2 [])
eeprom_transfers_end_example =
    eeprom_transfers_end (holding paged) (holding-Clock paged) i2c_block_data 1 (7 ∷ 8 ∷ []) 3 2 []

port_read_write_returns_example :
    let o =
      sfp_port_read_write (holding paged) (port_of qsfp word_data 1) (read_op 4096) 250 300 [] in
    (r : Got) × (o.0 ≡ some r) × (mutex o.1 ≡ unlocked)
port_read_write_returns_example =
    port_read_write_returns (holding paged) (port_of qsfp word_data 1) (read_op 4096) 250 300 300 []
      (holding-Clock paged) (omega arith) (omega arith) (omega arith) legal refl
  where
    legal :
        (sff_8436_page_legal
          (holding paged)
          (port_of qsfp word_data 1)
          (pos 250)
          300
          (mutex_lock ∷ [])).0
        ≡ some (pos 300)
    legal =
        (page_legal-Returns word_data (holding paged) paged (holding-Serves paged paged-byte) qsfp 1
          250 300 (mutex_lock ∷ []) (omega arith) (omega arith) (omega arith) refl).value

port_read_delivers_example :
    Returns
      (pos 300, image_bytes paged 250 300)
      0
      (sfp_port_read_write (holding paged) (port_of qsfp word_data 1) (read_op 4096) 250 300 [])
port_read_delivers_example =
    port_read_delivers word_data (holding paged) paged (holding-Serves paged paged-byte) 1 4096 250
      300 [] (omega arith) (omega arith) (omega arith) (omega arith) (omega arith) refl

past_end_not_trimmed_example :
    Returns
      (pos 64)
      0
      (sff_8436_page_legal (holding unpaged) (port_of qsfp word_data 1) (pos 300) 64 [])
past_end_not_trimmed_example =
    past_end_not_trimmed word_data (holding unpaged) unpaged (holding-Serves unpaged unpaged-byte)
      qsfp 1 300 64 [] (omega arith) (omega arith) (omega arith) refl

missing_module_reads_as_end_example :
    Returns
      (pos 0, [])
      0
      (sfp_port_read_write silent (port_of qsfp word_data 1) (read_op 4096) 384 64 [])
missing_module_reads_as_end_example =
    missing_module_reads_as_end word_data silent (read_op 4096) 1 384 64 [] (λ t reg. refl)
      (omega arith) (omega arith) (omega arith) (omega arith) (omega arith) (omega arith)

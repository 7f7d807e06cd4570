-- ===== src/Fpga/Adapter/Routes.antt =====
-- An adapter's transfers go to the channel in its name, and never outside their arrays.
use meta_bisdn_linux.Base.{
  ℕ, ◌+◌, ◌/◌, ◌%◌, ◌≤◌, ◌<◌, ◌≡◌, true, subst, sym, refl, Option, List, [], ◌∷◌, inl, inr, length,
  take, ge→ltb, arith, ℤ,
}
use meta_bisdn_linux.Fpga.Bus.{Board, Trace, max_channel}
use meta_bisdn_linux.Fpga.Read.{fpga_smbus_read}
use meta_bisdn_linux.Fpga.Write.{fpga_smbus_write}
use meta_bisdn_linux.Fpga.Adapter.{
  Size, smbus_byte, smbus_read, smbus_write, transfer_length, smbus_data_size, adapter_name, Parser,
  channel_digits, with_no_data, fpga_smbus_access,
}
use meta_bisdn_linux.Fpga.Protocol.{Command, commands}
use meta_bisdn_linux.Fpga.Sent.{Returned}
use meta_bisdn_linux.Fpga.Correct.{LetIn, Delivered, Written, read_correct, write_correct}

-- What kstrtou8 does with two digits.
abbrev pub ReadsDigits : Parser → Type 0
ReadsDigits kstrtou8 = (n : ℕ) → n < 100 → kstrtou8 ((b'0' + n / 10) ∷ (b'0' + n % 10) ∷ []) ≡ inr n

pub transfer_length-le : (s : Size) → transfer_length s ≤ 32
unfolding transfer_length
transfer_length-le smbus_byte = omega arith
transfer_length-le _ = omega arith

parsed_channel :
    (kstrtou8 : Parser) (i : ℕ)
    → ReadsDigits kstrtou8
    → i < max_channel
    → kstrtou8 (channel_digits (adapter_name i)) ≡ inr i
unfolding channel_digits adapter_name
parsed_channel kstrtou8 i digits h = digits i (omega arith)

small_mod : (addr : ℕ) → addr ≤ 0x7F → addr % 256 ≡ addr
small_mod addr h = omega arith

with_no_data-Returned :
    (c : ℕ) (base : List Command) (done : Unit {0} → Trace → Type 0)
    (r : Option (ℤ × Unit {0}) × Trace)
    → Returned c base tt done r
    → Returned c base [] (λ _ u. done tt u) (with_no_data r)
with_no_data-Returned c base done r (inl (x, e, h)) = inl ([], rw e, h)
with_no_data-Returned c base done r (inr (inl (e, h))) = inr (inl (rw e, h))
with_no_data-Returned c base done r (inr (inr (e, h))) = inr (inr (rw e, h))

module _ (b : Board) (kstrtou8 : Parser) (digits : ReadsDigits kstrtou8) (i addr offset : ℕ)
    (size : Size) (bytes : List ℕ) (t : Trace) (channel_in : i < max_channel)
    (addr_in : addr ≤ 0x7F) where
  pub access_read :
      fpga_smbus_access b kstrtou8 true (adapter_name i) addr smbus_read offset size bytes t
      ≡ fpga_smbus_read b smbus_data_size i addr offset (transfer_length size) t
  unfolding fpga_smbus_access
  access_read = rw (parsed_channel kstrtou8 i digits channel_in) (
      rw
        (
          ge→ltb 34 (transfer_length size) (omega (arith, transfer_length-le size)),
          small_mod addr addr_in,
        )
        refl)

  pub access_write :
      fpga_smbus_access b kstrtou8 true (adapter_name i) addr smbus_write offset size bytes t
      ≡ with_no_data (fpga_smbus_write b i addr offset (transfer_length size) bytes t)
  unfolding fpga_smbus_access
  access_write = rw (parsed_channel kstrtou8 i digits channel_in) (
      rw
        (
          ge→ltb 34 (transfer_length size) (omega (arith, transfer_length-le size)),
          small_mod addr addr_in,
        )
        refl)

module _ (b : Board) (kstrtou8 : Parser) (digits : ReadsDigits kstrtou8) (i addr offset : ℕ)
    (size : Size) (bytes : List ℕ) (t : Trace) (l : LetIn b i addr t) where
  -- If kstrtou8 reads two digits as their number, then a read through the adapter that
  -- fpga_pci_probe names by `i` is a read of the size's number of bytes on channel `i`: for every
  -- size it stays inside its arrays, and it returns the bytes that came over the bus of that
  -- channel, or an error after a STOP.
  adapter_read_correct :
      Returned i
        (commands i t)
        []
        (Delivered i (commands i t) addr offset (transfer_length size))
        (fpga_smbus_access b kstrtou8 true (adapter_name i) addr smbus_read offset size bytes t)
  adapter_read_correct =
      subst
        (Returned i (commands i t) []
          (Delivered i (commands i t) addr offset (transfer_length size)))
        (sym (access_read b kstrtou8 digits i addr offset size bytes t l.channel_in l.addr_in))
        (read_correct b smbus_data_size i addr offset (transfer_length size) t l
          (omega (arith, transfer_length-le size)) (omega (arith, transfer_length-le size)))

  -- The same of a write, from a caller's union of 34 bytes.
  adapter_write_correct :
      length bytes ≡ smbus_data_size
      → Returned i
          (commands i t)
          []
          (λ _ u. Written i (commands i t) addr offset (take (transfer_length size) bytes) tt u)
          (fpga_smbus_access b kstrtou8 true (adapter_name i) addr smbus_write offset size bytes t)
  adapter_write_correct full =
      let n = transfer_length size in
      subst
        (Returned i (commands i t) []
          (λ _ u. Written i (commands i t) addr offset (take n bytes) tt u))
        (sym (access_write b kstrtou8 digits i addr offset size bytes t l.channel_in l.addr_in))
        (with_no_data-Returned i (commands i t)
          (Written i (commands i t) addr offset (take n bytes))
          (fpga_smbus_write b i addr offset n bytes t)
          (write_correct b i addr offset n bytes t l (omega (arith, transfer_length-le size))
            (omega (arith, full, transfer_length-le size))))

  -- If kstrtou8 reads two digits as their number, then a read and a write, with the full union of
  -- 34 bytes, through the adapter that fpga_pci_probe names by `i`, of an FPGA that is attached,
  -- with `i` below 34, a 7-bit address and the semaphore obtained, stay inside their arrays for
  -- every size. The read returns 0 and the bytes that came over the bus of channel `i`, the write
  -- returns 0 and has sent the first bytes of the union, as many as the size says, each after
  -- exactly the commands of the SMBus transfer; or they return -ETIMEDOUT after a STOP, or -EBUSY
  -- after a reset of the controller with a STOP.
  pub adapter_transfers_correct :
      length bytes ≡ smbus_data_size
      → Returned i
          (commands i t)
          []
          (Delivered i (commands i t) addr offset (transfer_length size))
          (fpga_smbus_access b kstrtou8 true (adapter_name i) addr smbus_read offset size bytes t)
        × Returned i
            (commands i t)
            []
            (λ _ u. Written i (commands i t) addr offset (take (transfer_length size) bytes) tt u)
            (fpga_smbus_access b kstrtou8 true
              (adapter_name i)
              addr
              smbus_write
              offset
              size
              bytes
              t)
  adapter_transfers_correct full = (adapter_read_correct, adapter_write_correct full)

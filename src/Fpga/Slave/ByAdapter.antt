-- ===== src/Fpga/Slave/ByAdapter.antt =====
-- A slave as a memory: what any sequence of reads and writes through the adapter of its channel
-- returns.
use meta_bisdn_linux.Base.{
  ℕ, ◌%◌, ◌≤◌, ◌≡◌, refl, sym, ap, subst, ◌∙◌, true, Option, some, List, [], ◌∷◌, length, take,
  replicate, pos, ℤ, arith,
}
use meta_bisdn_linux.Fpga.Bus.{Board, Trace}
use meta_bisdn_linux.Fpga.Read.{fpga_smbus_read}
use meta_bisdn_linux.Fpga.Write.{fpga_smbus_write}
use meta_bisdn_linux.Fpga.Adapter.{
  Size, smbus_read, smbus_write, transfer_length, smbus_data_size, adapter_name, Parser,
  with_no_data, fpga_smbus_access,
}
use meta_bisdn_linux.Fpga.Adapter.Routes.{
  ReadsDigits, transfer_length-le, access_read, access_write,
}
use meta_bisdn_linux.Fpga.Live.Succeeds.{transfers_succeed}
use meta_bisdn_linux.Fpga.Protocol.{commands, read_transcript, write_transcript}
use meta_bisdn_linux.Fpga.Slave.{Slave, serve, IsHonest}
use meta_bisdn_linux.Fpga.Slave.Told.{serve-append}
use meta_bisdn_linux.Fpga.Slave.Bytes.{store, fetch, serve-read, serve-write}
use meta_bisdn_linux.Fpga.Slave.ReadBack.{
  HasSlave, let_in, Delivered-fetch, read-IsHonest, write-IsHonest,
}

-- A read and a write of an offset, with the size of the transfer and the caller's union.
pub data Operation : Type 0 where
  load : ℕ → Size → Operation
  save : ℕ → Size → List ℕ → Operation

-- A write is given a whole union.
abbrev pub Whole : Operation → Type 0
Whole (load offset size) = Unit {0}
Whole (save offset size bytes) = length bytes ≡ smbus_data_size

-- What a memory of 256 bytes does.
abbrev pub answer : Operation → (ℕ → ℕ) → List ℕ × (ℕ → ℕ)
answer (load offset size) m = (fetch (offset % 256) (transfer_length size) m, m)
answer (save offset size bytes) m = ([], store (offset % 256) (take (transfer_length size) bytes) m)

abbrev pub expected : List Operation → (ℕ → ℕ) → List (Option (ℤ × List ℕ))
expected [] m = []
expected (op ∷ ops) m = let (bytes, m') = answer op m in some (pos 0, bytes) ∷ expected ops m'

abbrev pub AllWhole : List Operation → Type 0
AllWhole [] = Unit {0}
AllWhole (op ∷ ops) = Whole op × AllWhole ops

module _ (b : Board) (kstrtou8 : Parser) (c addr : ℕ) where
  -- What the adapter that fpga_pci_probe names by `c` does.
  abbrev pub ask : Operation → Trace → Option (ℤ × List ℕ) × Trace
  ask (load offset size) t =
      fpga_smbus_access b kstrtou8 true (adapter_name c) addr smbus_read offset size [] t
  ask (save offset size bytes) t =
      fpga_smbus_access b kstrtou8 true (adapter_name c) addr smbus_write offset size bytes t

  abbrev pub session : List Operation → Trace → List (Option (ℤ × List ℕ))
  session [] t = []
  session (op ∷ ops) t = let (r, t') = ask op t in r ∷ session ops t'

  module _ (digits : ReadsDigits kstrtou8) (d : ℕ) (s : Slave) (has : HasSlave b c addr d s) where
    -- The bytes of the slave after a trace.
    abbrev pub memory_of : Trace → ℕ → ℕ
    memory_of t = (serve c addr s (commands c t)).memory

    -- What a true trace and one operation lead to.
    abbrev Answered : Operation → (ℕ → ℕ) → Option (ℤ × List ℕ) × Trace → Type 0
    Answered op m (r, t) =
        IsHonest b t × (r ≡ some (pos 0, (answer op m).0)) × (memory_of t ≡ (answer op m).1)

    read-Answered :
        (offset n : ℕ) (t : Trace)
        → IsHonest b t
        → n ≤ 32
        → let (r, t₁) = fpga_smbus_read b smbus_data_size c addr offset n t in
          IsHonest b t₁
          × (r ≡ some (pos 0, fetch (offset % 256) n (memory_of t)))
          × (memory_of t₁ ≡ memory_of t)
    read-Answered offset n t honest h =
        let l = let_in b c addr d s has t in
        let t₁ = (fpga_smbus_read b smbus_data_size c addr offset n t).1 in
        let (bytes, zero_r, delivered) =
          (transfers_succeed b c d addr offset n t has.settles l smbus_data_size
            (replicate smbus_data_size 0) (omega arith) (omega arith) (omega arith)).0 in
        let honest₁ = read-IsHonest b c addr t l honest smbus_data_size offset n in
        let (raw, count, stored, said) = delivered in
        (
          honest₁,
          zero_r
              ∙ ap (λ x. some (pos 0, x))
                  (Delivered-fetch b c addr d s has t t₁ offset n bytes honest₁ delivered),
          ap (λ x. (serve c addr s x).memory) said
              ∙ ap (λ (u : Slave). u.memory)
                  (serve-append c addr s (commands c t) (read_transcript c addr offset raw))
              ∙ serve-read c addr offset raw (serve c addr s (commands c t)),
        )

    write-Answered :
        (offset n : ℕ) (bytes : List ℕ) (t : Trace)
        → IsHonest b t
        → n ≤ 32
        → n ≤ length bytes
        → let (r, t₁) = fpga_smbus_write b c addr offset n bytes t in
          IsHonest b t₁
          × (r ≡ some (pos 0, tt))
          × (memory_of t₁ ≡ store (offset % 256) (take n bytes) (memory_of t))
    write-Answered offset n bytes t honest h some_bytes =
        let l = let_in b c addr d s has t in
        let (done, zero_w, said) =
          (transfers_succeed b c d addr offset n t has.settles l smbus_data_size bytes (omega arith)
            (omega arith) some_bytes).1 in
        (
          write-IsHonest b c addr t l honest offset n bytes,
          zero_w,
          ap (λ x. (serve c addr s x).memory) said
              ∙ ap (λ (u : Slave). u.memory)
                  (serve-append c addr s (commands c t)
                    (write_transcript c addr offset (take n bytes)))
              ∙ serve-write c addr offset (take n bytes) (serve c addr s (commands c t)),
        )

    ask-Answered :
        (op : Operation) (t : Trace)
        → IsHonest b t
        → Whole op
        → Answered op (memory_of t) (ask op t)
    ask-Answered (load offset size) t honest whole =
        subst (Answered (load offset size) (memory_of t))
          (sym (access_read b kstrtou8 digits c addr offset size [] t has.channel_in has.addr_in))
          (read-Answered offset (transfer_length size) t honest (transfer_length-le size))
    ask-Answered (save offset size bytes) t honest whole =
        let n = transfer_length size in
        let (honest', result, memory') =
          write-Answered offset n bytes t honest (transfer_length-le size)
            (omega (arith, whole, transfer_length-le size)) in
        subst (Answered (save offset size bytes) (memory_of t))
          (sym
            (access_write b kstrtou8 digits c addr offset size bytes t has.channel_in has.addr_in))
          (
            honest',
            ap
                (λ (r : Option (ℤ × Unit {0})).
                  (with_no_data (r, (fpga_smbus_write b c addr offset n bytes t).1)).0)
                result,
            memory',
          )

    -- If kstrtou8 reads two digits as their number, and with a slave behind the channel `c`: begun
    -- after a trace of true answers, every sequence of reads and writes of any size through the
    -- adapter that fpga_pci_probe names by `c`, the writes from whole unions of 34 bytes, returns
    -- what a memory of 256 bytes, which has the bytes of the slave at the beginning, returns.
    pub session_refines_memory :
        (ops : List Operation) (t : Trace)
        → IsHonest b t
        → AllWhole ops
        → session ops t ≡ expected ops (memory_of t)
    session_refines_memory [] t honest whole = refl
    session_refines_memory (op ∷ ops) t honest (whole, rest) =
        let (honest', result, memory') = ask-Answered op t honest whole in
        ap (λ r. r ∷ session ops (ask op t).1) result
        ∙ ap (λ l. some (pos 0, (answer op (memory_of t)).0) ∷ l)
            (session_refines_memory ops (ask op t).1 honest' rest ∙ ap (expected ops) memory')

-- ===== src/Fpga/Slave/ReadBack.antt =====
-- Bytes that are written to a slave and read again, through the whole of both transfers.
use meta_bisdn_linux.Base.{
  ℕ, ◌+◌, ◌%◌, ◌≤◌, ◌<◌, ◌≡◌, refl, sym, ap, subst, ◌∙◌, true, List, [], ◌∷◌, map, length, take,
  length-take, Option, some, none, pos, is_zero, arith,
}
use meta_bisdn_linux.Fpga.Bus.{Board, Trace, down, max_channel, max_buff_size}
use meta_bisdn_linux.Fpga.Transfer.{Action, leave, with_channel}
use meta_bisdn_linux.Fpga.Read.{fpga_smbus_read}
use meta_bisdn_linux.Fpga.Read.Transcript.{byte}
use meta_bisdn_linux.Fpga.Write.{fpga_smbus_write}
use meta_bisdn_linux.Fpga.Keeps.{Keeps}
use meta_bisdn_linux.Fpga.Channel.{
  Accesses, Left, leave-Left, Keeps-read_transfer, Keeps-write_transfer,
}
use meta_bisdn_linux.Fpga.Protocol.{commands, read_transcript, write_transcript}
use meta_bisdn_linux.Fpga.Correct.{LetIn, Delivered, with_channel-let_in}
use meta_bisdn_linux.Fpga.Live.{Settles}
use meta_bisdn_linux.Fpga.Live.Succeeds.{transfers_succeed}
use meta_bisdn_linux.Fpga.Slave.{Slave, serve, Serves, IsHonest}
use meta_bisdn_linux.Fpga.Slave.Told.{Told, Told-rest, IsHonest-Told, serve-append}
use meta_bisdn_linux.Fpga.Slave.Bytes.{store, fetch, serve-write, Told-read, fetch-store}

module _ (b : Board) (c : ℕ) where
  accesses-IsHonest : Accesses b c (IsHonest b)
  accesses-IsHonest = record {
    sleeps = λ x. record { at = λ t h. h };
    reads = λ a w. record { at = λ t h. (refl, h) };
    writes = λ a v w. record { at = λ t h. h };
  }

  Left-IsHonest : {A : Type 0} (o : Option A × Trace) → Left (IsHonest b) c o → IsHonest b o.1
  Left-IsHonest (none, t) h = h
  Left-IsHonest (some x, t) (t', e, h) = rw e h

  module _ (addr : ℕ) (t : Trace) (l : LetIn b c addr t) (honest : IsHonest b t) where
    with_channel-IsHonest :
        {A : Type 0} (unchanged : A) (body : Action A)
        → Keeps (IsHonest b) body
        → IsHonest b (with_channel b c addr unchanged body t).1
    with_channel-IsHonest unchanged body k =
        let t₁ : Trace = down c (b.interrupted t c) ∷ t in
        let o = body t₁ in
        subst (λ r. IsHonest b r.1) (sym (with_channel-let_in b c addr unchanged body t l))
          (Left-IsHonest (leave b c unchanged o)
            (leave-Left accesses-IsHonest unchanged o.0 o.1 (k.at t₁ honest)))

    pub write-IsHonest :
        (offset n : ℕ) (src : List ℕ) → IsHonest b (fpga_smbus_write b c addr offset n src t).1
    unfolding fpga_smbus_write
    write-IsHonest offset n src =
        with_channel-IsHonest tt _ (Keeps-write_transfer accesses-IsHonest addr offset n src)

    pub read-IsHonest :
        (size offset n : ℕ) → IsHonest b (fpga_smbus_read b size c addr offset n t).1
    unfolding fpga_smbus_read
    read-IsHonest size offset n =
        with_channel-IsHonest [] _ (Keeps-read_transfer accesses-IsHonest size addr offset n)

-- A channel with the slave `addr` behind it, which settles within `d` polls, and semaphores that
-- are always obtained.
pub record HasSlave (b : Board) (c addr d : ℕ) (s : Slave) : Type 0 where
  pub channel_in : c < max_channel
  pub addr_in : addr ≤ 0x7F
  pub obtained : (t : Trace) → is_zero (b.interrupted t c) ≡ true
  pub settles : Settles b c d
  pub serves : Serves b c addr s

module _ (b : Board) (c addr d : ℕ) (s : Slave) (has : HasSlave b c addr d s) where
  pub let_in : (t : Trace) → LetIn b c addr t
  let_in t = record {
    channel_in = has.channel_in;
    addr_in = has.addr_in;
    obtained = has.obtained t;
  }

  -- The bytes that a read stores are those of the slave's memory.
  pub Delivered-fetch :
      (t u : Trace) (offset n : ℕ) (bytes : List ℕ)
      → IsHonest b u
      → Delivered c (commands c t) addr offset n bytes u
      → bytes ≡ fetch (offset % 256) n (serve c addr s (commands c t)).memory
  Delivered-fetch t u offset n bytes honest (raw, count, stored, said) =
      let told = IsHonest-Told c addr b s u has.serves honest in
      let s₁ = serve c addr s (commands c t) in
      stored
      ∙ Told-read c addr offset raw s₁ (
          Told-rest c addr s (commands c t) (read_transcript c addr offset raw)
            (subst (Told c addr s) said told))
      ∙ ap (λ k. fetch (offset % 256) k s₁.memory) count

  -- With a slave behind the channel, begun after a trace of true answers, a write of the first `n`
  -- bytes of an array and then a read of `n` bytes from the same offset both return 0, and the
  -- read stores the bytes that were written; at most 128 bytes, within the slave's 256.
  pub write_reads_back :
      (offset n size : ℕ) (src : List ℕ) (t : Trace)
      → IsHonest b t
      → n ≤ max_buff_size
      → n ≤ size
      → n ≤ length src
      → offset + n ≤ 256
      → let (r, t₁) = fpga_smbus_write b c addr offset n src t in
        (r ≡ some (pos 0, tt))
        × ((fpga_smbus_read b size c addr offset n t₁).0 ≡ some (pos 0, map byte (take n src)))
  write_reads_back offset n size src t honest fits room some_src inside =
      let t₁ = (fpga_smbus_write b c addr offset n src t).1 in
      let t₂ = (fpga_smbus_read b size c addr offset n t₁).1 in
      let (x, zero_w, written_w) =
        (transfers_succeed b c d addr offset n t has.settles (let_in t) size src fits room
          some_src).1 in
      let (bytes, zero_r, delivered) =
        (transfers_succeed b c d addr offset n t₁ has.settles (let_in t₁) size src fits room
          some_src).0 in
      let honest₁ = write-IsHonest b c addr t (let_in t) honest offset n src in
      let honest₂ = read-IsHonest b c addr t₁ (let_in t₁) honest₁ size offset n in
      let s₀ = serve c addr s (commands c t) in
      let vs = take n src in
      let count : length vs ≡ n = omega (arith, length-take n src) in
      let memory₁ : (serve c addr s (commands c t₁)).memory ≡ store (offset % 256) vs s₀.memory =
        ap (λ l. (serve c addr s l).memory) written_w
        ∙ ap (λ u. u.memory)
            (serve-append c addr s (commands c t) (write_transcript c addr offset vs))
        ∙ serve-write c addr offset vs s₀ in
      let fetched : bytes ≡ map byte vs =
        Delivered-fetch t₁ t₂ offset n bytes honest₂ delivered
        ∙ ap (fetch (offset % 256) n) memory₁
        ∙ ap (λ k. fetch (offset % 256) k (store (offset % 256) vs s₀.memory)) (sym count)
        ∙ fetch-store (offset % 256) vs s₀.memory (omega arith) in
      (zero_w, zero_r ∙ ap (λ l. some (pos 0, l)) fetched)

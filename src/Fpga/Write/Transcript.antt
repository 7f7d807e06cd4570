-- ===== src/Fpga/Write/Transcript.antt =====
-- What a write that was let in says on the bus.
use meta_bisdn_linux.Base.{
  ℕ, ◌≤◌, ◌≡◌, refl, List, [], ◌∷◌, ◌++◌, append-nil, append_assoc, length, take, le→leb,
}
use meta_bisdn_linux.Fpga.Bus.{
  Board, Trace, cmd_stat_addr, command_start_write, command_enable_write, command_stop,
  max_buff_size, write,
}
use meta_bisdn_linux.Fpga.Transfer.{await_idle}
use meta_bisdn_linux.Fpga.Read.{address_write}
use meta_bisdn_linux.Fpga.Write.{write_bytes, write_transfer}
use meta_bisdn_linux.Fpga.Outcome.{Meets, bind, Meets-map, Meets-await_idle}
use meta_bisdn_linux.Fpga.Protocol.{
  Command, put, sent, written, Issued, quiet-Issued, write_transcript,
}
use meta_bisdn_linux.Fpga.Sent.{Began, Meets-send}

-- The rounds of the loop that sends the bytes.
abbrev bytes_sent : ℕ → List ℕ → List Command
bytes_sent c [] = []
bytes_sent c (v ∷ vs) = sent c v command_enable_write ++ bytes_sent c vs

bytes_sent-stop :
    (c : ℕ) (vs : List ℕ)
    → bytes_sent c vs ++ put (cmd_stat_addr c) command_stop ∷ [] ≡ written c vs
bytes_sent-stop c [] = refl
bytes_sent-stop c (v ∷ vs) = rw append_assoc (rw (bytes_sent-stop c vs))

module _ (b : Board) (c : ℕ) (base : List Command) where
  write_bytes-Meets :
      (vs : List ℕ) (stat : ℕ) (x : List Command) (t : Trace)
      → Issued c (base ++ x) t
      → Meets
          (Began c base)
          (λ _ u. Issued c (base ++ (x ++ bytes_sent c vs)) u)
          (write_bytes b c vs stat t)
  unfolding write_bytes
  write_bytes-Meets [] stat x t h = record { outcome = rw append-nil h }
  write_bytes-Meets (v ∷ vs) stat x t h =
      bind _ (Meets-send b c base x v command_enable_write 9 stat t h) λ s₁ t₁ h₁.
        Meets-map
          {Q = λ _ u.
            Issued c (base ++ ((x ++ sent c v command_enable_write) ++ bytes_sent c vs)) u}
          (λ a u e. rw append_assoc at e)
          (write_bytes-Meets vs s₁ (x ++ sent c v command_enable_write) t₁ h₁)

  pub write_transfer-Meets :
      (addr offset n : ℕ) (src : List ℕ) (t : Trace)
      → n ≤ max_buff_size
      → n ≤ length src
      → Issued c base t
      → Meets
          (Began c base)
          (λ _ u. Issued c (base ++ write_transcript c addr offset (take n src)) u)
          (write_transfer b c addr offset n src t)
  unfolding write_transfer
  write_transfer-Meets addr offset n src t fits room h =
      rw (le→leb n max_buff_size fits, le→leb n (length src) room)
        (bind _
          (Meets-send b c base [] (address_write addr) command_start_write 3 0 t (rw append-nil h))
          λ s₁ t₁ h₁.
            bind _ (Meets-send b c base _ offset command_enable_write 6 s₁ t₁ h₁) λ s₂ t₂ h₂.
              bind _ (write_bytes-Meets (take n src) s₂ _ t₂ h₂)
                λ s₃ t₃ h₃. bind _ (idle s₃ t₃ h₃) λ s₄ t₄ h₄. record { outcome = h₄ })
    where
      all : List Command
      all = write_transcript c addr offset (take n src)

      idle :
          (s : ℕ) (t : Trace)
          → Issued c
              (base
                ++ (([]
                      ++ sent c (address_write addr) command_start_write
                      ++ sent c offset command_enable_write)
                    ++ bytes_sent c (take n src)))
              t
          → Meets
              (Began c base)
              (λ _ u. Issued c (base ++ all) u)
              (await_idle b c 12 s (write (cmd_stat_addr c) command_stop ∷ t))
      idle s t h =
          Meets-await_idle b c (Began c base) (Issued c (base ++ all)) (λ v e. (_, e))
            (quiet-Issued b c (base ++ all)) 12 s _
            (rw h (simp (append_assoc, bytes_sent-stop c (take n src))))

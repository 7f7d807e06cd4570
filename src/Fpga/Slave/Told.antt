-- ===== src/Fpga/Slave/Told.antt =====
-- What an honest trace tells of the slave: each byte taken from the controller is the one that the
-- slave gave last.
use meta_bisdn_linux.Base.{
  ℕ, ◌%◌, ◌≡◌, refl, ap, ◌∙◌, List, [], ◌∷◌, ◌++◌, append-nil, ◌==◌, arith, Bool-cases, inl, inr,
}
use meta_bisdn_linux.Fpga.Bus.{Board, Trace, write, read, sleep, down, up, txr_addr}
use meta_bisdn_linux.Fpga.Protocol.{Command, put, got, commands}
use meta_bisdn_linux.Fpga.Slave.{Slave, serve_one, serve, Serves, IsHonest}

abbrev pub Told : ℕ → ℕ → Slave → List Command → Type 0
Told c addr s [] = Unit {0}
Told c addr s (put a v ∷ cmds) = Told c addr (serve_one c addr (put a v) s) cmds
Told c addr s (got v ∷ cmds) = (v % 256 ≡ s.out % 256) × Told c addr s cmds

module _ (c addr : ℕ) where
  pub serve-append :
      (s : Slave) (xs ys : List Command)
      → serve c addr s (xs ++ ys) ≡ serve c addr (serve c addr s xs) ys
  serve-append s [] ys = refl
  serve-append s (x ∷ xs) ys = serve-append (serve_one c addr x s) xs ys

  Told-append :
      (s : Slave) (xs ys : List Command)
      → Told c addr s xs
      → Told c addr (serve c addr s xs) ys
      → Told c addr s (xs ++ ys)
  Told-append s [] ys h k = k
  Told-append s (put a v ∷ xs) ys h k = Told-append (serve_one c addr (put a v) s) xs ys h k
  Told-append s (got v ∷ xs) ys (e, h) k = (e, Told-append s xs ys h k)

  pub Told-rest :
      (s : Slave) (xs ys : List Command)
      → Told c addr s (xs ++ ys)
      → Told c addr (serve c addr s xs) ys
  Told-rest s [] ys h = h
  Told-rest s (put a v ∷ xs) ys h = Told-rest (serve_one c addr (put a v) s) xs ys h
  Told-rest s (got v ∷ xs) ys (e, h) = Told-rest s xs ys h

  pub IsHonest-Told :
      (b : Board) (s : Slave) (t : Trace)
      → Serves b c addr s
      → IsHonest b t
      → Told c addr s (commands c t)
  IsHonest-Told b s [] serves h = tt
  IsHonest-Told b s (write a v ∷ t) serves h =
      Told-append s (commands c t) (put a v ∷ []) (IsHonest-Told b s t serves h) tt
  IsHonest-Told b s (read a v ∷ t) serves (e, h) =
      let before = IsHonest-Told b s t serves h in
      elim (Bool-cases (a == txr_addr c)) [
        | inl own ↦
            let same : a ≡ txr_addr c = ground (arith, own) in
            rw own (
              Told-append s (commands c t) (got v ∷ []) before
                (ap (λ x. x % 256) (e ∙ ap (b.register t) same) ∙ serves t, tt))
        | inr foreign ↦ rw (foreign, append-nil) before
      ]
  IsHonest-Told b s (sleep lo hi ∷ t) serves h = rw append-nil (IsHonest-Told b s t serves h)
  IsHonest-Told b s (down k rc ∷ t) serves h = rw append-nil (IsHonest-Told b s t serves h)
  IsHonest-Told b s (up k ∷ t) serves h = rw append-nil (IsHonest-Told b s t serves h)

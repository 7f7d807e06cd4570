-- ===== src/Fpga/Life/Balance.antt =====
-- What is still held after probing and removing the FPGA, whatever the kernel answers.
use meta_bisdn_linux.Base.{
  ℕ, zero, suc, ◌+◌, ◌≤◌, ◌<◌, ◌≡◌, refl, ap, subst, ◌∙◌, inl, inr, arith, [], ◌∷◌, ℤ, pos, Bool,
  true, false, true≢false, is_zero, ◌==◌, ne→==, ltb, leb, ◌&&◌, if◌then◌else◌, Bool-cases,
}
use meta_bisdn_linux.Base.Uses.{Use, free, held, misused, take, give}
use meta_bisdn_linux.Fpga.Bus.{max_channel}
use meta_bisdn_linux.Fpga.Life.{
  Resource, driver_data, dev_number, fpga_class, fpga_udev, pci_device, pci_region, mapping, irq,
  fpga_cdev, adapter, acquired, released, stored, set_drvdata, set_master, mask_all_intr,
  init_smbus, free_irq_vectors, Log, Answers, add_adapters, del_adapters,
}

abbrev pub same : Resource → Resource → Bool
same driver_data driver_data = true
same dev_number dev_number = true
same fpga_class fpga_class = true
same fpga_udev fpga_udev = true
same pci_device pci_device = true
same pci_region pci_region = true
same mapping mapping = true
same irq irq = true
same fpga_cdev fpga_cdev = true
same (adapter i) (adapter j) = i == j
same _ _ = false

-- What has become of a resource.
abbrev pub use_of : Resource → Log → Use
use_of r [] = free
use_of r (acquired q ∷ log) = if same q r then take (use_of r log) else use_of r log
use_of r (released q ∷ log) = if same q r then give (use_of r log) else use_of r log
use_of r (stored f b ∷ log) = use_of r log
use_of r (set_drvdata b ∷ log) = use_of r log
use_of r (set_master ∷ log) = use_of r log
use_of r (mask_all_intr ∷ log) = use_of r log
use_of r (init_smbus ∷ log) = use_of r log
use_of r (free_irq_vectors ∷ log) = use_of r log

-- How many adapters of `n` from `i` on are added before the first that is not.
unfoldable pub added : (ℕ → ℤ) → ℕ → ℕ → ℕ
added f zero i = 0
added f (suc n) i = if is_zero (f i) then suc (added f n (i + 1)) else 0

-- Where a probe ends.
pub data End : Type 0 where
  before_mapping at_cdev complete : End
  at_adapter : ℕ → End

abbrev pub end_of_adapters : ℕ → End
end_of_adapters k = if k == max_channel then complete else at_adapter k

abbrev or_early : Bool → End → End
or_early ok end = if ok then end else before_mapping

abbrev pub end_of_mapping : Answers → End
end_of_mapping a =
    let from_cdev =
      if is_zero a.cdev_add
      then end_of_adapters (added a.i2c_add_adapter max_channel 0)
      else at_cdev in
    or_early a.pci_iomap from_cdev

abbrev pub end_of_device : Answers → End
end_of_device a =
    or_early (is_zero a.pci_enable_device)
      (or_early (is_zero a.pci_request_region) (end_of_mapping a))

abbrev pub end_of_class : Answers → End
end_of_class a =
    or_early (is_zero a.class_create) (or_early (is_zero a.device_create) (end_of_device a))

abbrev pub end_of : Answers → End
end_of a = or_early a.kzalloc (or_early (is_zero a.alloc_chrdev_region) (end_of_class a))

-- What a probe that ends there leaves of a resource.
abbrev pub left_of : End → Resource → Use
left_of before_mapping r = free
left_of at_cdev mapping = held
left_of at_cdev irq = misused
left_of at_cdev r = free
left_of (at_adapter k) mapping = held
left_of (at_adapter k) fpga_cdev = held
left_of (at_adapter k) irq = misused
left_of (at_adapter k) (adapter i) = if leb k i && ltb i max_channel then misused else free
left_of (at_adapter k) r = free
left_of complete irq = free
left_of complete (adapter i) = if ltb i max_channel then held else free
left_of complete r = held

-- The log of adding `n` adapters from `i` on.
abbrev pub takes : ℕ → ℕ → Log → Log
takes zero i log = log
takes (suc n) i log = takes n (i + 1) (acquired (adapter i) ∷ log)

pub add_adapters_lem :
    (a : Answers) (n i : ℕ) (log : Log)
    → let k = added a.i2c_add_adapter n i in
      add_adapters a n i log
      ≡ ((if k == n then pos 0 else a.i2c_add_adapter (i + k)), takes k i log)
unfolding add_adapters added
add_adapters_lem a zero i log = refl
add_adapters_lem a (suc n) i log = elim (Bool-cases (is_zero (a.i2c_add_adapter i))) [
  | inl good ↦
      let k = added a.i2c_add_adapter n (i + 1) in
      let u = takes k (i + 1) (acquired (adapter i) ∷ log) in
      let end : (suc k == suc n) ≡ (k == n) = ground arith in
      let next : i + suc k ≡ i + 1 + k = omega arith in
      rw (good, add_adapters)
        (add_adapters_lem a n (i + 1) (acquired (adapter i) ∷ log) ∙ rw (end, next) refl)
  | inr bad ↦
      let here : i + 0 ≡ i = omega arith in
      rw (bad, add_adapters) (rw (ne→== 0 (suc n) (omega arith), here) refl)
]

pub added-le : (f : ℕ → ℤ) (n i : ℕ) → added f n i ≤ n
unfolding added
added-le f zero i = omega arith
added-le f (suc n) i = ground (arith, added-le f n (i + 1))

pub added-failed :
    (f : ℕ → ℤ) (n i : ℕ) → (added f n i == n) ≡ false → is_zero (f (i + added f n i)) ≡ false
unfolding added
added-failed f zero i e = absurd (true≢false e)
added-failed f (suc n) i e =
    let k = added f n (i + 1) in
    elim (Bool-cases (is_zero (f i))) [
      | inl good ↦
          let e' : (suc k == suc n) ≡ false =
            subst (λ b. ((if b then suc k else 0) == suc n) ≡ false) good e in
          let left : (k == n) ≡ false = ground arith in
          let next : i + suc k ≡ i + 1 + k = omega arith in
          rw good (rw next (added-failed f n (i + 1) left))
      | inr bad ↦ let here : i + 0 ≡ i = omega arith in rw bad (rw here bad)
    ]

row_step :
    (g : Use → Use) (j n i : ℕ) (u : Use)
    → (let v = if i == j then g u else u in if leb (i + 1) j && ltb j (i + 1 + n) then g v else v)
      ≡ (if leb i j && ltb j (i + suc n) then g u else u)
row_step g j n i u = ground arith

-- Taking and giving back a row of adapters, as it looks from one of them.
pub takes_adapter :
    (j n i : ℕ) (log : Log)
    → use_of (adapter j) (takes n i log)
      ≡ (if leb i j && ltb j (i + n) then take (use_of (adapter j) log) else use_of (adapter j) log)
takes_adapter j zero i log = ground arith
takes_adapter j (suc n) i log =
    takes_adapter j n (i + 1) (acquired (adapter i) ∷ log)
    ∙ row_step take j n i (use_of (adapter j) log)

pub dels_adapter :
    (j n i : ℕ) (log : Log)
    → use_of (adapter j) (del_adapters n i log)
      ≡ (if leb i j && ltb j (i + n) then give (use_of (adapter j) log) else use_of (adapter j) log)
unfolding del_adapters
dels_adapter j zero i log = ground arith
dels_adapter j (suc n) i log =
    dels_adapter j n (i + 1) (released (adapter i) ∷ log)
    ∙ row_step give j n i (use_of (adapter j) log)

-- From the other resources it is not seen.
pub takes_other :
    (r : Resource) (n i : ℕ) (log : Log)
    → ((j : ℕ) → same (adapter j) r ≡ false)
    → use_of r (takes n i log) ≡ use_of r log
takes_other r zero i log h = refl
takes_other r (suc n) i log h =
    takes_other r n (i + 1) (acquired (adapter i) ∷ log) h ∙ rw (h i) refl

pub dels_other :
    (r : Resource) (n i : ℕ) (log : Log)
    → ((j : ℕ) → same (adapter j) r ≡ false)
    → use_of r (del_adapters n i log) ≡ use_of r log
unfolding del_adapters
dels_other r zero i log h = refl
dels_other r (suc n) i log h = dels_other r n (i + 1) (released (adapter i) ∷ log) h ∙ rw (h i) refl

-- An adapter that a failed loop deletes.
pub deleted_adapter :
    (j k : ℕ) (log : Log)
    → k < max_channel
    → use_of (adapter j) log ≡ free
    → use_of (adapter j) (del_adapters max_channel 0 (takes k 0 log))
      ≡ (if leb k j && ltb j max_channel then misused else free)
deleted_adapter j k log h e =
    dels_adapter j max_channel 0 (takes k 0 log)
    ∙ ap (λ u. if leb 0 j && ltb j (0 + max_channel) then give u else u)
        (takes_adapter j k 0 log ∙ ap (λ u. if leb 0 j && ltb j (0 + k) then take u else u) e)
    ∙ ground arith

pub deleted_other :
    (r : Resource) (k : ℕ) (log : Log)
    → ((j : ℕ) → same (adapter j) r ≡ false)
    → use_of r (del_adapters max_channel 0 (takes k 0 log)) ≡ use_of r log
deleted_other r k log h = dels_other r max_channel 0 (takes k 0 log) h ∙ takes_other r k 0 log h

abbrev pub is_complete : End → Bool
is_complete complete = true
is_complete _ = false

-- A probe that ends in `end` leaves the resources so, and returns 0 exactly if it is complete.
abbrev pub Ended : End → ℤ × Log → Type 0
Ended end (retval, log) =
    (is_zero retval ≡ is_complete end) × ((r : Resource) → use_of r log ≡ left_of end r)

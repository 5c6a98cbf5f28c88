-- ===== src/Hal/Spi/Opening.antt =====
-- The opening of the SPI device: SpiControl::init
-- (libs/HardwareAbstractionLayerImpl/Rpi/src/SpiControl.cpp).
use sugo_machine_application.Prelude.{
  ℕ, ◌≡◌, ◌⊎◌, inl, inr, refl, ap, ◌∙◌, Bool, true, false, arith, ◌%◌,
}
use sugo_machine_application.Prelude.Int.{ℤ, pos, negsuc, eqb_ℤ}
use sugo_machine_application.Hal.Bus.{
  Bus, write_bits_per_word, read_bits_per_word, write_max_speed, read_max_speed, HalWorld, pure,
  unless_failed,
}
use sugo_machine_application.Hal.Spi.{
  Fields, SpiAction, invalid_file_descriptor, mode1, select_low, msb_first, with_clock,
  with_chip_select, with_bit_order, configure, finalize, change_mode, set_mode, set_chip_select,
  set_bit_order, set_speed, or_close, set_up, configure_words, after_open, open_result, init,
}

-- An open device with this mode.
abbrev Open : ℕ → ℕ → HalWorld Fields → Type 0
Open n mode w = (w.fields.fd ≡ pos n) × (w.fields.mode ≡ mode)

-- A result of true leaves the device open in the mode 1, a result of false leaves it closed.
abbrev Ends : ℕ → Bool × HalWorld Fields → Type 0
Ends n result =
    ((result.0 ≡ true) × Open n 1 result.1)
    ⊎ ((result.0 ≡ false) × (result.1.fields.fd ≡ invalid_file_descriptor))

never : (n : ℕ) → eqb_ℤ (pos n) invalid_file_descriptor ≡ false
never n = ground arith

module _ (bus : Bus) where
  finalize_closes :
      (n : ℕ) (w : HalWorld Fields)
      → w.fields.fd ≡ pos n
      → (finalize bus w).1.fields.fd ≡ invalid_file_descriptor
  unfolding finalize
  finalize_closes n w here =
      let opened : eqb_ℤ w.fields.fd invalid_file_descriptor ≡ false =
        ap (λ z. eqb_ℤ z invalid_file_descriptor) here ∙ never n in
      rw opened refl

  or_close-Ends :
      (n : ℕ) (ok : Bool) (next : SpiAction Bool) (w : HalWorld Fields)
      → w.fields.fd ≡ pos n
      → Ends n (next w)
      → Ends n (or_close bus ok next w)
  unfolding or_close
  or_close-Ends n true next w here ends = ends
  or_close-Ends n false next w here ends = inr (refl, finalize_closes n w here)

  change_mode_lem :
      (n mode : ℕ) (change : ℕ → ℕ) (w : HalWorld Fields)
      → Open n mode w
      → Open n (change mode) (change_mode bus change w).1
  unfolding change_mode configure
  change_mode_lem n mode change w here = (here.0, ap change here.1)

  unless_failed-Open :
      (n mode : ℕ) (ok : Bool) (next : SpiAction Bool) (w : HalWorld Fields)
      → Open n mode w
      → Open n mode (next w).1
      → Open n mode (unless_failed ok next w).1
  unless_failed-Open n mode true next w here then_next = then_next
  unless_failed-Open n mode false next w here then_next = here

  set_speed_lem :
      (n mode speed : ℕ) (w : HalWorld Fields)
      → Open n mode w
      → Open n mode (set_speed bus speed w).1
  unfolding set_speed configure
  set_speed_lem n mode speed w here =
      let (written, w1) = configure bus write_max_speed speed w in
      let (answer, w2) = configure bus read_max_speed speed w1 in
      unless_failed-Open n mode written.0 _ w1 here
        (unless_failed-Open n mode answer.0 _ w2 here here)

  set_up-Ends : (n : ℕ) (w : HalWorld Fields) → Open n 0 w → Ends n (set_up bus w)
  unfolding set_up set_mode set_chip_select set_bit_order with_clock with_chip_select with_bit_order
  set_up-Ends n w here =
      let (clocked, w1) = set_mode bus mode1 w in
      let at1 = change_mode_lem n 0 (with_clock mode1) w here in
      let (selected, w2) = set_chip_select bus select_low w1 in
      let at2 = change_mode_lem n 1 (with_chip_select select_low) w1 at1 in
      let (ordered, w3) = set_bit_order bus msb_first w2 in
      let at3 = change_mode_lem n 1 (with_bit_order msb_first) w2 at2 in
      let (timed, w4) = set_speed bus 1000000 w3 in
      let at4 = set_speed_lem n 1 1000000 w3 at3 in
      or_close-Ends n clocked _ w1 at1.0 (
        or_close-Ends n selected _ w2 at2.0 (
          or_close-Ends n ordered _ w3 at3.0
            (or_close-Ends n timed (pure true) w4 at4.0 (inl (refl, at4)))))

  configure_words-Ends : (n : ℕ) (w : HalWorld Fields) → Open n 0 w → Ends n (configure_words bus w)
  unfolding configure_words configure
  configure_words-Ends n w here =
      let (written, w1) = configure bus write_bits_per_word 8 w in
      let (answer, w2) = configure bus read_bits_per_word 8 w1 in
      let w3 : HalWorld Fields = record w2 {
        fields = record w2.fields { bits_per_word = answer.1 % 256 };
      } in
      or_close-Ends n written.0 _ w1 here.0
        (or_close-Ends n answer.0 _ w2 here.0 (set_up-Ends n w3 here))

  -- What the opening of the device ends with.
  abbrev pub Opened : Bool × HalWorld Fields → Type 0
  Opened result =
      ((result.0 ≡ true) × ((n : ℕ) × (result.1.fields.fd ≡ pos n)) × (result.1.fields.mode ≡ 1))
      ⊎ ((result.0 ≡ false) × ((n : ℕ) × (result.1.fields.fd ≡ negsuc n)))

  Opened-Ends : (n : ℕ) (result : Bool × HalWorld Fields) → Ends n result → Opened result
  Opened-Ends n result (inl e) = inl (e.0, (n, e.1.0), e.1.1)
  Opened-Ends n result (inr e) = inr (e.0, (0, e.1))

  after_open_ends : (fd : ℤ) (w : HalWorld Fields) → w.fields.fd ≡ fd → Opened (after_open bus fd w)
  unfolding after_open
  after_open_ends (negsuc n) w here = inr (refl, (n, here))
  after_open_ends (pos n) w here =
      let w1 : HalWorld Fields = record w {
        fields = record w.fields { mode = 0; bits_per_word = 0; speed_hz = 0 };
      } in
      Opened-Ends n (configure_words bus w1) (configure_words-Ends n w1 (here, refl))

  -- The opening of the SPI device either succeeds, and then the device is open with the clock mode 1,
  -- an active low chip select and the highest bit first, or it fails, and then the device is closed.
  pub init_ends : (w : HalWorld Fields) → Opened (init bus w)
  unfolding init open_result
  init_ends w = let (fd, w1) = open_result bus w in after_open_ends fd w1 refl

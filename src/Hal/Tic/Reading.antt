-- ===== src/Hal/Tic/Reading.antt =====
-- What TicController::getState (libs/HardwareAbstractionLayerImpl/Rpi/src/TicController.cpp) reads.
use sugo_machine_application.Prelude.{
  ℕ, zero, suc, ◌+◌, ◌-◌, ◌%◌, ◌≤◌, ◌<◌, ◌≡◌, refl, ap, ◌∙◌, Bool, true, false, ◌==◌, if◌then◌else◌,
  List, [], ◌∷◌, ◌++◌, append-nil, some, arith, length, drop, length-drop, Bool-cases, inl, inr,
}
use sugo_machine_application.Prelude.Int.{pos}
use sugo_machine_application.Hal.Bus.{Bus, HalWorld, BusCall, buffer, read_call, i2c_read}
use sugo_machine_application.Hal.Tic.{
  copy_at, next_bytes, read_blocks, get_variable, get_state, state_size,
}
use sugo_machine_application.Hal.Tic.Buffers.{
  length-buffer, buffer-append, buffer_shift, nil_of_length, ==→eq, copy_at-append,
  next_bytes_bounds, length-copy_at,
}

module _ (bus : Bus) (address : ℕ) where
  -- The reads of the controller's memory: they go through, and byte i of a read from an offset on
  -- is byte offset + i of the memory.
  pub record Answers (memory : ℕ → ℕ) : Type 0 where
    pub goes_through :
        (h : _) (offset size : ℕ)
        → bus.ioctl h (read_call address (0xA1 ∷ offset ∷ []) size) ≡ pos 2
    pub answers :
        (h : _) (offset size i : ℕ)
        → bus.received h (read_call address (0xA1 ∷ offset ∷ []) size) i ≡ memory (offset + i)

  -- With more fuel than bytes are left, the loop of `getState` ends, whatever the bus answers.
  pub read_blocks_ends :
      {D : Type 0} (fuel remaining offset : ℕ) (memory : List ℕ) (w : HalWorld D)
      → remaining < fuel
      → (ok : Bool) × ((read_blocks bus address fuel remaining offset memory w).0.0 ≡ some ok)
  unfolding read_blocks get_variable i2c_read
  read_blocks_ends zero remaining offset memory w h = absurd (omega arith)
  read_blocks_ends (suc fuel) remaining offset memory w h = elim (Bool-cases (remaining == 0)) [
    | inl none_left ↦ rw none_left (true, refl)
    | inr some_left ↦
        elim (Bool-cases (get_variable bus address (offset % 256) (next_bytes remaining) w).0.0) [
          | inl hit ↦
              rw (some_left, hit)
                (read_blocks_ends fuel _ _ _ _
                  (omega (arith, next_bytes_bounds remaining some_left)))
          | inr miss ↦ rw (some_left, miss) (false, refl)
        ]
  ]

  -- The reads of the loop, newest first.
  abbrev read_calls : ℕ → ℕ → ℕ → List BusCall → List BusCall
  read_calls zero remaining offset h = h
  read_calls (suc fuel) remaining offset h =
      let next = next_bytes remaining in
      let rest =
        read_calls fuel (remaining - next) (offset + next)
          (read_call address (0xA1 ∷ offset % 256 ∷ []) next ∷ h) in
      if remaining == 0 then h else rest

  -- After a read, the part filled is longer by the block.
  copied :
      (memory : ℕ → ℕ)
      → Answers memory
      → (offset next : ℕ) (rest : List ℕ) (h : List BusCall) → offset < 256
      → copy_at offset
          (buffer (bus.received h (read_call address (0xA1 ∷ offset % 256 ∷ []) next)) 0 next)
          (buffer memory 0 offset ++ rest)
        ≡ buffer memory 0 (offset + next) ++ drop next rest
  copied memory a offset next rest h k =
      let got =
        buffer (bus.received h (read_call address (0xA1 ∷ offset % 256 ∷ []) next)) 0 next in
      let small : offset % 256 ≡ offset = omega arith in
      let start : offset + 0 ≡ offset = omega arith in
      let block : got ≡ buffer memory offset next =
        buffer_shift _ memory 0 offset
          (λ i. a.answers h (offset % 256) next i ∙ ap (λ o. memory (o + i)) small) next
        ∙ ap (λ o. buffer memory o next) start in
      let joined : buffer memory 0 offset ++ buffer memory offset next
          ≡ buffer memory 0 (offset + next) =
        ap (λ o. buffer memory 0 offset ++ buffer memory o next) (omega arith)
        ∙ buffer-append memory 0 offset next in
      copy_at-append (buffer memory 0 offset) got rest offset (length-buffer memory 0 offset)
      ∙ ap (λ n. (buffer memory 0 offset ++ got) ++ drop n rest) (length-buffer _ 0 next)
      ∙ ap (λ bs. (buffer memory 0 offset ++ bs) ++ drop next rest) block
      ∙ ap (λ bs. bs ++ drop next rest) joined

  read_blocks-Answers :
      {D : Type 0} (memory : ℕ → ℕ)
      → Answers memory
      → (fuel remaining offset : ℕ) (rest : List ℕ) (w : HalWorld D) → remaining < fuel
      → offset + remaining ≤ 256
      → length rest ≡ remaining
      → read_blocks bus address fuel remaining offset (buffer memory 0 offset ++ rest) w ≡ (
        (some true, buffer memory 0 (offset + remaining)),
        record w { history = read_calls fuel remaining offset w.history },
      )
  unfolding read_blocks get_variable i2c_read
  read_blocks-Answers memory a zero remaining offset rest w h k l = absurd (omega arith)
  read_blocks-Answers memory a (suc fuel) remaining offset rest w h k l =
      elim (Bool-cases (remaining == 0)) [
        | inl none_left ↦
            let empty : rest ≡ [] = nil_of_length rest (l ∙ ==→eq remaining 0 none_left) in
            let all : offset + remaining ≡ offset = omega (arith, ==→eq remaining 0 none_left) in
            rw (none_left, empty, all, append-nil (buffer memory 0 offset)) refl
        | inr some_left ↦
            let next = next_bytes remaining in
            let bounds = next_bytes_bounds remaining some_left in
            let all : (offset + next) + (remaining - next) ≡ offset + remaining =
              omega (arith, bounds) in
            let next_read =
              read_blocks-Answers memory a fuel (remaining - next) (offset + next) (drop next rest)
                (record w {
                  history = read_call address (0xA1 ∷ offset % 256 ∷ []) next ∷ w.history;
                })
                (omega (arith, bounds)) (omega (arith, bounds))
                (omega (arith, bounds, length-drop next rest)) in
            rw
              (
                some_left,
                a.goes_through w.history (offset % 256) (next_bytes remaining),
                copied memory a offset next rest w.history (omega (arith, bounds)),
                next_read,
                all,
              )
              refl
      ]

  -- `getState` reads the first 42 bytes of the memory, whatever stood in the struct, in three
  -- transfers.
  pub get_state-Answers :
      {D : Type 0} (memory : ℕ → ℕ)
      → Answers memory
      → (initial : List ℕ) (w : HalWorld D) → length initial ≡ state_size
      → let block : ℕ → ℕ → BusCall = λ offset size. read_call address (0xA1 ∷ offset ∷ []) size in
        get_state bus address initial w ≡ (
          (true, buffer memory 0 state_size),
          record w { history = block 30 12 ∷ block 15 15 ∷ block 0 15 ∷ w.history },
        )
  unfolding get_state next_bytes
  get_state-Answers memory a initial w h =
      rw (read_blocks-Answers memory a 43 42 0 initial w (omega arith) (omega arith) h) refl

module _ (bus : Bus) (address : ℕ) where
  length-read_blocks :
      {D : Type 0} (fuel remaining offset : ℕ) (memory : List ℕ) (w : HalWorld D)
      → offset + remaining ≡ length memory
      → length (read_blocks bus address fuel remaining offset memory w).0.1 ≡ length memory
  unfolding read_blocks get_variable i2c_read
  length-read_blocks zero remaining offset memory w h = refl
  length-read_blocks (suc fuel) remaining offset memory w h = elim (Bool-cases (remaining == 0)) [
    | inl none_left ↦ rw none_left refl
    | inr some_left ↦
        let next = next_bytes remaining in
        let bounds = next_bytes_bounds remaining some_left in
        let (answer, w1) = get_variable bus address (offset % 256) next w in
        let copied = length-copy_at offset answer.1 memory (
          omega (
            arith,
            bounds,
            length-buffer
                (bus.received w.history (read_call address (0xA1 ∷ offset % 256 ∷ []) next)) 0 next,
          )) in
        elim (Bool-cases answer.0) [
          | inl hit ↦
              rw (some_left, hit)
                (length-read_blocks fuel (remaining - next) (offset + next)
                    (copy_at offset answer.1 memory) w1 (omega (arith, bounds, copied))
                  ∙ copied)
          | inr miss ↦ rw (some_left, miss) refl
        ]
  ]

  -- The struct keeps its size.
  pub length-get_state :
      {D : Type 0} (memory : List ℕ) (w : HalWorld D)
      → length memory ≡ state_size
      → length (get_state bus address memory w).0.1 ≡ state_size
  unfolding get_state
  length-get_state memory w h = length-read_blocks 43 42 0 memory w (omega (arith, h)) ∙ h

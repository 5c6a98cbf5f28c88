-- ===== src/Motor/Speed.antt =====
-- The speed arithmetic of MotorService.
use sugo_machine_application.Prelude.{ap, some, refl, ◌^◌, ◌-◌, ◌+◌, ◌≤◌, ◌<◌, ℕ, ◌≡◌, ◌∷◌, arith}
use sugo_machine_application.Prelude.Int.{
  ℤ, pos, negsuc, ◌+ℤ◌, ◌≤ℤ◌, clamp, clamp_bounds, int_laws, eq_of_parts,
}
use sugo_machine_application.Framework.World.{World, Environment, called, motor_set_speed}
use sugo_machine_application.Motor.Diagram.{Event}
use sugo_machine_application.Framework.Message.{Message, given, nothing, create_success_response}
use sugo_machine_application.Motor.{
  on_request_set_motor_speed, Fields, WithinMax, resulting_speed, limit_speed, shift_offset,
  set_motor_speed, to_unsigned, add_motor_offset_speed,
}

-- After a shift the speed is the wanted one, cut off at 0 and at the maximum.
resulting_speed-shift_offset :
    (d : ℤ) (f : Fields)
    → resulting_speed (shift_offset d f)
      ≡ clamp (resulting_speed f +ℤ d) (pos 0) (pos f.max_motor_speed)
unfolding resulting_speed shift_offset
resulting_speed-shift_offset d f = eq_of_parts _ _ (omega int_laws)

to_unsigned_pos : (z : ℤ) (n : ℕ) → pos 0 ≤ℤ z → z ≤ℤ pos n → to_unsigned z ≤ n
to_unsigned_pos (pos k) n h k' = omega arith
to_unsigned_pos (negsuc k) n h k' = absurd (omega arith)

limit_speed_exceeds :
    (speed k : ℕ) (f : Fields)
    → f.motor_offset_speed ≡ pos k
    → 0 < k
    → f.max_motor_speed ≤ speed
    → ¬ WithinMax (limit_speed speed f)
unfolding limit_speed resulting_speed ◌+ℤ◌
limit_speed_exceeds speed k f e h l = ground arith

limit_speed-WithinMax :
    (speed : ℕ) (f : Fields) → f.motor_offset_speed ≤ℤ pos 0 → WithinMax (limit_speed speed f)
unfolding limit_speed resulting_speed ◌+ℤ◌
limit_speed-WithinMax speed f h = ground arith

limit_speed_wraps :
    (speed k : ℕ) (f : Fields)
    → f.motor_offset_speed ≡ negsuc k
    → k < 2 ^ 32
    → speed ≤ k
    → speed ≤ f.max_motor_speed
    → to_unsigned (resulting_speed (limit_speed speed f)) ≡ 2 ^ 32 - (k + 1 - speed)
unfolding limit_speed resulting_speed ◌+ℤ◌
limit_speed_wraps speed k f e bound below within = ground arith

module _ (env : Environment) where
  -- Whatever the offset was before, a shift of the offset leaves a speed between 0 and the
  -- maximum, which is the wanted speed cut off at these bounds, keeps the set speed, and the speed
  -- that the motor is given is within the maximum.
  pub add_motor_offset_speed_bounds :
      (d : ℤ) (w : World Fields Event)
      → let w' = (add_motor_offset_speed env d w).1 in
        (resulting_speed w'.fields
          ≡ clamp (resulting_speed w.fields +ℤ d) (pos 0) (pos w.fields.max_motor_speed))
        × (pos 0 ≤ℤ resulting_speed w'.fields)
        × WithinMax w'.fields
        × (w'.fields.motor_speed ≡ w.fields.motor_speed)
        × ((n : ℕ) × (w'.history ≡ called (motor_set_speed n) ∷ w.history)
            × (n ≤ w.fields.max_motor_speed))
  unfolding add_motor_offset_speed
  add_motor_offset_speed_bounds d w = (
    shifted,
    rw shifted bounds.0,
    rw shifted bounds.1,
    refl,
    (
      to_unsigned (resulting_speed (shift_offset d w.fields)),
      refl,
      to_unsigned_pos (resulting_speed (shift_offset d w.fields)) _ (rw shifted bounds.0)
          (rw shifted bounds.1),
    ),
  )
    where
      shifted :
          resulting_speed (shift_offset d w.fields)
          ≡ clamp (resulting_speed w.fields +ℤ d) (pos 0) (pos w.fields.max_motor_speed)
      shifted = resulting_speed-shift_offset d w.fields

      bounds :
          (pos 0 ≤ℤ clamp (resulting_speed w.fields +ℤ d) (pos 0) (pos w.fields.max_motor_speed))
          × (clamp (resulting_speed w.fields +ℤ d) (pos 0) (pos w.fields.max_motor_speed)
              ≤ℤ pos w.fields.max_motor_speed)
      bounds = clamp_bounds _ _ _ (omega arith)

  -- If the offset is above zero and the requested speed is at least the maximum, then after setting
  -- the speed what `setMotorSpeed()` asserts is false: the sum of speed and offset exceeds the
  -- maximum.
  pub set_motor_speed_exceeds :
      (speed k : ℕ) (w : World Fields Event)
      → w.fields.motor_offset_speed ≡ pos k
      → 0 < k
      → w.fields.max_motor_speed ≤ speed
      → ¬ WithinMax (set_motor_speed env speed w).1.fields
  unfolding set_motor_speed
  set_motor_speed_exceeds speed k w e h l = limit_speed_exceeds speed k w.fields e h l

  -- If the offset is zero or below, then after setting any speed what `setMotorSpeed()` asserts is
  -- true: the sum of speed and offset is within the maximum.
  pub set_motor_speed-WithinMax :
      (speed : ℕ) (w : World Fields Event)
      → w.fields.motor_offset_speed ≤ℤ pos 0
      → WithinMax (set_motor_speed env speed w).1.fields
  unfolding set_motor_speed
  set_motor_speed-WithinMax speed w h = limit_speed-WithinMax speed w.fields h

  -- If the offset is -(k + 1), within 32 bits, and the requested speed is at most k and at most the
  -- maximum, then the sum is negative and the motor is given its wrap-around in 32 bits, 2 ^ 32 less
  -- what is missing to zero; the request is answered with success all the same.
  pub on_request_set_motor_speed_wraps :
      (request : Message) (speed k : ℕ) (w : World Fields Event)
      → w.fields.motor_offset_speed ≡ negsuc k
      → k < 2 ^ 32
      → speed ≤ k
      → speed ≤ w.fields.max_motor_speed
      → let (answer, w') = on_request_set_motor_speed env request (given speed) w in
        (answer ≡ some (create_success_response request nothing))
        × (w'.history ≡ called (motor_set_speed (2 ^ 32 - (k + 1 - speed))) ∷ w.history)
  unfolding on_request_set_motor_speed
  on_request_set_motor_speed_wraps request speed k w e bound below within = (
    refl,
    ap (λ n. called (motor_set_speed n) ∷ w.history)
        (limit_speed_wraps speed k w.fields e bound below within),
  )

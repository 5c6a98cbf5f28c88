-- ===== src/Common/Timer.antt =====
-- The periodic timer: GenericTimer (libs/Common/include/Common/Timer.hpp). Times are those of the
-- clock, in nanoseconds; the period is in milliseconds. The thread of the timer is a sequence of
-- rounds; of each the time at its begin and whether the timer is still to run after the wait are up
-- to the scheduler and to the caller of `stop`.
use sugo_machine_application.Prelude.{
  ℕ, ◌+◌, ◌-◌, ◌*◌, ◌/◌, ◌≤◌, ◌<◌, ◌≡◌, ◌⊎◌, inl, inr, refl, Bool, true, false, ltb, if◌then◌else◌,
  List, [], ◌∷◌, arith, Bool-cases,
}

pub record Timer : Type 0 where
  pub next_wake_up_time : ℕ
  pub do_run : Bool
  pub calls : ℕ

abbrev nanoseconds : ℕ → ℕ
nanoseconds milliseconds = milliseconds * 1000000

-- `start`, at a time.
unfoldable pub start : ℕ → ℕ → Timer
start period now = record { next_wake_up_time = now + nanoseconds period; do_run = true; calls = 0 }

-- A wake-up time that has passed is moved on by whole periods.
unfoldable pub resync : ℕ → ℕ → ℕ → ℕ
resync period now next =
    if ltb next now then next + ((now - next) / 1000000 / period + 1) * nanoseconds period else next

-- A round of the thread: the handler is called if the timer is still to run after the wait.
unfoldable pub round : ℕ → ℕ × Bool → Timer → Timer
unfolding resync
round period (now, runs) t =
    if t.do_run
    then record {
      next_wake_up_time = resync period now t.next_wake_up_time + nanoseconds period;
      do_run = runs;
      calls = if runs then t.calls + 1 else t.calls;
    }
    else t

unfoldable pub run : ℕ → List (ℕ × Bool) → Timer → Timer
unfolding round
run period [] t = t
run period (input ∷ inputs) t = run period inputs (round period input t)

quotient_bounds : (q p : ℕ) → 0 < p → (q / p * p ≤ q) × (q < (q / p + 1) * p)
quotient_bounds q p h = (grind arith, grind arith)

-- The whole periods that a delay is made up for, in nanoseconds.
periods_bounds :
    (d p : ℕ)
    → 0 < p
    → (d ≤ (d / 1000000 / p + 1) * nanoseconds p)
      × ((d / 1000000 / p + 1) * nanoseconds p ≤ d + nanoseconds p)
periods_bounds d p h =
    let q = d / 1000000 in
    let k = q / p in
    let b = quotient_bounds q p h in
    let e : (k + 1) * nanoseconds p ≡ (k + 1) * p * 1000000 = grind arith in
    let e' : (k + 1) * p ≡ k * p + p = grind arith in
    (omega (arith, e, e', b), omega (arith, e, e', b))

-- What the thread asserts after the resynchronisation, and that the wake-up time is moved no further
-- than a period ahead.
pub resync_bounds :
    (period now next : ℕ)
    → 0 < period
    → (now ≤ resync period now next)
      × ((resync period now next ≡ next) ⊎ (resync period now next ≤ now + nanoseconds period))
unfolding resync
resync_bounds period now next h = elim (Bool-cases (ltb next now)) [
  | inl late ↦
      let b = periods_bounds (now - next) period h in
      let later : next < now = ground arith in
      rw late (omega (arith, b, later), inr (omega (arith, b, later)))
  | inr early ↦ rw early (ground arith, inl refl)
]

-- The wake-up time is a whole number of periods after the start, more than the handler's calls.
record OnGrid (period started : ℕ) (t : Timer) : Type 0 where
  periods : ℕ
  aligned : t.next_wake_up_time ≡ started + periods * nanoseconds period
  enough : t.calls < periods

resync_grid :
    (period started now next k : ℕ)
    → next ≡ started + k * nanoseconds period
    → (k' : ℕ) × (resync period now next ≡ started + k' * nanoseconds period) × (k ≤ k')
unfolding resync
resync_grid period started now next k e = elim (Bool-cases (ltb next now)) [
  | inl late ↦
      let j = (now - next) / 1000000 / period + 1 in rw late (k + j, grind (arith, e), omega arith)
  | inr early ↦ rw early (k, e, omega arith)
]

round-OnGrid :
    (period started : ℕ) (input : ℕ × Bool) (t : Timer)
    → OnGrid period started t
    → OnGrid period started (round period input t)
unfolding round
round-OnGrid period started (now, runs) t g = go t.do_run runs
  where
    go :
        (d r : Bool)
        → OnGrid period started (
            if d
            then record {
              next_wake_up_time = resync period now t.next_wake_up_time + nanoseconds period;
              do_run = r;
              calls = if r then t.calls + 1 else t.calls;
            }
            else t)
    go false r = g
    go true r =
        let (k, e, le) = resync_grid period started now t.next_wake_up_time g.periods g.aligned in
        record { periods = k + 1; aligned = grind (arith, e); enough = fewer r k le }
      where
        fewer : (b : Bool) (k : ℕ) → g.periods ≤ k → (if b then t.calls + 1 else t.calls) < k + 1
        fewer true k le = omega (arith, g.enough)
        fewer false k le = omega (arith, g.enough)

run-OnGrid :
    (period started : ℕ) (inputs : List (ℕ × Bool)) (t : Timer)
    → OnGrid period started t
    → OnGrid period started (run period inputs t)
unfolding run
run-OnGrid period started [] t g = g
run-OnGrid period started (input ∷ inputs) t g =
    run-OnGrid period started inputs (round period input t) (round-OnGrid period started input t g)

-- However late the rounds of the thread begin, the wake-up time of a timer stays a whole number of
-- periods after its start, and this number is greater than that of the handler's calls.
pub run_periods :
    (period started : ℕ) (inputs : List (ℕ × Bool))
    → let t = run period inputs (start period started) in
      (k : ℕ) × (t.next_wake_up_time ≡ started + k * nanoseconds period) × (t.calls < k)
unfolding start
run_periods period started inputs =
    let g =
      run-OnGrid period started inputs (start period started)
        (record { periods = 1; aligned = omega arith; enough = omega arith }) in
    (g.periods, g.aligned, g.enough)

-- ===== src/Hal/Tic/Buffers.antt =====
-- The buffers of TicController::getState (libs/HardwareAbstractionLayerImpl/Rpi/src/TicController.cpp)
-- and what a copy of one into the struct does.
use sugo_machine_application.Prelude.{
  ℕ, zero, suc, ◌+◌, ◌%◌, ◌≤◌, ◌<◌, ◌≡◌, refl, ap, ◌∙◌, true, false, ◌==◌, List, [], ◌∷◌, ◌++◌,
  append_assoc, arith, length, take, drop, take-append, drop-append, length-drop, length-take,
  length-append,
}
use sugo_machine_application.Hal.Bus.{buffer}
use sugo_machine_application.Hal.Tic.{copy_at, next_bytes}

pub length-buffer : (f : ℕ → ℕ) (s n : ℕ) → length (buffer f s n) ≡ n
unfolding buffer
length-buffer f s zero = refl
length-buffer f s (suc n) = omega (arith, length-buffer f (s + 1) n)

pub buffer-append :
    (f : ℕ → ℕ) (s a b : ℕ) → buffer f s a ++ buffer f (s + a) b ≡ buffer f s (a + b)
unfolding buffer
buffer-append f s zero b =
    let e : s + 0 ≡ s = omega arith in
    let e' : b ≡ 0 + b = omega arith in ap (λ k. buffer f k b) e ∙ ap (λ k. buffer f s k) e'
buffer-append f s (suc a) b =
    let e : s + suc a ≡ (s + 1) + a = omega arith in
    let t = buffer-append f (s + 1) a b in
    let e' : suc a + b ≡ suc (a + b) = omega arith in rw (e, e') (ap (λ zs. f s % 256 ∷ zs) t)

pub buffer_shift :
    (f g : ℕ → ℕ) (s o : ℕ)
    → ((i : ℕ) → f i ≡ g (o + i))
    → (n : ℕ) → buffer f s n ≡ buffer g (o + s) n
unfolding buffer
buffer_shift f g s o h zero = refl
buffer_shift f g s o h (suc n) =
    let e : o + (s + 1) ≡ o + s + 1 = omega arith in
    let t = buffer_shift f g (s + 1) o h n in rw (h s, t, e) refl

pub nil_of_length : (xs : List ℕ) → length xs ≡ 0 → xs ≡ []
nil_of_length [] h = refl
nil_of_length (x ∷ xs) h = absurd (omega arith)

pub ==→eq : (a b : ℕ) → (a == b) ≡ true → a ≡ b
==→eq a b h = ground arith

-- A copy behind the part already filled.
pub copy_at-append :
    (done bytes rest : List ℕ) (n : ℕ)
    → length done ≡ n
    → copy_at n bytes (done ++ rest) ≡ (done ++ bytes) ++ drop (length bytes) rest
unfolding copy_at
copy_at-append done bytes rest n h =
    rw (take-append done rest n h, drop-append done rest n (length bytes) h, append_assoc) refl

pub next_bytes_bounds :
    (remaining : ℕ)
    → (remaining == 0) ≡ false
    → (next_bytes remaining ≤ remaining) × (0 < next_bytes remaining)
unfolding next_bytes
next_bytes_bounds remaining h = ground arith

pub length-copy_at :
    (offset : ℕ) (bytes memory : List ℕ)
    → offset + length bytes ≤ length memory
    → length (copy_at offset bytes memory) ≡ length memory
unfolding copy_at
length-copy_at offset bytes memory h =
    let rest = drop (offset + length bytes) memory in
    length-append (take offset memory ++ bytes) rest
    ∙ omega (
      arith,
      length-append (take offset memory) bytes,
      length-take offset memory (omega arith),
      length-drop (offset + length bytes) memory,
    )

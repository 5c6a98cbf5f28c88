-- ===== src/ServiceGateway/Numeral.antt =====
-- The number that std::atoi reads at the beginning of a method's name
-- (libs/ServiceGateway/src/ServiceGateway.cpp).
use sugo_machine_application.Prelude.{
  ℕ, ◌+◌, ◌-◌, ◌*◌, ◌^◌, ◌≤◌, ◌≡◌, refl, ap, ◌∙◌, true, false, ◌&&◌, leb, ◌==◌, [], ◌∷◌, ◌++◌,
  length, All, arith,
}
use sugo_machine_application.Prelude.Int.{pos}
use sugo_machine_application.ServiceGateway.Tokenizer.{Bytes}
use sugo_machine_application.ServiceGateway.{is_space, digits, signed, atoi}
use native.Mathlib.Omega.{pow_step}

abbrev pub IsDigit : ℕ → Type 0
IsDigit c = (48 ≤ c) × (c ≤ 57)

-- The value of a numeral, by the places of its digits.
unfoldable pub number : Bytes → ℕ
number [] = 0
number (c ∷ cs) = (c - 48) * 10 ^ length cs + number cs

-- A text that no digit begins.
abbrev pub NoDigitFirst : Bytes → Type 0
NoDigitFirst [] = Unit
NoDigitFirst (c ∷ cs) = (leb 48 c && leb c 57) ≡ false

shifted : (v d p : ℕ) → (v * 10 + d) * p ≡ v * (10 * p) + d * p
shifted v d p = grind arith

digits-number :
    (value : ℕ) (cs rest : Bytes)
    → All IsDigit cs
    → NoDigitFirst rest
    → digits value (cs ++ rest) ≡ value * 10 ^ length cs + number cs
unfolding digits number
digits-number value [] [] d n = omega arith
digits-number value [] (c ∷ rest) d n = ground arith
digits-number value (c ∷ cs) rest (d, ds) n =
    let tail = digits-number (value * 10 + (c - 48)) cs rest ds n in
    let p = pow_step 10 (length cs) in
    let s = shifted value (c - 48) (10 ^ length cs) in
    let q = ap (λ x. value * x) p in
    let yes_digit : (leb 48 c && leb c 57) ≡ true = ground arith in
    rw yes_digit (tail ∙ omega (arith, s, q))

pub atoi-number :
    (c : ℕ) (cs rest : Bytes)
    → All IsDigit (c ∷ cs)
    → NoDigitFirst rest
    → atoi ((c ∷ cs) ++ rest) ≡ pos (number (c ∷ cs))
unfolding atoi signed
atoi-number c cs rest (d, ds) n =
    signed_digits (ground arith) (ground arith) (ground arith)
    ∙ ap pos (digits-number 0 (c ∷ cs) rest (d, ds) n ∙ omega arith)
  where
    signed_digits :
        is_space c ≡ false
        → (c == 45) ≡ false
        → (c == 43) ≡ false
        → atoi ((c ∷ cs) ++ rest) ≡ pos (digits 0 ((c ∷ cs) ++ rest))
    signed_digits space minus plus = rw (space, minus, plus) refl

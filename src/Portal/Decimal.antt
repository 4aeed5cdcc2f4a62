-- ===== src/Portal/Decimal.antt =====
-- `std::stringstream << int64_t`: the digits of a number, and the sign.
use native.Mathlib.Nat.{pow-suc}
use dbms.Prelude.{
  ℕ, zero, suc, ◌+◌, ◌-◌, ◌*◌, ◌/◌, ◌%◌, ◌^◌, ◌<◌, ◌≡◌, ap, ◌∙◌, [], ◌∷◌, Bytes, arith, ltb,
  Bool-cases, inl, inr, if◌then◌else◌,
}

digits : ℕ → ℕ → Bytes → Bytes
digits zero n tail = tail
digits (suc fuel) n tail =
    let more = digits fuel (n / 10) ((48 + n % 10) ∷ tail) in
    if ltb n 10 then (48 + n) ∷ tail else more

-- Twenty digits are enough for sixty-four bits.
unfoldable pub decimal : ℕ → Bytes
unfolding digits
decimal n = digits 20 n []

-- `n` is the bit pattern of the number.
unfoldable pub print_int64 : ℕ → Bytes
unfolding decimal
print_int64 n = if ltb n (2 ^ 63) then decimal n else b'-' ∷ decimal (2 ^ 64 - n)

-- the number that a run of digits stands for, after `acc`
unfoldable pub parse_digits : ℕ → Bytes → ℕ
parse_digits acc [] = acc
parse_digits acc (c ∷ rest) = parse_digits (acc * 10 + (c - 48)) rest

parse_digits-digits :
    (fuel n : ℕ) (tail : Bytes)
    → n < 10 ^ fuel
    → parse_digits 0 (digits fuel n tail) ≡ parse_digits n tail
unfolding digits parse_digits
parse_digits-digits zero n tail h = let e : n ≡ 0 = omega arith in rw e
parse_digits-digits (suc fuel) n tail h = elim (Bool-cases (ltb n 10)) [
  | inl small ↦ rw small (ap (λ k. parse_digits k tail) (omega arith))
  | inr large ↦
      let bound : n < 10 ^ fuel * 10 = rw (← pow-suc) h in
      rw large (
        parse_digits-digits fuel (n / 10) ((48 + n % 10) ∷ tail) (omega arith)
        ∙ ap (λ k. parse_digits k tail) (omega arith))
]

-- A number below 10 ^ 20 is read back from its digits.
pub parse_digits-decimal : (n : ℕ) → n < 10 ^ 20 → parse_digits 0 (decimal n) ≡ n
unfolding decimal parse_digits
parse_digits-decimal n h = parse_digits-digits 20 n [] h

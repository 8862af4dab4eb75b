-- ===== src/Envelope/Itoa.antt =====
-- itoa of proxy/errorenvelope.go, which writes the Content-Length.
use slimproxy.Base.{
  ℕ, zero, suc, ◌+◌, ◌-◌, ◌*◌, ◌/◌, ◌%◌, ◌<◌, ◌≡◌, sym, ap, ◌∙◌, [], ◌∷◌, ltb, ◌==◌, arith,
  Bool-cases, inl, inr,
}
use slimproxy.Text.{Text}
use slimproxy.Envelope.Writer.{itoa, itoa_loop}

-- The number that decimal digits stand for, after the number `a`.
abbrev pub value_from : ℕ → Text → ℕ
value_from a [] = a
value_from a (c ∷ s) = value_from (10 * a + (c - b'0')) s

abbrev pub power : ℕ → ℕ
power zero = 1
power (suc room) = 10 * power room

last_digit : (n : ℕ) → 10 * (n / 10) + ((b'0' + n % 10) - b'0') ≡ n
last_digit n = omega arith

itoa_loop-value :
    (room n : ℕ) (acc : Text)
    → n < power room
    → value_from 0 (itoa_loop room n acc) ≡ value_from n acc
unfolding itoa_loop
itoa_loop-value zero n acc h =
    let none_left : n ≡ 0 = omega (arith, h) in ap (λ a. value_from a acc) (sym none_left)
itoa_loop-value (suc room) n acc h = elim (Bool-cases (ltb 0 n)) [
  | inl more ↦
      let less : n / 10 < power room = omega (arith, h) in
      rw more (
        itoa_loop-value room (n / 10) ((b'0' + n % 10) ∷ acc) less
        ∙ ap (λ a. value_from a acc) (last_digit n))
  | inr done ↦
      let none_left : n ≡ 0 = ground (arith, done) in
      rw done (ap (λ a. value_from a acc) (sym none_left))
]

-- The digits of a number that fits the 20 bytes of itoa's array, as every int does, read back as the
-- number.
pub itoa-value : (n : ℕ) → n < power 20 → value_from 0 (itoa n) ≡ n
unfolding itoa
itoa-value n h = elim (Bool-cases (n == 0)) [
  | inl none_left ↦ rw none_left (ground (arith, none_left))
  | inr some_left ↦ rw some_left (itoa_loop-value 20 n [] h)
]

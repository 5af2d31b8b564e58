-- ===== src/Utils/Format.antt =====
-- The verbs `%x` and `%d` of Go's `fmt`, at the integers that the program prints.
use onos_mho.Base.{
  ℕ_discrete, ℕ, zero, suc, ◌+◌, ◌-◌, ◌*◌, ◌/◌, ◌%◌, ◌≤◌, ◌<◌, ◌≡◌, ◌≢◌, ap, sym, ◌∙◌, Text, ltb,
  if◌then◌else◌, ltb→lt, subst, cons_tail, Bool-cases, [], ◌∷◌, inl, inr, All, arith,
}

-- An `int64`: `negsuc n` is -(n + 1).
pub data ℤ : Type 0 where
  pos : ℕ → ℤ
  negsuc : ℕ → ℤ

unfoldable pub ℤ-discrete : Discrete ℤ
unfolding ℕ_discrete
ℤ-discrete = hlevel ℕ_discrete

-- The digit of a value below 16.
unfoldable pub digit : ℕ → ℕ
digit d = if ltb d 10 then b'0' + d else b'a' + (d - 10)

-- The digits of `n` in front of `acc`, the most significant first.
unfoldable pub digits : ℕ → ℕ → ℕ → Text → Text
unfolding digit
digits base zero n acc = acc
digits base (suc fuel) n acc =
    let more = digits base fuel (n / base) (digit (n % base) ∷ acc) in
    if ltb n base then digit n ∷ acc else more

-- `%x` and `%d` of an unsigned number: `n + 1` rounds are more than its digits.
unfoldable pub hex : ℕ → Text
unfolding digits
hex n = digits 16 (suc n) n []

unfoldable pub decimal : ℕ → Text
unfolding digits
decimal n = digits 10 (suc n) n []

-- Of a signed one: a minus sign and the absolute value.
unfoldable pub hex_int : ℤ → Text
unfolding hex
hex_int (pos n) = hex n
hex_int (negsuc n) = b'-' ∷ hex (suc n)

unfoldable pub decimal_int : ℤ → Text
unfolding decimal
decimal_int (pos n) = decimal n
decimal_int (negsuc n) = b'-' ∷ decimal (suc n)

-- The value of a digit, and of digits that follow the value `acc`.
undigit : ℕ → ℕ
undigit c = if ltb c b'a' then c - b'0' else c - b'a' + 10

undigits : ℕ → ℕ → Text → ℕ
undigits base acc [] = acc
undigits base acc (c ∷ cs) = undigits base (acc * base + undigit c) cs

undigit-digit : (d : ℕ) → d < 16 → undigit (digit d) ≡ d
unfolding undigit digit
undigit-digit d h = ground arith

-- Base 16 and 10; the quotient falls, so the fuel `n + 1` is enough.
undigits-hex :
    (fuel n : ℕ) (acc : Text) → n < fuel → undigits 16 0 (digits 16 fuel n acc) ≡ undigits 16 n acc
unfolding undigits digits
undigits-hex zero n acc h = absurd (omega arith)
undigits-hex (suc fuel) n acc h = elim (Bool-cases (ltb n 16)) [
  | inl small ↦
      rw small (ap (λ v. undigits 16 v acc) (omega (arith, undigit-digit n (ltb→lt n 16 small))))
  | inr large ↦ rw large (
      undigits-hex fuel (n / 16) (digit (n % 16) ∷ acc) (ground arith)
      ∙ ap (λ v. undigits 16 v acc) (omega (arith, undigit-digit (n % 16) (omega arith))))
]

-- Different numbers have different hexadecimal digits.
pub hex-injective : (m n : ℕ) → hex m ≡ hex n → m ≡ n
unfolding hex undigits
hex-injective m n e =
    sym (undigits-hex (suc m) m [] (omega arith))
    ∙ ap (undigits 16 0) e
    ∙ undigits-hex (suc n) n [] (omega arith)

-- No digit is a minus sign or a slash.
digit-ge : (d : ℕ) → 48 ≤ digit d
unfolding digit
digit-ge d = ground arith

digits-All :
    (base fuel n : ℕ) (acc : Text)
    → All (λ c. 48 ≤ c) acc
    → All (λ c. 48 ≤ c) (digits base fuel n acc)
unfolding digits
digits-All base zero n acc h = h
digits-All base (suc fuel) n acc h = elim (Bool-cases (ltb n base)) [
  | inl small ↦ rw small (digit-ge n, h)
  | inr large ↦
      rw large (digits-All base fuel (n / base) (digit (n % base) ∷ acc) (digit-ge (n % base), h))
]

pub hex-All : (n : ℕ) → All (λ c. 48 ≤ c) (hex n)
unfolding hex
hex-All n = digits-All 16 (suc n) n [] tt

hex-minus : (n : ℕ) (t : Text) → hex n ≢ b'-' ∷ t
hex-minus n t e = absurd (omega (arith, (subst (All (λ c. 48 ≤ c)) e (hex-All n)).0))

pub hex_int-injective : (a b : ℤ) → hex_int a ≡ hex_int b → a ≡ b
unfolding hex_int
hex_int-injective (pos m) (pos n) e = ap pos (hex-injective m n e)
hex_int-injective (pos m) (negsuc n) e = absurd (hex-minus m _ e)
hex_int-injective (negsuc m) (pos n) e = absurd (hex-minus n _ (sym e))
hex_int-injective (negsuc m) (negsuc n) e =
    ap negsuc (omega (arith, hex-injective (suc m) (suc n) (cons_tail e)))

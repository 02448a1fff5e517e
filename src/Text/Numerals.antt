-- ===== src/Text/Numerals.antt =====
-- `str(n)` and `int(s)`. `int` strips the text, takes a sign, and allows single underscores between
-- digits; the digits are the ASCII ones.
use checkin_service.Base.{
  ℕ, zero, suc, ◌+◌, ◌-◌, ◌*◌, ◌/◌, ◌%◌, ◌<◌, ◌≡◌, ◌≢◌, ◌∙◌, refl, Bool, true, false, ◌&&◌, ◌||◌,
  Option, none, some, [], ◌∷◌, All, arith, leb, ◌==◌, if◌then◌else◌, Bool-cases, inl, inr,
}
use checkin_service.Text.{Text, strip, lstrip, rstrip, is_space}

-- Python's `int`; `negsuc n` is -(n + 1).
pub data ℤ : Type 0 where
  pos : ℕ → ℤ
  negsuc : ℕ → ℤ

abbrev pub is_digit : ℕ → Bool
is_digit c = leb 48 c && leb c 57

unfoldable pub parse_digits : ℕ → Bool → Text → Option ℕ
parse_digits n seen [] = if seen then some n else none
parse_digits n seen (c ∷ s) =
    let rest = parse_digits (if is_digit c then n * 10 + (c - 48) else n) (is_digit c) s in
    if is_digit c || (c == b'_' && seen) then rest else none

abbrev negate : ℕ → ℤ
negate zero = pos 0
negate (suc n) = negsuc n

-- the digits after a sign or after none
unfoldable pub parse_signed : Text → Option ℤ
unfolding parse_digits
parse_signed [] = none
parse_signed (c ∷ s) =
    if c == b'-'
    then (elim (parse_digits 0 false s) [ none ↦ none | some n ↦ some (negate n) ])
    else if c == b'+'
    then (elim (parse_digits 0 false s) [ none ↦ none | some n ↦ some (pos n) ])
    else (elim (parse_digits 0 false (c ∷ s)) [ none ↦ none | some n ↦ some (pos n) ])

unfoldable pub parse_int : Text → Option ℤ
unfolding parse_signed
parse_int s = parse_signed (strip s)

-- The digits of `n` in front of `rest`; the fuel exceeds `n`.
unfoldable pub show_onto : ℕ → ℕ → Text → Text
show_onto zero n rest = rest
show_onto (suc fuel) n rest =
    let d = 48 + n % 10 in
    let more = show_onto fuel (n / 10) (d ∷ rest) in if n / 10 == 0 then d ∷ rest else more

unfoldable pub show_ℕ : ℕ → Text
unfolding show_onto
show_ℕ n = show_onto (suc n) n []

unfoldable pub show_ℤ : ℤ → Text
unfolding show_ℕ
show_ℤ (pos n) = show_ℕ n
show_ℤ (negsuc n) = b'-' ∷ show_ℕ (suc n)

digit_test : (d : ℕ) → d < 10 → is_digit (48 + d) ≡ true
digit_test d h = ground arith

parse_digits-digit :
    (n d : ℕ) (seen : Bool) (rest : Text)
    → d < 10
    → parse_digits n seen ((48 + d) ∷ rest) ≡ parse_digits (n * 10 + d) true rest
unfolding parse_digits
parse_digits-digit n d seen rest h =
    let minus : 48 + d - 48 ≡ d = omega arith in rw (digit_test d h) (rw minus)

parse-show_onto :
    (fuel n : ℕ) (seen : Bool) (rest : Text)
    → n < fuel
    → parse_digits 0 seen (show_onto fuel n rest) ≡ parse_digits n true rest
unfolding show_onto
parse-show_onto zero n seen rest h = elim h [ ]
parse-show_onto (suc fuel) n seen rest h = elim (Bool-cases (n / 10 == 0)) [
  | inl e ↦
      let small : 0 * 10 + n % 10 ≡ n = ground arith in
      rw e (parse_digits-digit 0 (n % 10) seen rest (omega arith) ∙ rw small)
  | inr e ↦
      let whole : n / 10 * 10 + n % 10 ≡ n = omega arith in
      rw e (
        parse-show_onto fuel (n / 10) seen ((48 + n % 10) ∷ rest) (ground arith)
        ∙ (parse_digits-digit (n / 10) (n % 10) true rest (omega arith) ∙ rw whole))
]

-- Every character is a digit, and there is one.
abbrev pub IsNumeral : Text → Type 0
IsNumeral s = All (λ c. is_digit c ≡ true) s × (s ≢ [])

show_onto-IsNumeral :
    (fuel n : ℕ) (rest : Text)
    → n < fuel
    → All (λ c. is_digit c ≡ true) rest
    → IsNumeral (show_onto fuel n rest)
unfolding show_onto
show_onto-IsNumeral zero n rest h a = elim h [ ]
show_onto-IsNumeral (suc fuel) n rest h a = elim (Bool-cases (n / 10 == 0)) [
  | inl e ↦ rw e ((digit_test (n % 10) (omega arith), a), λ q. cc)
  | inr e ↦ rw e (
      show_onto-IsNumeral fuel (n / 10) ((48 + n % 10) ∷ rest) (ground arith)
        (digit_test (n % 10) (omega arith), a))
]

pub show_ℕ-IsNumeral : (n : ℕ) → IsNumeral (show_ℕ n)
unfolding show_ℕ
show_ℕ-IsNumeral n = show_onto-IsNumeral (suc n) n [] (omega arith) tt

digit-not_space : (c : ℕ) → is_digit c ≡ true → is_space c ≡ false
unfolding is_space
digit-not_space c h = ground arith

lstrip-numeral : (t : Text) → All (λ c. is_digit c ≡ true) t → lstrip t ≡ t
unfolding lstrip
lstrip-numeral [] a = refl
lstrip-numeral (c ∷ t) a = rw (digit-not_space c a.0)

rstrip-numeral : (t : Text) → All (λ c. is_digit c ≡ true) t → rstrip t ≡ t
unfolding rstrip
rstrip-numeral [] a = refl
rstrip-numeral (c ∷ t) a = rw (digit-not_space c a.0) (rw (rstrip-numeral t a.1))

strip-numeral : (s : Text) → All (λ c. is_digit c ≡ true) s → strip s ≡ s
unfolding strip
strip-numeral s a = rw (lstrip-numeral s a) (rstrip-numeral s a)

parse_signed-digit :
    (c : ℕ) (s : Text)
    → is_digit c ≡ true
    → parse_signed (c ∷ s)
      ≡ (elim (parse_digits 0 false (c ∷ s)) [ none ↦ none | some n ↦ some (pos n) ])
unfolding parse_signed
parse_signed-digit c s h = ground arith

parse_numeral :
    (s : Text) (n : ℕ) → IsNumeral s → parse_digits 0 false s ≡ some n → parse_int s ≡ some (pos n)
unfolding parse_int
parse_numeral [] n d h = absurd (d.1 refl)
parse_numeral (c ∷ s) n d h = rw (strip-numeral (c ∷ s) d.0) (parse_signed-digit c s d.0.0 ∙ rw h)

-- `int(str(n))` is `n`.
pub parse_int-show_ℕ : (n : ℕ) → parse_int (show_ℕ n) ≡ some (pos n)
unfolding show_ℕ parse_digits
parse_int-show_ℕ n =
    parse_numeral (show_ℕ n) n (show_ℕ-IsNumeral n)
      (parse-show_onto (suc n) n false [] (omega arith))

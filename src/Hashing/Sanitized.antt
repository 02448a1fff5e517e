-- ===== src/Hashing/Sanitized.antt =====
-- What `sanitize_text` lets through.
use mathlib.Core.Path.{subst}
use checkin_service.Base.{
  ℕ, zero, suc, ◌≤◌, ◌≡◌, ◌≢◌, ◌⊎◌, true, false, ◌&&◌, some, [], ◌∷◌, All, All-append, arith, ltb,
  length, if◌then◌else◌, Bool-cases, inl, inr,
}
use checkin_service.Text.{Text, strip, lstrip, rstrip, is_space, is_empty, take}
use checkin_service.Hashing.{is_control, drop_controls, escape_char, escape, sanitize_text}

-- A character that is TAB (9), LF (10), CR (13), or from the space (32) on, but not DEL (127), and none of
-- `"` (34), `'` (39), `<` (60) and `>` (62).
abbrev pub IsHarmlessChar : ℕ → Type 0
IsHarmlessChar c =
    ((c ≡ 9) ⊎ ((c ≡ 10) ⊎ ((c ≡ 13) ⊎ (32 ≤ c))))
    × (c ≢ 127)
    × (c ≢ 34)
    × (c ≢ 39)
    × (c ≢ 60)
    × (c ≢ 62)

abbrev pub IsHarmless : Text → Type 0
IsHarmless s = All IsHarmlessChar s

abbrev HasNoControl : Text → Type 0
HasNoControl s = All (λ c. is_control c ≡ false) s

drop_controls-HasNoControl : (s : Text) → HasNoControl (drop_controls s)
unfolding drop_controls
drop_controls-HasNoControl [] = tt
drop_controls-HasNoControl (c ∷ s) = elim (Bool-cases (is_control c)) [
  | inl e ↦ rw e (drop_controls-HasNoControl s)
  | inr e ↦ rw e (e, drop_controls-HasNoControl s)
]

All-lstrip : (P : ℕ → Type 0) (s : Text) → All P s → All P (lstrip s)
unfolding lstrip
All-lstrip P [] a = tt
All-lstrip P (c ∷ s) a = elim (is_space c) as (λ b. All P (if b then lstrip s else c ∷ s)) [
  | true ↦ All-lstrip P s a.1
  | false ↦ a
]

All-rstrip : (P : ℕ → Type 0) (s : Text) → All P s → All P (rstrip s)
unfolding rstrip
All-rstrip P [] a = tt
All-rstrip P (c ∷ s) a =
    elim (is_space c && is_empty (rstrip s)) as (λ b. All P (if b then [] else c ∷ rstrip s)) [
      | true ↦ tt
      | false ↦ (a.0, All-rstrip P s a.1)
    ]

All-take : (P : ℕ → Type 0) (n : ℕ) (s : Text) → All P s → All P (take n s)
All-take P zero s a = tt
All-take P (suc n) [] a = tt
All-take P (suc n) (c ∷ s) a = (a.0, All-take P n s a.1)

length-take-le : (n : ℕ) (s : Text) → length (take n s) ≤ n
length-take-le zero s = omega arith
length-take-le (suc n) [] = omega arith
length-take-le (suc n) (c ∷ s) = omega (arith, length-take-le n s)

-- The characters that the class of the removal leaves.
kept_char :
    (c : ℕ) → is_control c ≡ false → ((c ≡ 9) ⊎ ((c ≡ 10) ⊎ ((c ≡ 13) ⊎ (32 ≤ c)))) × (c ≢ 127)
unfolding is_control
kept_char c h = (ground arith, ground arith)

escape_char-IsHarmless : (c : ℕ) → is_control c ≡ false → IsHarmless (escape_char c)
unfolding escape_char is_control
escape_char-IsHarmless c h = ground arith

escape-IsHarmless : (s : Text) → HasNoControl s → IsHarmless (escape s)
unfolding escape
escape-IsHarmless [] a = tt
escape-IsHarmless (c ∷ s) a =
    All-append IsHarmlessChar (escape_char c) (escape s) (escape_char-IsHarmless c a.0)
      (escape-IsHarmless s a.1)

cleaned-HasNoControl : (value : Text) → HasNoControl (strip (drop_controls value))
unfolding strip
cleaned-HasNoControl value =
    All-rstrip (λ c. is_control c ≡ false) (lstrip (drop_controls value))
      (All-lstrip (λ c. is_control c ≡ false) (drop_controls value)
        (drop_controls-HasNoControl value))

-- Text that is stored has at most `max_len` characters. Each is TAB, LF, CR or a character from the space
-- on, but not DEL, and none is one of < > " '. (An ampersand may stay, also a bare one where an entity
-- was cut off.)
pub sanitize_text-IsHarmless :
    (value : Text) (max_len : ℕ) (s : Text)
    → sanitize_text (some value) max_len ≡ some s
    → IsHarmless s × (length s ≤ max_len)
unfolding sanitize_text
sanitize_text-IsHarmless value max_len s h =
    let escaped = escape (strip (drop_controls value)) in
    let safe = escape-IsHarmless (strip (drop_controls value)) (cleaned-HasNoControl value) in
    elim (Bool-cases (is_empty (strip (drop_controls value)))) [
      | inl e ↦ absurd (ground arith)
      | inr e ↦ elim (Bool-cases (ltb max_len (length escaped))) [
        | inl long ↦
            let is : take max_len escaped ≡ s = ground arith in
            (
              subst IsHarmless is (All-take IsHarmlessChar max_len escaped safe),
              subst (λ t. length t ≤ max_len) is (length-take-le max_len escaped),
            )
        | inr short ↦
            let is : escaped ≡ s = ground arith in
            (subst IsHarmless is safe, subst (λ t. length t ≤ max_len) is (ground arith))
      ]
    ]

-- ===== src/Text/Splitting.antt =====
-- `split` undoes the joining of parts that do not hold the delimiter.
use checkin_service.Base.{ℕ, ◌≡◌, refl, false, some, [], ◌∷◌, ◌++◌, All, ◌==◌, ==_refl}
use checkin_service.Text.{Text, split, push, after_prefix}

-- The delimiter is not in the text.
abbrev pub IsFreeOf : ℕ → Text → Type 0
IsFreeOf d s = All (λ c. (c == d) ≡ false) s

pub split-free : (d : ℕ) (p : Text) → IsFreeOf d p → split d p ≡ p ∷ []
unfolding split push
split-free d [] a = refl
split-free d (c ∷ p) a = rw a.0 (rw (split-free d p a.1))

pub split-part : (d : ℕ) (p s : Text) → IsFreeOf d p → split d (p ++ d ∷ s) ≡ p ∷ split d s
unfolding split push
split-part d [] s a = rw (==_refl d)
split-part d (c ∷ p) s a = rw a.0 (rw (split-part d p s a.1))

pub after_prefix-append : (p s : Text) → after_prefix p (p ++ s) ≡ some s
unfolding after_prefix
after_prefix-append [] s = refl
after_prefix-append (c ∷ p) s = rw (==_refl c) (after_prefix-append p s)

pub IsFreeOf-append : (d : ℕ) (p s : Text) → IsFreeOf d p → IsFreeOf d s → IsFreeOf d (p ++ s)
IsFreeOf-append d [] s a b = b
IsFreeOf-append d (c ∷ p) s a b = (a.0, IsFreeOf-append d p s a.1 b)

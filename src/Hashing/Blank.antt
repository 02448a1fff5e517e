-- ===== src/Hashing/Blank.antt =====
-- Which texts `sanitize_text` drops.
use checkin_service.Base.{
  ℕ, ◌≡◌, refl, Bool, true, false, ◌&&◌, ◌||◌, none, some, [], ◌∷◌, All, arith, Bool-cases, inl,
  inr, ◌↔◌,
}
use checkin_service.Text.{Text, strip, lstrip, rstrip, is_space, is_empty}
use checkin_service.Hashing.{is_control, drop_controls, sanitize_text}

abbrev pub is_blank_char : ℕ → Bool
is_blank_char c = is_control c || is_space c

abbrev IsSpaces : Text → Type 0
IsSpaces s = All (λ c. is_space c ≡ true) s

is_empty→nil : (s : Text) → is_empty s ≡ true → s ≡ []
is_empty→nil [] h = refl
is_empty→nil (c ∷ s) h = cc

rstrip-nil→spaces : (s : Text) → rstrip s ≡ [] → IsSpaces s
unfolding rstrip
rstrip-nil→spaces [] h = tt
rstrip-nil→spaces (c ∷ s) h = elim (Bool-cases (is_space c && is_empty (rstrip s))) [
  | inl e ↦ (ground arith, rstrip-nil→spaces s (is_empty→nil (rstrip s) (ground arith)))
  | inr e ↦ absurd (ground arith)
]

lstrip-IsSpaces : (s : Text) → IsSpaces (lstrip s) → IsSpaces s
unfolding lstrip
lstrip-IsSpaces [] h = tt
lstrip-IsSpaces (c ∷ s) h = elim (Bool-cases (is_space c)) [
  | inl e ↦ (e, lstrip-IsSpaces s (rw e at h))
  | inr e ↦ rw e at h
]

spaces-lstrip : (s : Text) → IsSpaces s → lstrip s ≡ []
unfolding lstrip
spaces-lstrip [] a = refl
spaces-lstrip (c ∷ s) a = rw a.0 (spaces-lstrip s a.1)

strip-nil : (s : Text) → (strip s ≡ []) ↔ IsSpaces s
unfolding strip
strip-nil s = (λ h. lstrip-IsSpaces s (rstrip-nil→spaces (lstrip s) h), λ a. rw (spaces-lstrip s a))

blank_space : (c : ℕ) → is_control c ≡ false → is_blank_char c ≡ true → is_space c ≡ true
blank_space c e h = ground arith

dropped-IsSpaces : (s : Text) → IsSpaces (drop_controls s) ↔ All (λ c. is_blank_char c ≡ true) s
unfolding drop_controls
dropped-IsSpaces [] = (λ h. tt, λ h. tt)
dropped-IsSpaces (c ∷ s) = elim (Bool-cases (is_control c)) [
  | inl e ↦
      (λ h. (rw e, (dropped-IsSpaces s).0 (rw e at h)), λ h. rw e ((dropped-IsSpaces s).1 h.1))
  | inr e ↦ (
    λ h.
        let h' : IsSpaces (c ∷ drop_controls s) = rw e at h in
        (rw e h'.0, (dropped-IsSpaces s).0 h'.1),
    λ h. rw e (blank_space c e h.0, (dropped-IsSpaces s).1 h.1),
  )
]

-- Exactly the texts of nothing but control characters and white space are dropped.
pub sanitize_text-none_iff :
    (value : Text) (max_len : ℕ)
    → (sanitize_text (some value) max_len ≡ none) ↔ All (λ c. is_blank_char c ≡ true) value
unfolding sanitize_text
sanitize_text-none_iff value max_len =
    let drops = dropped-IsSpaces value in
    let strips = strip-nil (drop_controls value) in
    (
      λ h. drops.0 (strips.0 (is_empty→nil (strip (drop_controls value)) (ground arith))),
      λ a. rw (strips.1 (drops.1 a)),
    )

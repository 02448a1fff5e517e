-- ===== src/Base/Lists.antt =====
-- Lists as tables of rows: the queries and updates that the handlers make, and their laws.
use Prim.Native.Nat.{ℕ, suc, ◌+◌, ◌≤◌}
use mathlib.Core.Path.{◌≡◌, refl, subst}
use mathlib.Core.Bool.{Bool, true, false, ◌||◌}
use mathlib.Core.Option.{Option, none, some}
use mathlib.Core.List.{List, [], ◌∷◌, ◌++◌}
use native.Mathlib.Omega.{arith}
use mathlib.Core.Logic.{inl, inr}
use checkin_service.Base.Bools.{if◌then◌else◌, Bool-cases}

abbrev pub All {ℓ κ} : {A : Type ℓ} → (A → Type κ) → List A → Type κ
All P [] = Unit
All P (x ∷ xs) = P x × All P xs

-- `x` is one of the rows.
pub data In {ℓ} {A : Type ℓ} (x : A) : List A → Type ℓ where
  here : {y : A} {ys : List A} → x ≡ y → In x (y ∷ ys)
  there : {y : A} {ys : List A} → In x ys → In x (y ∷ ys)

module _ {ℓ} {A : Type ℓ} where
  abbrev pub length : List A → ℕ
  length [] = 0
  length (x ∷ xs) = suc (length xs)

  -- `db.query(T).filter(p).first()`
  unfoldable pub first : (A → Bool) → List A → Option A
  first p [] = none
  first p (x ∷ xs) = if p x then some x else first p xs

  unfoldable pub any : (A → Bool) → List A → Bool
  any p [] = false
  any p (x ∷ xs) = p x || any p xs

  -- `func.count(T.id)` under `filter(p)`
  unfoldable pub count_where : (A → Bool) → List A → ℕ
  count_where p [] = 0
  count_where p (x ∷ xs) = (if p x then 1 else 0) + count_where p xs

  -- `db.query(T).filter(p).all()`
  unfoldable pub select : (A → Bool) → List A → List A
  select p [] = []
  select p (x ∷ xs) = let rest = select p xs in if p x then x ∷ rest else rest

  -- assignments to the columns of the rows that satisfy `p`
  unfoldable pub update_where : (A → Bool) → (A → A) → List A → List A
  update_where p f [] = []
  update_where p f (x ∷ xs) = (if p x then f x else x) ∷ update_where p f xs

module _ {ℓ} {A : Type ℓ} where
  pub first-true : (p : A → Bool) (xs : List A) (x : A) → first p xs ≡ some x → p x ≡ true
  unfolding first
  first-true p [] x h = cc
  first-true p (y ∷ xs) x h = ground (arith, first-true p xs x)

  pub first-none : (p : A → Bool) (xs : List A) → first p xs ≡ none → any p xs ≡ false
  unfolding first any
  first-none p [] h = refl
  first-none p (x ∷ xs) h = ground (arith, first-none p xs)

  pub any-first : (p : A → Bool) (xs : List A) → any p xs ≡ false → first p xs ≡ none
  unfolding first any
  any-first p [] h = refl
  any-first p (x ∷ xs) h = ground (arith, any-first p xs)

  pub first-All {κ} :
      (P : A → Type κ) (p : A → Bool) (xs : List A) (x : A) → All P xs → first p xs ≡ some x → P x
  unfolding first
  first-All P p [] x a h = cc
  first-All P p (y ∷ xs) x a h = elim (Bool-cases (p y)) [
    | inl e ↦ subst P (ground arith) a.0
    | inr e ↦ first-All P p xs x a.1 (ground arith)
  ]

  pub any-append : (p : A → Bool) (xs ys : List A) → any p (xs ++ ys) ≡ (any p xs || any p ys)
  unfolding any
  any-append p [] ys = refl
  any-append p (x ∷ xs) ys = ground (arith, any-append p xs ys)

  pub first-append :
      (p : A → Bool) (xs ys : List A) → any p xs ≡ false → first p (xs ++ ys) ≡ first p ys
  unfolding any first
  first-append p [] ys h = refl
  first-append p (x ∷ xs) ys h = ground (arith, first-append p xs ys)

  pub count_where-append :
      (p : A → Bool) (xs ys : List A)
      → count_where p (xs ++ ys) ≡ count_where p xs + count_where p ys
  unfolding count_where
  count_where-append p [] ys = omega arith
  count_where-append p (x ∷ xs) ys = omega (arith, count_where-append p xs ys)

  pub All-append {κ} : (P : A → Type κ) (xs ys : List A) → All P xs → All P ys → All P (xs ++ ys)
  All-append P [] ys hx hy = hy
  All-append P (x ∷ xs) ys hx hy = (hx.0, All-append P xs ys hx.1 hy)

  pub All-update_where {κ} :
      (P : A → Type κ) (p : A → Bool) (f : A → A) (xs : List A)
      → ((x : A) → P x → P (f x))
      → All P xs
      → All P (update_where p f xs)
  unfolding update_where
  All-update_where P p f [] keep a = tt
  All-update_where P p f (x ∷ xs) keep a = (
    elim (p x) as (λ b. P (if b then f x else x)) [ true ↦ keep x a.0 | false ↦ a.0 ],
    All-update_where P p f xs keep a.1,
  )

  pub any-update_where :
      (q p : A → Bool) (f : A → A) (xs : List A)
      → ((x : A) → q (f x) ≡ q x)
      → any q (update_where p f xs) ≡ any q xs
  unfolding any update_where
  any-update_where q p f [] keep = refl
  any-update_where q p f (x ∷ xs) keep = ground (arith, any-update_where q p f xs keep, keep x)

  pub first-In : (p : A → Bool) (xs : List A) (x : A) → first p xs ≡ some x → In x xs
  unfolding first
  first-In p [] x h = absurd (cc)
  first-In p (y ∷ xs) x h = elim (Bool-cases (p y)) [
    | inl e ↦ here (ground arith)
    | inr e ↦ there (first-In p xs x (ground arith))
  ]

  -- Where a row satisfies the filter, the query finds one.
  pub first_finds :
      (p : A → Bool) (xs : List A) (x : A) → In x xs → p x ≡ true → (y : A) × (first p xs ≡ some y)
  unfolding first
  first_finds p [] x m h = elim m [ ]
  first_finds p (y ∷ xs) x (here e) h = (y, rw (subst (λ z. p z ≡ true) e h))
  first_finds p (y ∷ xs) x (there m) h =
      elim (p y) as (λ b. (z : A) × ((if b then some y else first p xs) ≡ some z)) [
        | true ↦ (y, refl)
        | false ↦ first_finds p xs x m h
      ]

  -- An update under which no row gains the property does not raise the count.
  pub count_where-update_where-le :
      (q p : A → Bool) (f : A → A) (xs : List A)
      → ((x : A) → q (f x) ≡ true → q x ≡ true)
      → count_where q (update_where p f xs) ≤ count_where q xs
  unfolding count_where update_where
  count_where-update_where-le q p f [] keep = omega arith
  count_where-update_where-le q p f (x ∷ xs) keep =
      ground (arith, keep x, count_where-update_where-le q p f xs keep)

  pub any_mono :
      (p q : A → Bool) (xs : List A)
      → ((x : A) → p x ≡ true → q x ≡ true)
      → any q xs ≡ false
      → any p xs ≡ false
  unfolding any
  any_mono p q [] up h = refl
  any_mono p q (x ∷ xs) up h = ground (arith, up x, any_mono p q xs up)

  pub In-any : (p : A → Bool) (xs : List A) (x : A) → In x xs → p x ≡ true → any p xs ≡ true
  unfolding any
  In-any p [] x m h = elim m [ ]
  In-any p (y ∷ xs) x (here e) h = rw (subst (λ z. p z ≡ true) e h)
  In-any p (y ∷ xs) x (there m) h = ground (arith, In-any p xs x m h)

  pub update_where-append :
      (p : A → Bool) (f : A → A) (xs ys : List A)
      → update_where p f (xs ++ ys) ≡ update_where p f xs ++ update_where p f ys
  unfolding update_where
  update_where-append p f [] ys = refl
  update_where-append p f (x ∷ xs) ys = ground (arith, update_where-append p f xs ys)

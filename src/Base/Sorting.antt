-- ===== src/Base/Sorting.antt =====
-- `ORDER BY`, `OFFSET` and `LIMIT`: insertion sort by a test of what comes first, and pages.
use mathlib.Core.List.Perm
use mathlib.Core.List.{Perm}
use Prim.Native.Nat.{ℕ, zero, suc, ◌+◌, ◌≤◌}
use mathlib.Core.Path.{◌≡◌, refl, ap}
use mathlib.Core.Bool.{Bool, true, false}
use mathlib.Core.Logic.{inl, inr}
use mathlib.Core.List.{List, [], ◌∷◌, ◌++◌}
use native.Mathlib.Omega.{arith}
use native.Mathlib.Numerals.{unary_clauses}
use checkin_service.Base.Bools.{if◌then◌else◌, Bool-cases}
use checkin_service.Base.Lists.{All, length}

module _ {ℓ} {A : Type ℓ} where
  unfoldable pub insert_by : (A → A → Bool) → A → List A → List A
  insert_by before x [] = x ∷ []
  insert_by before x (y ∷ ys) =
      let rest = insert_by before x ys in if before x y then x ∷ y ∷ ys else y ∷ rest

  unfoldable pub sort_by : (A → A → Bool) → List A → List A
  unfolding insert_by
  sort_by before [] = []
  sort_by before (x ∷ xs) = insert_by before x (sort_by before xs)

  -- `.offset(n)`
  unfoldable pub drop_rows : ℕ → List A → List A
  drop_rows zero xs = xs
  drop_rows (suc n) [] = []
  drop_rows (suc n) (x ∷ xs) = drop_rows n xs

  -- `.limit(n)`
  unfoldable pub take_rows : ℕ → List A → List A
  take_rows zero xs = []
  take_rows (suc n) [] = []
  take_rows (suc n) (x ∷ xs) = x ∷ take_rows n xs

  unfoldable pub page : ℕ → ℕ → List A → List A
  unfolding drop_rows take_rows
  page offset limit xs = take_rows limit (drop_rows offset xs)

zero_add : (m : ℕ) → 0 + m ≡ m
zero_add m = omega arith

suc_add : (l m : ℕ) → suc l + m ≡ suc (l + m)
suc_add l m = omega arith

module _ {ℓ} {A : Type ℓ} where
  -- Nobody stands behind a row that it comes before.
  abbrev pub IsSortedBy : (A → A → Bool) → List A → Type 0
  IsSortedBy before [] = Unit
  IsSortedBy before (x ∷ xs) = All (λ y. before x y ≡ true) xs × IsSortedBy before xs

  insert_by-Perm :
      (before : A → A → Bool) (x : A) (xs : List A) → Perm (insert_by before x xs) (x ∷ xs)
  unfolding insert_by
  insert_by-Perm before x [] = Perm.refl (x ∷ [])
  insert_by-Perm before x (y ∷ ys) = elim (Bool-cases (before x y)) [
    | inl e ↦ rw e (Perm.refl (x ∷ y ∷ ys))
    | inr e ↦ rw e (Perm.trans (Perm.cons y (insert_by-Perm before x ys)) (Perm.swap x y ys))
  ]

  -- Sorting loses no row and invents none.
  pub sort_by-Perm : (before : A → A → Bool) (xs : List A) → Perm (sort_by before xs) xs
  unfolding sort_by
  sort_by-Perm before [] = Perm.refl []
  sort_by-Perm before (x ∷ xs) =
      Perm.trans (insert_by-Perm before x (sort_by before xs))
        (Perm.cons x (sort_by-Perm before xs))

  pub All-insert_by {κ} :
      (P : A → Type κ) (before : A → A → Bool) (x : A) (xs : List A)
      → P x
      → All P xs
      → All P (insert_by before x xs)
  unfolding insert_by
  All-insert_by P before x [] px a = (px, tt)
  All-insert_by P before x (y ∷ ys) px a = elim (Bool-cases (before x y)) [
    | inl e ↦ rw e (px, a)
    | inr e ↦ rw e (a.0, All-insert_by P before x ys px a.1)
  ]

  pub All-sort_by {κ} :
      (P : A → Type κ) (before : A → A → Bool) (xs : List A) → All P xs → All P (sort_by before xs)
  unfolding sort_by
  All-sort_by P before [] a = tt
  All-sort_by P before (x ∷ xs) a =
      All-insert_by P before x (sort_by before xs) a.0 (All-sort_by P before xs a.1)

  pub All-take_rows {κ} : (P : A → Type κ) (n : ℕ) (xs : List A) → All P xs → All P (take_rows n xs)
  unfolding take_rows
  All-take_rows P zero xs a = tt
  All-take_rows P (suc n) [] a = tt
  All-take_rows P (suc n) (x ∷ xs) a = (a.0, All-take_rows P n xs a.1)

  pub All-drop_rows {κ} : (P : A → Type κ) (n : ℕ) (xs : List A) → All P xs → All P (drop_rows n xs)
  unfolding drop_rows
  All-drop_rows P zero xs a = a
  All-drop_rows P (suc n) [] a = a
  All-drop_rows P (suc n) (x ∷ xs) a = All-drop_rows P n xs a.1

  pub All-page {κ} :
      (P : A → Type κ) (offset limit : ℕ) (xs : List A) → All P xs → All P (page offset limit xs)
  unfolding page
  All-page P offset limit xs a =
      All-take_rows P limit (drop_rows offset xs) (All-drop_rows P offset xs a)

  length-take_rows-le : (n : ℕ) (xs : List A) → length (take_rows n xs) ≤ n
  unfolding take_rows
  length-take_rows-le zero xs = omega arith
  length-take_rows-le (suc n) [] = omega arith
  length-take_rows-le (suc n) (x ∷ xs) = omega (arith, length-take_rows-le n xs)

  pub length-page-le : (offset limit : ℕ) (xs : List A) → length (page offset limit xs) ≤ limit
  unfolding page
  length-page-le offset limit xs = length-take_rows-le limit (drop_rows offset xs)

  take_rows-add :
      (l m : ℕ) (xs : List A)
      → take_rows (l + m) xs ≡ take_rows l xs ++ take_rows m (drop_rows l xs)
  unfolding take_rows drop_rows
  take_rows-add zero m xs = rw (zero_add m) refl
  take_rows-add (suc l) zero [] = simp unary_clauses
  take_rows-add (suc l) (suc m) [] = simp unary_clauses
  take_rows-add (suc l) m (x ∷ xs) = rw (suc_add l m) (ap (λ ys. x ∷ ys) (take_rows-add l m xs))

  drop_rows-add : (o l : ℕ) (xs : List A) → drop_rows (o + l) xs ≡ drop_rows l (drop_rows o xs)
  unfolding drop_rows
  drop_rows-add zero l xs = rw (zero_add l) refl
  drop_rows-add (suc o) zero [] = simp unary_clauses
  drop_rows-add (suc o) (suc l) [] = simp unary_clauses
  drop_rows-add (suc o) l (x ∷ xs) = rw (suc_add o l) (drop_rows-add o l xs)

  -- A page followed by the next one is one larger page.
  pub page-add : (o l m : ℕ) (xs : List A) → page o (l + m) xs ≡ page o l xs ++ page (o + l) m xs
  unfolding page
  page-add o l m xs = rw (drop_rows-add o l xs) (take_rows-add l m (drop_rows o xs))

  ahead :
      (before : A → A → Bool) (x y : A) (ys : List A)
      → ((a b c : A) → before a b ≡ true → before b c ≡ true → before a c ≡ true)
      → before x y ≡ true
      → All (λ z. before y z ≡ true) ys
      → All (λ z. before x z ≡ true) ys
  ahead before x y [] trans e a = tt
  ahead before x y (z ∷ zs) trans e a = (trans x y z e a.0, ahead before x y zs trans e a.1)

  insert_by-IsSortedBy :
      (before : A → A → Bool) (x : A) (xs : List A)
      → ((a b : A) → before a b ≡ false → before b a ≡ true)
      → ((a b c : A) → before a b ≡ true → before b c ≡ true → before a c ≡ true)
      → IsSortedBy before xs
      → IsSortedBy before (insert_by before x xs)
  unfolding insert_by
  insert_by-IsSortedBy before x [] total trans s = (tt, tt)
  insert_by-IsSortedBy before x (y ∷ ys) total trans s = elim (Bool-cases (before x y)) [
    | inl e ↦ rw e ((e, ahead before x y ys trans e s.0), s)
    | inr e ↦ rw e (
      All-insert_by (λ z. before y z ≡ true) before x ys (total x y e) s.0,
      insert_by-IsSortedBy before x ys total trans s.1,
    )
  ]

  pub sort_by-IsSortedBy :
      (before : A → A → Bool) (xs : List A)
      → ((a b : A) → before a b ≡ false → before b a ≡ true)
      → ((a b c : A) → before a b ≡ true → before b c ≡ true → before a c ≡ true)
      → IsSortedBy before (sort_by before xs)
  unfolding sort_by
  sort_by-IsSortedBy before [] total trans = tt
  sort_by-IsSortedBy before (x ∷ xs) total trans =
      insert_by-IsSortedBy before x (sort_by before xs) total trans
        (sort_by-IsSortedBy before xs total trans)

  IsSortedBy-drop_rows :
      (before : A → A → Bool) (n : ℕ) (xs : List A)
      → IsSortedBy before xs
      → IsSortedBy before (drop_rows n xs)
  unfolding drop_rows
  IsSortedBy-drop_rows before zero xs s = s
  IsSortedBy-drop_rows before (suc n) [] s = s
  IsSortedBy-drop_rows before (suc n) (x ∷ xs) s = IsSortedBy-drop_rows before n xs s.1

  IsSortedBy-take_rows :
      (before : A → A → Bool) (n : ℕ) (xs : List A)
      → IsSortedBy before xs
      → IsSortedBy before (take_rows n xs)
  unfolding take_rows
  IsSortedBy-take_rows before zero xs s = tt
  IsSortedBy-take_rows before (suc n) [] s = s
  IsSortedBy-take_rows before (suc n) (x ∷ xs) s =
      (All-take_rows (λ y. before x y ≡ true) n xs s.0, IsSortedBy-take_rows before n xs s.1)

  pub IsSortedBy-page :
      (before : A → A → Bool) (offset limit : ℕ) (xs : List A)
      → IsSortedBy before xs
      → IsSortedBy before (page offset limit xs)
  unfolding page
  IsSortedBy-page before offset limit xs s =
      IsSortedBy-take_rows before limit (drop_rows offset xs)
        (IsSortedBy-drop_rows before offset xs s)

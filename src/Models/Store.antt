-- ===== src/Models/Store.antt =====
-- A table under unique constraints: `add` and `commit` of a row, which raise `IntegrityError` when
-- the row collides with one that is there, and the invariant that no two rows collide.
use mathlib.Core.Path.{fun_ext}
use checkin_service.Base.{
  ◌≡◌, refl, Bool, true, false, Option, none, some, List, [], ◌∷◌, ◌++◌, arith, any, All,
  All-append, any-append, any-update_where, update_where, if◌then◌else◌,
}

module _ {ℓ} {A : Type ℓ} (conflict : A → A → Bool) where
  -- `none` is `IntegrityError`
  unfoldable pub add_row : A → List A → Option (List A)
  add_row x xs = if any (conflict x) xs then none else some (xs ++ x ∷ [])

  abbrev pub IsDistinct : List A → Type 0
  IsDistinct [] = Unit
  IsDistinct (x ∷ xs) = (any (conflict x) xs ≡ false) × IsDistinct xs

  pub IsDistinct-append :
      (xs : List A) (x : A)
      → ((a b : A) → conflict a b ≡ conflict b a)
      → any (conflict x) xs ≡ false
      → IsDistinct xs
      → IsDistinct (xs ++ x ∷ [])
  unfolding any
  IsDistinct-append [] x comm h d = (refl, tt)
  IsDistinct-append (y ∷ xs) x comm h d = (
    ground (arith, any-append (conflict y) xs (x ∷ []), comm x y, d.0),
    IsDistinct-append xs x comm (ground arith) d.1,
  )

  -- An update that touches no key leaves a table without collisions.
  pub IsDistinct-update_where :
      (p : A → Bool) (f : A → A) (xs : List A)
      → ((a b : A) → conflict (f a) b ≡ conflict a b)
      → ((a b : A) → conflict a (f b) ≡ conflict a b)
      → IsDistinct xs
      → IsDistinct (update_where p f xs)
  unfolding update_where
  IsDistinct-update_where p f [] left right d = tt
  IsDistinct-update_where p f (x ∷ xs) left right d = (
    elim (p x) as (λ b. any (conflict (if b then f x else x)) (update_where p f xs) ≡ false) [
      | true ↦ rw (fun_ext (left x)) tail_ok
      | false ↦ tail_ok
    ],
    IsDistinct-update_where p f xs left right d.1,
  )
    where
      tail_ok : any (conflict x) (update_where p f xs) ≡ false
      tail_ok = rw (any-update_where (conflict x) p f xs (right x)) d.0

  pub add_row_rows :
      (x : A) (xs ys : List A)
      → add_row x xs ≡ some ys
      → (any (conflict x) xs ≡ false) × (ys ≡ xs ++ x ∷ [])
  unfolding add_row
  add_row_rows x xs ys h = ground arith

  pub add_row-IsDistinct :
      (x : A) (xs ys : List A)
      → ((a b : A) → conflict a b ≡ conflict b a)
      → add_row x xs ≡ some ys
      → IsDistinct xs
      → IsDistinct ys
  unfolding add_row
  add_row-IsDistinct x xs ys comm h d =
      let e = add_row_rows x xs ys h in rw e.1 (IsDistinct-append xs x comm e.0 d)

  pub add_row-All {κ} :
      (P : A → Type κ) (x : A) (xs ys : List A) → add_row x xs ≡ some ys → P x → All P xs → All P ys
  unfolding add_row
  add_row-All P x xs ys h px pxs =
      rw (add_row_rows x xs ys h).1 (All-append P xs (x ∷ []) pxs (px, tt))

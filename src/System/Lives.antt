-- ===== src/System/Lives.antt =====
-- The life of a registration, as the rest of the world sees it: a state machine of its status, which
-- the whole service implements.
use checkin_service.Base.{
  ◌≡◌, refl, ◌∙◌, false, true, Bool, Bool-cases, List, [], ◌∷◌, ◌++◌, inl, inr, update_where,
}
use checkin_service.Models.{Registration, RegistrationStatus, attended, DateTime}
use checkin_service.Registrations.Defs.{is_cancelled, set_cancelled}

-- The steps of a registration: it is cancelled, from any status; or its attendee checks in, unless it
-- is cancelled.
pub data Move : RegistrationStatus → RegistrationStatus → Type 0 where
  cancelling : {s : RegistrationStatus} → Move s RegistrationStatus.cancelled
  attending : {s : RegistrationStatus} → is_cancelled s ≡ false → Move s attended

pub data Life : RegistrationStatus → RegistrationStatus → Type 0 where
  rest : {s : RegistrationStatus} → Life s s
  onward : {s t u : RegistrationStatus} → Move s t → Life t u → Life s u

Life-trans : {s t u : RegistrationStatus} → Life s t → Life t u → Life s u
Life-trans rest l = l
Life-trans (onward m k) l = onward m (Life-trans k l)

-- A row at a later time: the same registration, further in its life.
pub record IsLater (r r' : Registration) : Type 0 where
  pub same_id : r'.id ≡ r.id
  pub same_event : r'.event_id ≡ r.event_id
  pub same_attendee : r'.attendee_user_id ≡ r.attendee_user_id
  pub life : Life r.status r'.status

pub IsLater-refl : (r : Registration) → IsLater r r
IsLater-refl r = record { same_id = refl; same_event = refl; same_attendee = refl; life = rest }

IsLater-trans : (a b c : Registration) → IsLater a b → IsLater b c → IsLater a c
IsLater-trans a b c p q = record {
  same_id = q.same_id ∙ p.same_id;
  same_event = q.same_event ∙ p.same_event;
  same_attendee = q.same_attendee ∙ p.same_attendee;
  life = Life-trans p.life q.life;
}

-- A later state of the table: every row is still there, further in its life, in front of new ones.
abbrev pub IsGrown : List Registration → List Registration → Type 0
IsGrown [] ys = Unit
IsGrown (x ∷ xs) [] = true ≡ false
IsGrown (x ∷ xs) (y ∷ ys) = IsLater x y × IsGrown xs ys

pub IsGrown-refl : (xs : List Registration) → IsGrown xs xs
IsGrown-refl [] = tt
IsGrown-refl (x ∷ xs) = (IsLater-refl x, IsGrown-refl xs)

pub IsGrown-append :
    (xs ys : List Registration) (y : Registration) → IsGrown xs ys → IsGrown xs (ys ++ y ∷ [])
IsGrown-append [] ys y g = tt
IsGrown-append (x ∷ xs) [] y g = absurd (cc g)
IsGrown-append (x ∷ xs) (z ∷ ys) y g = (g.0, IsGrown-append xs ys y g.1)

pub IsGrown-update :
    (p : Registration → Bool) (f : Registration → Registration) (xs ys : List Registration)
    → ((r : Registration) → IsLater r (f r))
    → IsGrown xs ys
    → IsGrown xs (update_where p f ys)
unfolding update_where
IsGrown-update p f [] ys later g = tt
IsGrown-update p f (x ∷ xs) [] later g = g
IsGrown-update p f (x ∷ xs) (y ∷ ys) later g = (
  elim (Bool-cases (p y)) [
    | inl e ↦ rw e (IsLater-trans x y (f y) g.0 (later y))
    | inr e ↦ rw e g.0
  ],
  IsGrown-update p f xs ys later g.1,
)

pub cancelled-IsLater : (now : DateTime) (r : Registration) → IsLater r (set_cancelled now r)
unfolding set_cancelled
cancelled-IsLater now r = elim (Bool-cases (is_cancelled r.status)) [
  | inl e ↦ rw (e, set_cancelled) (IsLater-refl r)
  | inr e ↦
      rw (e, set_cancelled)
        (record {
          same_id = refl;
          same_event = refl;
          same_attendee = refl;
          life = onward cancelling rest;
        })
]

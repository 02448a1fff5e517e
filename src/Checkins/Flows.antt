-- ===== src/Checkins/Flows.antt =====
-- Laws of the flow of POST /events/{id}/checkin of src/routers/checkins.py: where a chain of steps
-- goes on, and what the responses of its stops say.
use checkin_service.Base.{◌≡◌, refl, Bool, true, false, Result, ok, err, ◌⊎◌, inl, inr}
use checkin_service.Checkins.Submit.{
  Outcome, success, Response, Flow, stop, go, ◌>>=◌, return_if, attempt,
}

pub >>=-eq-go :
    {A B : Type 0} (m : Flow A) (f : A → Flow B) {b : B}
    → (m >>= f) ≡ go b
    → (a : A) × (m ≡ go a) × (f a ≡ go b)
>>=-eq-go (go a) f h = (a, refl, h)
>>=-eq-go (stop r) f h = absurd (cc)

pub return_if-eq-go : (b : Bool) (o : Outcome) {u : Unit {0}} → return_if b o ≡ go u → b ≡ false
return_if-eq-go true o h = absurd (cc)
return_if-eq-go false o h = refl

unfoldable pub is_success : Outcome → Bool
is_success o = elim o [ success ↦ true | _ ↦ false ]

-- The steps that stop without a success.
abbrev pub IsRefusal : Result Response → Type 0
IsRefusal (ok r) = is_success r.status ≡ false
IsRefusal (err e) = Unit

abbrev pub IsRefusing : {A : Type 0} → Flow A → Type 0
IsRefusing (stop r) = IsRefusal r
IsRefusing (go a) = Unit

pub >>=-IsRefusing :
    {A B : Type 0} (m : Flow A) (f : A → Flow B)
    → IsRefusing m
    → ((a : A) → IsRefusing (f a))
    → IsRefusing (m >>= f)
>>=-IsRefusing (go a) f hm hf = hf a
>>=-IsRefusing (stop r) f hm hf = hm

pub return_if-IsRefusing :
    (b : Bool) (o : Outcome) → is_success o ≡ false → IsRefusing (return_if b o)
return_if-IsRefusing true o h = h
return_if-IsRefusing false o h = tt

pub attempt-eq-go : {A : Type 0} (r : Result A) {a : A} → attempt r ≡ go a → r ≡ ok a
attempt-eq-go (ok b) h = cc h
attempt-eq-go (err e) h = absurd (cc h)

pub attempt-IsRefusing : {A : Type 0} (r : Result A) → IsRefusing (attempt r)
attempt-IsRefusing (ok a) = tt
attempt-IsRefusing (err e) = tt

-- How a step ended.
pub Flow-cases :
    {A : Type 0} (m : Flow A) → ((r : Result Response) × (m ≡ stop r)) ⊎ ((a : A) × (m ≡ go a))
Flow-cases (stop r) = inl (r, refl)
Flow-cases (go a) = inr (a, refl)

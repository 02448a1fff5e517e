-- ===== src/Base/Outcome.antt =====
-- Fallible code: FastAPI's `HTTPException` as a value, and the `Result` of code that may raise it.
use mathlib.Core.Path.{◌≡◌, refl, subst}
use mathlib.Core.Logic.{◌⊎◌, inl, inr}
use mathlib.Core.Bool.{Bool, true, false}
use Prim.Native.Nat.{ℕ}

-- The `detail` of an exception: its "code" where it has one, otherwise its text.
pub data Detail : Type 0 where
  bearer_token_required invalid_bearer_token auth_unavailable : Detail
  service_name_required service_caller_not_allowlisted : Detail
  permission_denied tenant_required school_binding_required not_group_owner : Detail
  invalid_group_kind not_event_owner school_id_required group_required : Detail
  bad_idempotency_key empty_title end_before_start : Detail
  event_not_found group_not_found registration_not_found invitation_not_found : Detail
  attendee_user_id_required event_not_open invitation_required duplicate_registration : Detail
  user_id_required checkin_disabled nfc_disabled rate_limited_attendee rate_limited_ip : Detail
  integrity_error type_error domain_error bad_ttl bad_event_table csrf_failed validation_error :
      Detail

-- `HTTPException(status_code, detail)`
pub data HttpError : Type 0 where
  http : ℕ → Detail → HttpError

pub data Result {ℓ} (A : Type ℓ) : Type ℓ where
  ok : A → Result A
  err : HttpError → Result A

-- Code that runs only if the code before it did not raise.
abbrev pub ◌>>=◌ {ℓ κ} : {A : Type ℓ} {B : Type κ} → Result A → (A → Result B) → Result B
err raised >>= next = err raised
ok value >>= next = next value

abbrev pub ◌>>◌ {κ} : {B : Type κ} → Result (Unit {0}) → Result B → Result B
check >> next = check >>= λ _. next

infixl 5 ◌>>=◌ ◌>>◌
-- `if b: raise e`
abbrev pub raise_if : Bool → HttpError → Result (Unit {0})
raise_if true e = err e
raise_if false e = ok tt

-- `if not b: raise e`
abbrev pub require : Bool → HttpError → Result (Unit {0})
require true e = ok tt
require false e = err e

-- How a fallible call ended.
pub Result-cases {ℓ} :
    {A : Type ℓ} (r : Result A) → ((e : HttpError) × (r ≡ err e)) ⊎ ((a : A) × (r ≡ ok a))
Result-cases (ok a) = inr (a, refl)
Result-cases (err e) = inl (e, refl)

-- A chain that ends without an error went through its first step.
pub >>=-eq-ok {ℓ κ} :
    {A : Type ℓ} {B : Type κ} (step : Result A) (next : A → Result B) {result : B}
    → (step >>= next) ≡ ok result
    → (value : A) × (step ≡ ok value) × (next value ≡ ok result)
>>=-eq-ok (err raised) next h = absurd (cc)
>>=-eq-ok (ok value) next h = (value, refl, h)

pub require-eq-ok : (b : Bool) (e : HttpError) {u : Unit {0}} → require b e ≡ ok u → b ≡ true
require-eq-ok true e h = refl
require-eq-ok false e h = cc

-- What holds of every value that fallible code returns.
pub record OnOk {ℓ κ} {A : Type ℓ} (P : A → Type κ) (r : Result A) : Type (ℓ ⊔ κ) where
  pub on_ok : (a : A) → r ≡ ok a → P a

pub OnOk-ok {ℓ κ} : {A : Type ℓ} (P : A → Type κ) (b : A) → P b → OnOk P (ok b)
OnOk-ok P b p = record { on_ok = λ a h. let e : b ≡ a = cc h in subst P e p }

pub OnOk->>= {ℓ κ μ} :
    {A : Type ℓ} {B : Type κ} (P : B → Type μ) (step : Result A) (next : A → Result B)
    → ((a : A) → step ≡ ok a → OnOk P (next a))
    → OnOk P (step >>= next)
OnOk->>= P (ok a) next rest = rest a refl
OnOk->>= P (err e) next rest = record { on_ok = λ a h. absurd (cc h) }

-- ===== src/Csrf/Forwarded.antt =====
-- What the CSRF middleware of src/main.py lets through.
use checkin_service.Base.{
  ◌≡◌, refl, true, false, Bool-cases, Option, none, some, ◌⊎◌, inl, inr, ◌↔◌, arith,
}
use checkin_service.Text.{Text, text_eq, member, upper, is_ascii, is_empty, is_falsy}
use checkin_service.Text.Equality.{text_eq→eq, text_eq_refl}
use checkin_service.Env.{Environment}
use checkin_service.Hashing.{compare_digest}
use checkin_service.Csrf.{
  Incoming, forward, is_enabled, session_cookie_name, csrf_cookie_name, exempt_paths, safe_methods,
  token_gate, dispatch,
}

-- The cookie and the header carry one token, of at least one character and all of them ASCII.
pub record IsToken (cookie header : Option Text) : Type 0 where
  pub token : Text
  pub in_cookie : cookie ≡ some token
  pub in_header : header ≡ some token
  pub non_empty : is_empty token ≡ false
  pub ascii : is_ascii token ≡ true

forward→IsToken :
    (cookie header : Option Text) → token_gate cookie header ≡ forward → IsToken cookie header
unfolding token_gate compare_digest
forward→IsToken none header h = absurd (cc)
forward→IsToken (some c) none h = absurd (ground arith)
forward→IsToken (some c) (some d) h =
    let same : text_eq c d ≡ true = ground arith in
    let eq : c ≡ d = text_eq→eq c d same in
    record {
      token = c;
      in_cookie = refl;
      in_header = cc eq;
      non_empty = ground arith;
      ascii = ground arith;
    }

IsToken→forward :
    (cookie header : Option Text) → IsToken cookie header → token_gate cookie header ≡ forward
unfolding token_gate compare_digest
IsToken→forward cookie header t =
    rw (t.in_cookie, token_gate)
      (rw t.in_header (rw t.non_empty (rw t.ascii (rw (text_eq_refl t.token)))))

-- The middleware forwards a request exactly when the protection is off, its method is safe, its
-- path is exempt, it has no session cookie, or it carries the same token in the cookie and in the
-- header. Every other request does not reach a route.
pub dispatch_iff :
    (env : Environment) (r : Incoming)
    → (dispatch env r ≡ forward) ↔ (
        (is_enabled env ≡ false)
        ⊎ (member (upper r.method) safe_methods ≡ true)
        ⊎ (member r.path exempt_paths ≡ true)
        ⊎ (is_falsy (r.cookies (session_cookie_name env)) ≡ true)
        ⊎ IsToken (r.cookies (csrf_cookie_name env)) r.csrf_header)
unfolding dispatch
dispatch_iff env r = elim (Bool-cases (is_enabled env)) [
  | inr a ↦ (λ h. inl a, λ h. rw (a, dispatch))
  | inl a ↦ elim (Bool-cases (member (upper r.method) safe_methods)) [
    | inl b ↦ (λ h. inr (inl b), λ h. rw (a, dispatch) (rw b))
    | inr b ↦ elim (Bool-cases (member r.path exempt_paths)) [
      | inl c ↦ (λ h. inr (inr (inl c)), λ h. rw (a, dispatch) (rw b (rw c)))
      | inr c ↦ elim (Bool-cases (is_falsy (r.cookies (session_cookie_name env)))) [
        | inl d ↦ (λ h. inr (inr (inr (inl d))), λ h. rw (a, dispatch) (rw b (rw c (rw d))))
        | inr d ↦ (
          λ h. inr (
              inr (
                inr (
                  inr (
                    forward→IsToken (r.cookies (csrf_cookie_name env)) r.csrf_header
                      (rw d at (rw c at (rw b at (rw (a, dispatch) at h)))))))),
          λ h. elim h [
            | inl x ↦ absurd (cc (a, x))
            | inr (inl x) ↦ absurd (cc (b, x))
            | inr (inr (inl x)) ↦ absurd (cc (c, x))
            | inr (inr (inr (inl x))) ↦ absurd (cc (d, x))
            | inr (inr (inr (inr t))) ↦
                rw (a, dispatch)
                  (rw b (
                    rw c
                      (rw d (IsToken→forward (r.cookies (csrf_cookie_name env)) r.csrf_header t))))
          ],
        )
      ]
    ]
  ]
]

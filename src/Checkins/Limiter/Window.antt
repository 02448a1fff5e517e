-- ===== src/Checkins/Limiter/Window.antt =====
-- A deque against the log of the times that it has admitted.
use checkin_service.Base.{
  ap, ℕ, ◌+◌, ◌≤◌, ◌<◌, ◌≡◌, refl, Bool, true, false, List, [], ◌∷◌, ◌++◌, arith, leb, ltb, length,
  All, All-append, count_where, if◌then◌else◌, Bool-cases, inl, inr,
}
use checkin_service.Checkins.Limiter.{window, prune}

-- The time `s` lies in the window that ends at `n`.
abbrev pub recent : ℕ → ℕ → Bool
recent n s = leb n (s + window)

-- A log, the newest time first, in which fewer than `max` times lie in the window before each.
abbrev pub IsSpaced : ℕ → List ℕ → Type 0
IsSpaced max [] = Unit
IsSpaced max (t ∷ log) = (count_where (recent t) log < max) × IsSpaced max log

-- The deque holds what later windows will see of the log.
pub record Tracks (log dq : List ℕ) (now : ℕ) : Type 0 where
  pub past : All (λ t. t ≤ now) dq
  pub seen : (n : ℕ) → now ≤ n → length (prune dq n) ≡ count_where (recent n) log

prune-prune : (dq : List ℕ) (t n : ℕ) → t ≤ n → prune (prune dq t) n ≡ prune dq n
unfolding prune
prune-prune [] t n h = refl
prune-prune (s ∷ dq) t n h = ground (arith, prune-prune dq t n h)

pub All-prune : (P : ℕ → Type 0) (dq : List ℕ) (n : ℕ) → All P dq → All P (prune dq n)
unfolding prune
All-prune P [] n h = tt
All-prune P (s ∷ dq) n h =
    elim (ltb (s + window) n) as (λ b. All P (if b then prune dq n else s ∷ dq)) [
      | true ↦ All-prune P dq n h.1
      | false ↦ h
    ]

All-later : (dq : List ℕ) (m n : ℕ) → m ≤ n → All (λ t. t ≤ m) dq → All (λ t. t ≤ n) dq
All-later [] m n le h = tt
All-later (s ∷ dq) m n le h = (omega (arith, h.0), All-later dq m n le h.1)

length-snoc : (xs : List ℕ) (t : ℕ) → length (xs ++ t ∷ []) ≡ length xs + 1
length-snoc [] t = omega arith
length-snoc (x ∷ xs) t = omega (arith, length-snoc xs t)

-- Appending a time that is still in the window adds one to what the window sees.
length-prune-recent :
    (dq : List ℕ) (t n : ℕ)
    → n ≤ t + window
    → length (prune (dq ++ t ∷ []) n) ≡ length (prune dq n) + 1
unfolding prune
length-prune-recent [] t n h = ground arith
length-prune-recent (s ∷ dq) t n h = ground (arith, length-prune-recent dq t n h, length-snoc dq t)

-- Once a time has left the window, so have all before it.
prune-old : (dq : List ℕ) (t n : ℕ) → t + window < n → All (λ s. s ≤ t) dq → prune dq n ≡ []
unfolding prune
prune-old [] t n h a = refl
prune-old (s ∷ dq) t n h a = ground (arith, prune-old dq t n h a.1)

snoc-past : (dq : List ℕ) (t : ℕ) → All (λ s. s ≤ t) dq → All (λ s. s ≤ t) (dq ++ t ∷ [])
snoc-past dq t a = All-append (λ s. s ≤ t) dq (t ∷ []) a (omega arith, tt)

pub Tracks-later : (log dq : List ℕ) (m n : ℕ) → m ≤ n → Tracks log dq m → Tracks log dq n
Tracks-later log dq m n le tracked = record {
  past = All-later dq m n le tracked.past;
  seen = λ k h. tracked.seen k (omega arith);
}

pub Tracks-prune :
    (log dq : List ℕ) (now t : ℕ) → now ≤ t → Tracks log dq now → Tracks log (prune dq t) t
Tracks-prune log dq now t le tracked = record {
  past = All-prune (λ s. s ≤ t) dq t (All-later dq now t le tracked.past);
  seen = λ n h. rw prune-prune (tracked.seen n (omega arith));
}

seen_after :
    (log dq : List ℕ) (t n : ℕ)
    → All (λ s. s ≤ t) dq
    → length (prune dq n) ≡ count_where (recent n) log
    → length (prune (dq ++ t ∷ []) n) ≡ count_where (recent n) (t ∷ log)
unfolding count_where
seen_after log dq t n past seen = elim (Bool-cases (leb n (t + window))) [
  | inl e ↦ rw (e, count_where) (omega (arith, length-prune-recent dq t n (ground arith), seen))
  | inr e ↦
      let old : t + window < n = ground arith in
      let all_gone = ap length (prune-old (dq ++ t ∷ []) t n old (snoc-past dq t past)) in
      let gone = ap length (prune-old dq t n old past) in
      rw (e, count_where) (omega (arith, all_gone, gone, seen))
]

pub Tracks-admit :
    (log dq : List ℕ) (now t : ℕ)
    → now ≤ t
    → Tracks log dq now
    → Tracks (t ∷ log) (prune dq t ++ t ∷ []) t
Tracks-admit log dq now t le tracked =
    let pruned = Tracks-prune log dq now t le tracked in
    record {
      past = snoc-past (prune dq t) t pruned.past;
      seen = λ n h. seen_after log (prune dq t) t n pruned.past (pruned.seen n h);
    }

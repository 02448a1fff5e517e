-- ===== src/Qr/Split.antt =====
-- A minted token splits into the parts from which it was joined.
use mathlib.Core.List.{append_assoc}
use checkin_service.Base.{◌≡◌, refl, true, false, none, some, [], ◌∷◌, ◌++◌, All, arith, is_none}
use checkin_service.Text.{is_ascii, Text, text_eq, split, after_prefix}
use checkin_service.Text.Numerals.{is_digit}
use checkin_service.Text.Splitting.{IsFreeOf, split-free, split-part}
use checkin_service.Models.{EventTable, events, greek_rush_events}
use checkin_service.Hashing.{Crypto, Keys}
use checkin_service.Qr.Token.{colon, attendee_prefix, table_name, table_of_name, parts_of, payload}

-- The digests are ASCII and hold no colon: they are hexadecimal.
pub record IsHex (crypto : Crypto) : Type 0 where
  pub sha256_free : (s : Text) → IsFreeOf colon (crypto.sha256 s)
  pub hmac_free : (k s : Text) → IsFreeOf colon (crypto.hmac_sha256 k s)
  pub sha256_ascii : (s : Text) → is_ascii (crypto.sha256 s) ≡ true
  pub hmac_ascii : (k s : Text) → is_ascii (crypto.hmac_sha256 k s) ≡ true

pub numeral-free : (s : Text) → All (λ c. is_digit c ≡ true) s → IsFreeOf colon s
numeral-free [] a = tt
numeral-free (c ∷ s) a = (ground arith, numeral-free s a.1)

pub numeral-ascii : (s : Text) → All (λ c. is_digit c ≡ true) s → is_ascii s ≡ true
unfolding is_ascii
numeral-ascii [] a = refl
numeral-ascii (c ∷ s) a = ground (arith, a.0, numeral-ascii s a.1)

pub table_name-free : (t : EventTable) → IsFreeOf colon (table_name t)
unfolding table_name
table_name-free events = (refl, (refl, (refl, (refl, (refl, (refl, tt))))))
table_name-free greek_rush_events = (
  refl,
  (
    refl,
    (
      refl,
      (
        refl,
        (
          refl,
          (
            refl,
            (
              refl,
              (refl, (refl, (refl, (refl, (refl, (refl, (refl, (refl, (refl, (refl, tt)))))))))),
            ),
          ),
        ),
      ),
    ),
  ),
)

pub table_of_name-table_name : (t : EventTable) → table_of_name (table_name t) ≡ some t
unfolding table_of_name table_name text_eq
table_of_name-table_name events = refl
table_of_name-table_name greek_rush_events = refl

-- Four parts and a rest.
abbrev four : Text → Text → Text → Text → Text → Text
four t i n e rest = t ++ colon ∷ (i ++ colon ∷ (n ++ colon ∷ (e ++ colon ∷ rest)))

split-four :
    (t i n e rest : Text)
    → IsFreeOf colon t
    → IsFreeOf colon i
    → IsFreeOf colon n
    → IsFreeOf colon e
    → split colon (four t i n e rest) ≡ t ∷ i ∷ n ∷ e ∷ split colon rest
split-four t i n e rest ft fi fn fe =
    rw (split-part colon t (i ++ colon ∷ (n ++ colon ∷ (e ++ colon ∷ rest))) ft) (
      rw (split-part colon i (n ++ colon ∷ (e ++ colon ∷ rest)) fi)
        (rw (split-part colon n (e ++ colon ∷ rest) fn) (rw (split-part colon e rest fe))))

-- The parts of a token, with or without an attendee.
module _ (crypto : Crypto) (hex : IsHex crypto) (keys : Keys) where
  pub split-unbound :
      (t i n e sig : Text)
      → IsFreeOf colon t
      → IsFreeOf colon i
      → IsFreeOf colon n
      → IsFreeOf colon e
      → IsFreeOf colon sig
      → parts_of (split colon (payload crypto t i n e none ++ colon ∷ sig))
        ≡ some (record {
          event_table = t;
          event_id = i;
          nonce = n;
          expires = e;
          attendee = none;
          signature = sig;
        })
  unfolding payload parts_of
  split-unbound t i n e sig ft fi fn fe fs =
      simp append_assoc (rw (split-four t i n e sig ft fi fn fe) (rw (split-free colon sig fs)))

  pub split-bound :
      (t i n e a sig : Text)
      → IsFreeOf colon t
      → IsFreeOf colon i
      → IsFreeOf colon n
      → IsFreeOf colon e
      → IsFreeOf colon a
      → IsFreeOf colon sig
      → is_none (after_prefix attendee_prefix a) ≡ false
      → parts_of (split colon (payload crypto t i n e (some a) ++ colon ∷ sig))
        ≡ some (record {
          event_table = t;
          event_id = i;
          nonce = n;
          expires = e;
          attendee = some a;
          signature = sig;
        })
  unfolding payload parts_of
  split-bound t i n e a sig ft fi fn fe fa fs prefixed = simp append_assoc (
      rw (split-four t i n e (a ++ colon ∷ sig) ft fi fn fe)
        (rw (split-part colon a sig fa) (rw (split-free colon sig fs) (rw prefixed))))

-- ===== src/Hashing.antt =====
-- src/services/hashing.py: hashes of personal data, signatures, and the sanitizing of free text.
-- SHA-256 and HMAC-SHA256 are parameters.
pub mod Sanitized
pub mod Blank
use checkin_service.Base.{
  ℕ, ◌≡◌, Bool, true, false, ◌&&◌, ◌||◌, Option, none, some, List, [], ◌∷◌, ◌++◌, All, leb, ltb,
  ◌==◌, length, if◌then◌else◌,
}
use checkin_service.Text.{is_ascii, Text, txt, text_eq, strip, is_empty, take}

-- `hashlib` and `hmac`, by their hexadecimal digests: of a text, and of a key and a text.
pub record Crypto : Type 0 where
  pub sha256 : Text → Text
  pub hmac_sha256 : Text → Text → Text

-- The environment's keys, PII_HMAC_KEY and QR_SIGNING_KEY.
pub record Keys : Type 0 where
  pub pii_hmac_key : Text
  pub qr_signing_key : Text

-- `hmac.compare_digest` of two strings: `none` is the `TypeError` that it raises unless both are ASCII.
unfoldable pub compare_digest : Text → Text → Option Bool
compare_digest a b = if is_ascii a && is_ascii b then some (text_eq a b) else none

module _ (crypto : Crypto) where
  unfoldable pub hash_pii : Keys → Text → Text
  hash_pii keys value = take 16 (crypto.hmac_sha256 keys.pii_hmac_key value)

  unfoldable pub sha256_full : Text → Text
  sha256_full value = crypto.sha256 value

  unfoldable pub hmac_sign : Keys → Text → Text
  hmac_sign keys payload = crypto.hmac_sha256 keys.qr_signing_key payload

  unfoldable pub hmac_verify : Keys → Text → Text → Option Bool
  unfolding hmac_sign compare_digest
  hmac_verify keys payload signature = compare_digest (hmac_sign keys payload) signature

-- the class [\x00-\x08\x0b\x0c\x0e-\x1f\x7f]
unfoldable pub is_control : ℕ → Bool
is_control c = leb c 8 || c == 11 || c == 12 || (leb 14 c && leb c 31) || c == 127

-- `_CONTROL_CHAR_RE.sub("", value)`
unfoldable pub drop_controls : Text → Text
unfolding is_control
drop_controls [] = []
drop_controls (c ∷ s) = let rest = drop_controls s in if is_control c then rest else c ∷ rest

-- `html.escape(…, quote=True)` at one character
unfoldable pub escape_char : ℕ → Text
escape_char c =
    if c == b'&'
    then txt "&amp;"
    else if c == b'<'
    then txt "&lt;"
    else if c == b'>'
    then txt "&gt;"
    else if c == b'"'
    then txt "&quot;"
    else if c == 39
    then txt "&#x27;"
    else c ∷ []

unfoldable pub escape : Text → Text
unfolding escape_char
escape [] = []
escape (c ∷ s) = escape_char c ++ escape s

unfoldable pub sanitize_text : Option Text → ℕ → Option Text
unfolding drop_controls escape
sanitize_text none max_len = none
sanitize_text (some value) max_len =
    let cleaned = strip (drop_controls value) in
    let escaped = escape cleaned in
    if is_empty cleaned
    then none
    else some (if ltb max_len (length escaped) then take max_len escaped else escaped)

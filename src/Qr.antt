-- ===== src/Qr.antt =====
-- src/services/qr_token_service.py and src/routers/qr_tokens.py: minting, verifying and consuming
-- QR tokens. `now` is the time in whole seconds; the nonce is drawn outside.
pub mod Token
pub mod Service
pub mod Split
pub mod Minted
pub mod Consumed

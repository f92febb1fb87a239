-- ===== src/Identity/Crypto.antt =====
-- The cryptography that the program calls: crypto/ed25519 and the encryption package of mpcium.
use aicw_node.Base.{Bool, Option, none, some, if◌then◌else◌, length, ◌==◌, Str}

-- Parsing gives a key or fails; verification is a function of key, message and signature.
pub record Crypto : Type 0 where
  pub ed25519_verify : Str → Str → Str → Bool
  pub ed25519_sign : Str → Str → Str
  pub p256_verify : Str → Str → Str → Bool
  pub parse_ed25519_hex : Str → Option Str
  pub parse_p256_hex : Str → Option Str
  pub parse_p256_base64 : Str → Option Str

-- ed25519.Verify panics, here `none`, on a public key that is not of 32 bytes.
unfoldable pub verify_ed25519 : Crypto → Str → Str → Str → Option Bool
verify_ed25519 c key message sig =
    if length key == 32 then some (c.ed25519_verify key message sig) else none

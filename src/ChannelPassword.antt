-- ===== src/ChannelPassword.antt =====
-- _channel_password_hash and _channel_password_matches of api/app/main.py: the stored form of an
-- intercom channel's password. scrypt, the random salt and the hexadecimal coding are the parameters
-- of `Scrypt`.
pub mod Stored
use ev211_field_server.Base.{
  ℕ, Bool, true, false, Option, none, some, List, [], ◌∷◌, ◌++◌, Text, codes, ◌==◌, nat_eq, text_eq,
  if◌then◌else◌, length, ◌>>=◌,
}

pub record Scrypt : Type 0 where
  -- The derived key of a password and a salt, of a length.
  pub scrypt : Text → Text → ℕ → Text
  pub urandom : Text
  pub hex : Text → Text
  -- `none` is a ValueError.
  pub fromhex : Text → Option Text

-- _SCRYPT_DKLEN
abbrev pub scrypt_dklen : ℕ
scrypt_dklen = 32

-- What stands before the first `$`, and what behind it.
unfoldable pub split_dollar : Text → Option (Text × Text)
split_dollar [] = none
split_dollar (c ∷ s) =
    let rest = split_dollar s in
    if c == b'$'
    then some ([], s)
    else elim rest [ none ↦ none | some (part, tail) ↦ some (c ∷ part, tail) ]

module _ (h : Scrypt) where
  unfoldable pub channel_password_hash : Text → Text
  channel_password_hash password =
      codes "scrypt$"
      ++ (h.hex h.urandom ++ b'$' ∷ h.hex (h.scrypt password h.urandom scrypt_dklen))

  abbrev pub derives : Text → Text → Text → Bool
  derives password salt expected = h.scrypt password salt (length expected) == expected

  -- `none` where the stored text is broken.
  unfoldable pub stored_match : Text → Text → Option Bool
  unfolding split_dollar
  stored_match password stored = do
    (scheme, rest) ← split_dollar stored
    (salt_hex, dk_hex) ← split_dollar rest
    salt ← if scheme == codes "scrypt" then h.fromhex salt_hex else none
    expected ← h.fromhex dk_hex
    some (derives password salt expected)

  abbrev pub or_false : Option Bool → Bool
  or_false none = false
  or_false (some b) = b

  unfoldable pub channel_password_matches : Text → Text → Bool
  unfolding stored_match
  channel_password_matches password stored = or_false (stored_match password stored)

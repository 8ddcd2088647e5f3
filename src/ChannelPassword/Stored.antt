-- ===== src/ChannelPassword/Stored.antt =====
-- Which passwords open an intercom channel.
use ev211_field_server.Base.{
  ℕ, ◌≡◌, refl, false, some, [], ◌∷◌, ◌++◌, Text, ◌==◌, nat_eq, text_eq, text_beq, All, length,
}
use ev211_field_server.ChannelPassword.{
  Scrypt, scrypt_dklen, split_dollar, stored_match, channel_password_hash, channel_password_matches,
}

abbrev pub IsPlain : Text → Type 0
IsPlain t = All (λ c. (c == b'$') ≡ false) t

split_dollar-plain : (s t : Text) → IsPlain s → split_dollar (s ++ b'$' ∷ t) ≡ some (s, t)
unfolding split_dollar
split_dollar-plain [] t h = refl
split_dollar-plain (c ∷ s) t (e, h) = rw (e, split_dollar-plain s t h) refl

-- Where `bytes.fromhex` reads what `hex` writes, `hex` writes no `$` and scrypt derives keys of the
-- length asked for, the stored hash of a password is opened by exactly the passwords that scrypt
-- takes to the same key under the stored salt.
pub matches-hash :
    (h : Scrypt)
    → ((b : Text) → h.fromhex (h.hex b) ≡ some b)
    → ((b : Text) → IsPlain (h.hex b))
    → ((p s : Text) (n : ℕ) → length (h.scrypt p s n) ≡ n)
    → (password attempt : Text)
    → channel_password_matches h attempt (channel_password_hash h password)
      ≡ (h.scrypt attempt h.urandom scrypt_dklen == h.scrypt password h.urandom scrypt_dklen)
unfolding channel_password_matches channel_password_hash stored_match split_dollar text_beq
matches-hash h reads plain sized password attempt =
    let key = h.scrypt password h.urandom scrypt_dklen in
    rw
      (
        split_dollar-plain (h.hex h.urandom) (h.hex key) (plain h.urandom),
        reads h.urandom,
        reads key,
        sized password h.urandom scrypt_dklen,
      )
      refl

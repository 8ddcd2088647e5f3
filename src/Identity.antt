-- ===== src/Identity.antt =====
-- api/app/identity.py, and the identity that db.py writes into a lease.
pub mod RoundTrip
pub mod Roles
use ev211_field_server.Base.{
  ℕ, ◌+◌, ◌*◌, ◌≡◌, ◌<◌, Bool, true, false, ◌&&◌, ◌||◌, Option, none, some, List, [], ◌∷◌, ◌++◌,
  Text, codes, ◌==◌, nat_eq, leb, if◌then◌else◌, ◌>>=◌,
}
use ev211_field_server.Base.Decimal.{decimal, two_digits}

-- The decimal digits of Unicode, which `\d` matches and `int` reads.
pub record Digits : Type 0 where
  pub digit_value : ℕ → Option ℕ
  pub ascii : (d : ℕ) → d < 10 → digit_value (48 + d) ≡ some d
  pub dash : digit_value b'-' ≡ none

pub record SpeakerIdentity : Type 0 where
  pub channel_id : ℕ
  pub epoch : ℕ
  pub generation : ℕ
  pub nonce : Text
  pub raw : Text

unfoldable pub speaker_identity : ℕ → ℕ → ℕ → Text → Text
speaker_identity channel_id epoch generation nonce =
    codes "speaker-ch-"
    ++ (two_digits channel_id
        ++ (codes "-e"
            ++ (decimal epoch ++ (codes "-g" ++ (decimal generation ++ (codes "-n" ++ nonce))))))

-- The rest of a text behind a literal of the pattern.
unfoldable pub strip : Text → Text → Option Text
strip [] s = some s
strip (p ∷ ps) [] = none
strip (p ∷ ps) (c ∷ s) = if c == p then strip ps s else none

unfoldable pub is_alnum : ℕ → Bool
is_alnum c = (leb b'A' c && leb c b'Z') || (leb b'a' c && leb c b'z') || (leb b'0' c && leb c b'9')

-- The longest run of letters and digits, and what follows it.
unfoldable pub alnum_run : Text → Text × Text
unfolding is_alnum
alnum_run [] = ([], [])
alnum_run (c ∷ s) =
    let (run, rest) = alnum_run s in if is_alnum c then (c ∷ run, rest) else ([], c ∷ s)

-- `$` matches at the end and before a newline that ends the text.
unfoldable pub at_end : Text → Bool
at_end [] = true
at_end (c ∷ []) = c == 10
at_end (c ∷ d ∷ s) = false

unfoldable pub nonce_of : Text × Text → Option Text
unfolding at_end
nonce_of ([], rest) = none
nonce_of (c ∷ run, rest) = if at_end rest then some (c ∷ run) else none

unfoldable pub starts_with : Text → Text → Bool
unfolding strip
starts_with prefix s = elim (strip prefix s) [ none ↦ false | some _ ↦ true ]

unfoldable pub is_monitor_identity : Text → Bool
unfolding starts_with
is_monitor_identity = starts_with (codes "monitor-")

unfoldable pub is_listener_identity : Text → Bool
unfolding starts_with
is_listener_identity = starts_with (codes "listener-")

unfoldable pub is_intercom_identity : Text → Bool
unfolding starts_with
is_intercom_identity = starts_with (codes "intercom-")

module _ (u : Digits) where
  -- `\d`
  unfoldable pub one_digit : Text → Option (ℕ × Text)
  one_digit [] = none
  one_digit (c ∷ s) = elim (u.digit_value c) [ none ↦ none | some d ↦ some (d, s) ]

  -- `\d+`, read by `int`; the flag says that a digit has been seen.
  unfoldable pub number : ℕ → Bool → Text → Option (ℕ × Text)
  number n seen [] = if seen then some (n, []) else none
  number n seen (c ∷ s) = elim (u.digit_value c) [
    | none ↦ if seen then some (n, c ∷ s) else none
    | some d ↦ number (n * 10 + d) true s
  ]

  unfoldable pub parse_speaker_identity : Text → Option SpeakerIdentity
  unfolding strip
  parse_speaker_identity identity = do
    s₀ ← strip (codes "speaker-ch-") identity
    (tens, s₁) ← one_digit s₀
    (ones, s₂) ← one_digit s₁
    s₃ ← strip (codes "-e") s₂
    (epoch, s₄) ← number 0 false s₃
    s₅ ← strip (codes "-g") s₄
    (generation, s₆) ← number 0 false s₅
    s₇ ← strip (codes "-n") s₆
    nonce ← nonce_of (alnum_run s₇)
    some (record {
      channel_id = tens * 10 + ones;
      epoch = epoch;
      generation = generation;
      nonce = nonce;
      raw = identity;
    })

-- ===== src/SilenceGate.antt =====
-- api/app/translate_worker.py: SilenceGate, which keeps silence from the translation service.
-- `loud` is the test `pcm_rms(pcm) >= threshold`, a parameter, since it computes in floats; the two
-- windows are the byte counts that the constructor makes of the seconds. A chunk is its bytes.
pub mod Accounts
pub mod Speech
use ev211_field_server.Base.{
  ℕ, suc, ◌+◌, ◌-◌, Bool, true, false, not, List, [], ◌∷◌, ◌++◌, length, ltb, if◌then◌else◌,
}

abbrev pub Pcm : Type 0
Pcm = List ℕ

pub record Settings : Type 0 where
  pub enabled : Bool
  pub loud : Pcm → Bool
  pub hangover_bytes : ℕ
  pub prebuffer_max_bytes : ℕ

pub record SilenceGate : Type 0 where
  pub is_open : Bool
  pub closes : ℕ
  pub sent_bytes : ℕ
  pub gated_bytes : ℕ
  pub silence_bytes : ℕ
  pub prebuffer : List Pcm
  pub prebuffer_bytes : ℕ

-- A gate starts open.
unfoldable pub new_gate : SilenceGate
new_gate = record {
  is_open = true;
  closes = 0;
  sent_bytes = 0;
  gated_bytes = 0;
  silence_bytes = 0;
  prebuffer = [];
  prebuffer_bytes = 0;
}

-- `while prebuffer and prebuffer_bytes > max: prebuffer_bytes -= len(prebuffer.popleft())`
unfoldable pub trim : ℕ → List Pcm → ℕ → List Pcm × ℕ
trim max [] bytes = ([], bytes)
trim max (p ∷ q) bytes =
    let rest = trim max q (bytes - length p) in if ltb max bytes then rest else (p ∷ q, bytes)

module _ (c : Settings) where
  -- `_buffer`
  unfoldable pub buffer : Pcm → SilenceGate → SilenceGate
  buffer pcm g =
      let (kept, bytes) =
        trim c.prebuffer_max_bytes (g.prebuffer ++ pcm ∷ []) (g.prebuffer_bytes + length pcm) in
      record g {
        gated_bytes = g.gated_bytes + length pcm;
        prebuffer = kept;
        prebuffer_bytes = bytes;
      }

  abbrev pub pass : Pcm → SilenceGate → List Pcm × SilenceGate
  pass pcm g = (pcm ∷ [], record g { sent_bytes = g.sent_bytes + length pcm })

  abbrev pub closed : SilenceGate → SilenceGate
  closed g = record g {
    is_open = false;
    closes = suc g.closes;
    prebuffer = [];
    prebuffer_bytes = 0;
  }

  unfoldable pub feed_open : Pcm → SilenceGate → List Pcm × SilenceGate
  feed_open pcm g =
      let silence = g.silence_bytes + length pcm in
      if c.loud pcm
      then pass pcm (record g { silence_bytes = 0 })
      else if ltb silence c.hangover_bytes
      then pass pcm (record g { silence_bytes = silence })
      else ([], buffer pcm (closed (record g { silence_bytes = silence })))

  unfoldable pub feed_closed : Pcm → SilenceGate → List Pcm × SilenceGate
  feed_closed pcm g = if not (c.loud pcm) then ([], buffer pcm g) else (
    g.prebuffer ++ pcm ∷ [],
    record g {
      is_open = true;
      silence_bytes = 0;
      gated_bytes = g.gated_bytes - g.prebuffer_bytes;
      sent_bytes = g.sent_bytes + (g.prebuffer_bytes + length pcm);
      prebuffer = [];
      prebuffer_bytes = 0;
    },
  )

  -- The chunks to send on, in their order.
  unfoldable pub feed : Pcm → SilenceGate → List Pcm × SilenceGate
  feed [] g = ([], g)
  feed (b ∷ bs) g =
      if not c.enabled
      then pass (b ∷ bs) g
      else if g.is_open
      then feed_open (b ∷ bs) g
      else feed_closed (b ∷ bs) g

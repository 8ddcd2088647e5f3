-- ===== src/Examples/Workers.antt =====
-- Tests of the silence gate and of the utterance numbers.
use ev211_field_server.Base.{
  ℕ, ◌≡◌, ◌≤◌, ◌+◌, refl, Bool, true, none, List, [], ◌∷◌, codes, keep, any, ltb, ◌==◌, nat_eq,
  text_eq,
}
use ev211_field_server.SilenceGate.{Pcm, Settings, new_gate}
use ev211_field_server.SilenceGate.Accounts.{feed_all, total, gate_accounts}
use ev211_field_server.SilenceGate.Speech.{speech_passes}
use ev211_field_server.Utterances.Numbering.{Delta, ids_of, of_kind, IsNumbered, ids_of-IsNumbered}
use ev211_field_server.Examples.Program.{whole_program}

-- Sound is any byte above 9; silence of more than a byte closes the gate.
abbrev settings : Settings
settings = record {
  enabled = true;
  loud = λ p. any (λ b. ltb 9 b) p;
  hangover_bytes = 2;
  prebuffer_max_bytes = 3;
}

-- Sound, silence, sound.
abbrev chunks : List Pcm
chunks = (50 ∷ 1 ∷ []) ∷ (1 ∷ 2 ∷ []) ∷ (3 ∷ 4 ∷ []) ∷ (5 ∷ 60 ∷ []) ∷ []

gate_accounts_example :
    ((feed_all settings chunks new_gate).1.sent_bytes ≡ total (feed_all settings chunks new_gate).0)
    × ((feed_all settings chunks new_gate).1.sent_bytes
          + (feed_all settings chunks new_gate).1.gated_bytes
        ≡ total chunks)
    × (total (feed_all settings chunks new_gate).1.prebuffer ≤ 3)
unfolding whole_program
gate_accounts_example = gate_accounts settings chunks

speech_passes_example :
    keep settings.loud (feed_all settings chunks new_gate).0 ≡ keep settings.loud chunks
unfolding whole_program
speech_passes_example = speech_passes settings chunks refl

abbrev is_blank : ℕ → Bool
is_blank c = c == 32

abbrev stream : List Delta
stream =
    record { kind = codes "source"; text = codes "Hello. "; time = 1 }
    ∷ record { kind = codes "target"; text = codes "Hal"; time = 2 }
    ∷ record { kind = codes "source"; text = codes "You"; time = 3 }
    ∷ []

ids_of-IsNumbered_example :
    IsNumbered is_blank 8
      (codes ".")
      none
      (of_kind is_blank 8 (codes ".") (codes "source") stream)
      (ids_of is_blank 8 (codes ".") (codes "source") stream [])
unfolding whole_program
ids_of-IsNumbered_example = ids_of-IsNumbered is_blank 8 (codes ".") (codes "source") stream

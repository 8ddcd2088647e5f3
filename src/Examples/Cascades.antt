-- ===== src/Examples/Cascades.antt =====
-- Tests of the cascade, of a worker's waits, of the stored passwords and of the settings.
use Prim.Native.Nat.{min}
use mathlib.Core.Path.{ap₂}
use ev211_field_server.Base.{
  ℕ, zero, suc, length, ap, nat_eq, nat_beq_iff, ◌||◌, ◌≡◌, ◌⊎◌, ◌↔◌, ◌≤◌, ◌+◌, ◌-◌, refl, true,
  false, ◌==◌, text_eq, Option, none, some, List, [], ◌∷◌, Text, codes, All, arith, if◌then◌else◌,
}
use ev211_field_server.Database.Rows.{Database, ChannelRow, ai}
use ev211_field_server.State.{AppState}
use ev211_field_server.Cascade.{is_in, ai_source_cycle, close_dependent_ai_channels}
use ev211_field_server.Cascade.Levels.{depends}
use ev211_field_server.Cascade.Exact.{DependsOn, cascade_exact}
use ev211_field_server.Cascade.Chains.{Ends, ai_source_cycle_decides}
use ev211_field_server.Supervisor.{RunEnd, Round, supervise, new_supervision}
use ev211_field_server.Supervisor.Backoff.{crashes, times_two, waits_bounded}
use ev211_field_server.ChannelPassword.{
  Scrypt, scrypt_dklen, channel_password_hash, channel_password_matches,
}
use ev211_field_server.ChannelPassword.Stored.{IsPlain, matches-hash}
use ev211_field_server.Config.{Reading, natural, Loaded}
use ev211_field_server.Config.Safe.{IsSafe, loaded-IsSafe}
use ev211_field_server.Site.{password}
use ev211_field_server.Examples.Program.{whole_program}
use ev211_field_server.Examples.Fixtures.{world_one, state_one, db_one, channel_row}

-- Channel 101 translates channel 1, and channel 102 channel 101.
abbrev translation : ℕ → ChannelRow
translation k = record channel_row { source = ai; source_channel = some k }

abbrev chained_db : Database
chained_db = record db_one {
  channels = (1, channel_row) ∷ (101, translation 1) ∷ (102, translation 101) ∷ [];
}

abbrev chained : AppState
chained = record state_one { db = chained_db }

cascade_exact_example :
    (ids : List ℕ) × (t : AppState) × (close_dependent_ai_channels world_one 10 1 chained
      ≡ some (ids, t))
    × ((j : ℕ) → (is_in ids j ≡ true) ↔ DependsOn chained 1 j)
    × ((j : ℕ) → depends (1 ∷ ids) t j ≡ false)
unfolding whole_program
cascade_exact_example = cascade_exact world_one 10 1 chained

ai_source_cycle_decides_example :
    (ai_source_cycle chained_db 103 102 ≡ some true)
    ⊎ ((ai_source_cycle chained_db 103 102 ≡ some false) × Ends chained_db 103 (some 102))
unfolding whole_program
ai_source_cycle_decides_example = ai_source_cycle_decides chained_db 103 102

waits_bounded_example :
    ((es : List RunEnd)
      → All
          (λ (r : Round). r.waited ≤ 30000000)
          (supervise 1000000 30000000 es (new_supervision 1000000 30000000)).0)
    × ((n : ℕ)
        → (supervise 1000000 30000000 (crashes n) (new_supervision 1000000 30000000)).1.backoff
          ≡ min 30000000 (times_two n 1000000))
unfolding whole_program
waits_bounded_example = waits_bounded 1000000 30000000 (omega arith)

-- A coding that raises each byte, with its inverse, and a key that repeats the password's length.
abbrev raise : Text → Text
raise [] = []
raise (c ∷ t) = (c + 37) ∷ raise t

abbrev lower_all : Text → Text
lower_all [] = []
lower_all (c ∷ t) = (c - 37) ∷ lower_all t

abbrev repeat : ℕ → ℕ → Text
repeat c zero = []
repeat c (suc n) = c ∷ repeat c n

abbrev toy_scrypt : Scrypt
toy_scrypt = record {
  scrypt = λ p s n. repeat (length p) n;
  urandom = codes "xy";
  hex = raise;
  fromhex = λ t. some (lower_all t);
}

lower_all-raise : (t : Text) → lower_all (raise t) ≡ t
lower_all-raise [] = refl
lower_all-raise (c ∷ t) = ap₂ ◌∷◌ (omega arith) (lower_all-raise t)

raise-IsPlain : (t : Text) → IsPlain (raise t)
raise-IsPlain [] = tt
raise-IsPlain (c ∷ t) = (ground (arith, nat_beq_iff (c + 37) b'$'), raise-IsPlain t)

length-repeat : (c n : ℕ) → length (repeat c n) ≡ n
length-repeat c zero = refl
length-repeat c (suc n) = ap suc (length-repeat c n)

matches-hash_example :
    channel_password_matches toy_scrypt
      (codes "abc")
      (channel_password_hash toy_scrypt (codes "abd"))
    ≡ (toy_scrypt.scrypt (codes "abc") toy_scrypt.urandom scrypt_dklen
        == toy_scrypt.scrypt (codes "abd") toy_scrypt.urandom scrypt_dklen)
unfolding whole_program
matches-hash_example =
    matches-hash toy_scrypt (λ b. ap some (lower_all-raise b)) raise-IsPlain
      (λ p s n. length-repeat (length p) n) (codes "abd") (codes "abc")

abbrev reading_one : Reading
reading_one = record { strip = λ t. t; lower = λ t. t; int = λ t. some (natural (length t)) }

abbrev environment : Text → Option Text
environment key =
    if key == codes "FIELD_SEND_PASSWORD"
    then some (codes "p1")
    else if key == codes "FIELD_ADMIN_PASSWORD"
    then some (codes "p2")
    else if key == codes "LIVEKIT_API_KEY" || key == codes "LIVEKIT_API_SECRET"
    then some (codes "k")
    else if key == codes "FIELD_INTERCOM_MAX"
    then some (codes "+7")
    else none

abbrev settings_one : Loaded
settings_one = record {
  livekit_api_key = codes "k";
  livekit_api_secret = codes "k";
  livekit_host = codes "http://livekit:7880";
  livekit_rtc_url = codes "ws://livekit:7880";
  ws_url = codes "ws://127.0.0.1:7880";
  send_password = codes "p1";
  admin_password = codes "p2";
  db_path = codes "/data/field.db";
  recordings_path = codes "/data/recordings";
  max_channels = 15;
  forwarded_allow_ips = codes "127.0.0.1,::1,10.0.0.0/8,172.16.0.0/12,192.168.0.0/16";
  openai_api_key = [];
  intercom_max = 2;
  send_auth_mode = password;
  ev211_api_base = [];
  field_callback_secret = [];
}

loaded-IsSafe_example : IsSafe reading_one settings_one
unfolding whole_program
loaded-IsSafe_example = loaded-IsSafe reading_one environment settings_one refl

-- ===== src/Supervisor.antt =====
-- _supervise of AiTranslateChannel in api/app/translate_worker.py: the runs of a worker and the waits
-- between them. How a run ends is its input; times are microseconds.
pub mod Backoff
use Prim.Native.Nat.{min}
use ev211_field_server.Base.{ℕ, ◌+◌, ◌*◌, Bool, true, false, List, [], ◌∷◌, if◌then◌else◌}

pub data RunEnd : Type 0 where
  clean crashed : RunEnd

pub record Supervision : Type 0 where
  pub backoff : ℕ
  -- The first run keeps the token that the channel was opened with.
  pub first : Bool
  pub restart_count : ℕ

-- What one round does: whether the run asks for a fresh token, and the wait behind it.
pub record Round : Type 0 where
  pub fresh_token : Bool
  pub waited : ℕ

module _ (backoff_base max_backoff : ℕ) where
  abbrev pub new_supervision : Supervision
  new_supervision = record { backoff = backoff_base; first = true; restart_count = 0 }

  abbrev pub ended : RunEnd → Supervision → Supervision
  ended clean s = record s { backoff = backoff_base }
  ended crashed s = record s { restart_count = s.restart_count + 1 }

  unfoldable pub round : RunEnd → Supervision → Round × Supervision
  round e s =
      let t = ended e s in
      (
        record { fresh_token = if s.first then false else true; waited = t.backoff },
        record t { first = false; backoff = min max_backoff (t.backoff * 2) },
      )

  -- The rounds of a channel whose runs end as listed.
  unfoldable pub supervise : List RunEnd → Supervision → List Round × Supervision
  unfolding round
  supervise [] s = ([], s)
  supervise (e ∷ es) s = let (r, s') = round e s in let (rs, s'') = supervise es s' in (r ∷ rs, s'')

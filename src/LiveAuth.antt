-- ===== src/LiveAuth.antt =====
-- api/app/live_auth.py: the check of live passwords with its cache of positive answers. The callback
-- `_call_verify`, white space and `str.upper` are parameters; a check starts at time `now`, and its
-- callback has answered by the time `answered`. Two checks at once are not modelled.
pub mod Fresh
use ev211_field_server.Base.{
  ℕ, ◌+◌, Bool, true, false, ◌&&◌, ◌||◌, Option, none, some, List, [], ◌∷◌, Text, ◌==◌, nat_eq,
  text_eq, ltb, leb, if◌then◌else◌, keep, length, seconds,
}
use ev211_field_server.State.{is_empty_text}
use ev211_field_server.Utterances.{rstrip}

abbrev pub cache_ttl_seconds : ℕ
cache_ttl_seconds = 300

abbrev pub cache_max_entries : ℕ
cache_max_entries = 1024

-- A pair of join code and password with the time at which it expires.
abbrev pub Entry : Type 0
Entry = (Text × Text) × ℕ

abbrev pub same_pair : Text × Text → Text × Text → Bool
same_pair p q = p.0 == q.0 && p.1 == q.1

-- `token.split(":", 1)`; `none` is a token without a colon.
unfoldable pub split_colon : Text → Option (Text × Text)
split_colon [] = none
split_colon (c ∷ s) =
    let rest = split_colon s in
    if c == b':'
    then some ([], s)
    else elim rest [ none ↦ none | some (code, password) ↦ some (c ∷ code, password) ]

unfoldable pub expires : List Entry → Text × Text → Option ℕ
expires [] p = none
expires ((q, e) ∷ cache) p = if same_pair q p then some e else expires cache p

unfoldable pub store : List Entry → Text × Text → ℕ → List Entry
store [] p e = (p, e) ∷ []
store ((q, d) ∷ cache) p e = if same_pair q p then (p, e) ∷ cache else (q, d) ∷ store cache p e

-- Past the maximum, the expired entries go.
unfoldable pub trimmed : ℕ → List Entry → List Entry
trimmed now cache =
    if leb cache_max_entries (length cache) then keep (λ (r : Entry). ltb now r.1) cache else cache

abbrev pub is_fresh : ℕ → Option ℕ → Bool
is_fresh now none = false
is_fresh now (some e) = ltb now e

module _ (is_space : ℕ → Bool) (upper : Text → Text) where
  unfoldable pub stripped : Text → Text
  stripped [] = []
  stripped (c ∷ s) = let rest = stripped s in if is_space c then rest else rstrip is_space (c ∷ s)

  abbrev pub nonempty_pair : Text → Text → Option (Text × Text)
  nonempty_pair code password =
      if is_empty_text code || is_empty_text password then none else some (code, password)

  abbrev pub cleaned : Option (Text × Text) → Option (Text × Text)
  cleaned none = none
  cleaned (some (code, password)) = nonempty_pair (upper (stripped code)) (stripped password)

  unfoldable pub split_bearer : Option Text → Option (Text × Text)
  split_bearer none = none
  split_bearer (some token) = cleaned (split_colon token)

module _ (is_space : ℕ → Bool) (upper : Text → Text) (call_verify : Text → Text → Bool) where
  abbrev pub called : ℕ → ℕ → Text × Text → List Entry → Bool × List Entry
  called now answered p cache =
      if call_verify p.0 p.1
      then (true, store (trimmed now cache) p (answered + seconds cache_ttl_seconds))
      else (false, cache)

  abbrev pub verify_pair : ℕ → ℕ → Option (Text × Text) → List Entry → Bool × List Entry
  verify_pair now answered none cache = (false, cache)
  verify_pair now answered (some p) cache =
      if is_fresh now (expires cache p) then (true, cache) else called now answered p cache

  unfoldable pub verify : ℕ → ℕ → Option Text → List Entry → Bool × List Entry
  verify now answered token cache =
      verify_pair now answered (split_bearer is_space upper token) cache

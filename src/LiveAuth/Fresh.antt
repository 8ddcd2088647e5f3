-- ===== src/LiveAuth/Fresh.antt =====
-- A positive answer is at most five minutes old.
use ev211_field_server.Base.{
  ℕ, ◌+◌, ◌≡◌, refl, ap, Bool, true, false, ◌&&◌, Option, none, some, List, [], ◌∷◌, Text, ◌==◌,
  nat_eq, text_eq, text_beq_iff, ltb, leb, if◌then◌else◌, keep, any, All, length, seconds,
  Bool-cases, Option-cases, ◌≤◌, inl, inr, arith,
}
use ev211_field_server.LiveAuth.{
  Entry, same_pair, expires, store, trimmed, is_fresh, split_bearer, verify_pair, verify,
  cache_ttl_seconds,
}

-- One check: its times, its token, and what the callback would answer then.
pub record Check : Type 0 where
  pub now : ℕ
  pub answered : ℕ
  pub token : Option Text
  pub call_verify : Text → Text → Bool

same_pair-eq : (p q : Text × Text) → same_pair p q ≡ true → p ≡ q
same_pair-eq (a, b) (c, d) h = ground (arith, h, text_beq_iff a c, text_beq_iff b d)

module _ (is_space : ℕ → Bool) (upper : Text → Text) where
  abbrev pub verify_once : Check → List Entry → Bool × List Entry
  verify_once c cache = verify is_space upper c.call_verify c.now c.answered c.token cache

  unfoldable pub cache_after : List Check → List Entry
  cache_after [] = []
  cache_after (c ∷ earlier) = (verify_once c (cache_after earlier)).1

  abbrev pub is_asked : Text × Text → Check → Bool
  is_asked p c = elim (split_bearer is_space upper c.token) [
    | none ↦ false
    | some q ↦ same_pair q p
  ]

  -- The check asked for this pair, the callback confirmed it, and five minutes have not passed.
  abbrev pub confirms : Text × Text → ℕ → Check → Bool
  confirms p now c =
      (is_asked p c && c.call_verify p.0 p.1) && ltb now (c.answered + seconds cache_ttl_seconds)

  abbrev confirms_until : Text × Text → ℕ → Check → Bool
  confirms_until p e c =
      (is_asked p c && c.call_verify p.0 p.1) && (c.answered + seconds cache_ttl_seconds == e)

  -- Every entry goes back to a check that the callback confirmed.
  abbrev IsBacked : List Check → List Entry → Type 0
  IsBacked log cache = All (λ (r : Entry). any (confirms_until r.0 r.1) log ≡ true) cache

  later-IsBacked :
      (c : Check) (log : List Check) (cache : List Entry)
      → IsBacked log cache
      → IsBacked (c ∷ log) cache
  later-IsBacked c log [] h = tt
  later-IsBacked c log (r ∷ cache) (here, h) = (ground (arith, here), later-IsBacked c log cache h)

  keep-IsBacked :
      (test : Entry → Bool) (log : List Check) (cache : List Entry)
      → IsBacked log cache
      → IsBacked log (keep test cache)
  keep-IsBacked test log [] h = tt
  keep-IsBacked test log (r ∷ cache) (here, h) = elim (Bool-cases (test r)) [
    | inl kept ↦ rw (kept, keep) (here, keep-IsBacked test log cache h)
    | inr gone ↦ rw (gone, keep) (keep-IsBacked test log cache h)
  ]

  store-IsBacked :
      (log : List Check) (cache : List Entry) (p : Text × Text) (e : ℕ)
      → any (confirms_until p e) log ≡ true
      → IsBacked log cache
      → IsBacked log (store cache p e)
  unfolding store
  store-IsBacked log [] p e backed h = (backed, tt)
  store-IsBacked log ((q, d) ∷ cache) p e backed (here, h) = elim (Bool-cases (same_pair q p)) [
    | inl same ↦ rw (same, store) (backed, h)
    | inr other ↦ rw (other, store) (here, store-IsBacked log cache p e backed h)
  ]

  abbrev value_or : ℕ → Option ℕ → ℕ
  value_or d none = d
  value_or d (some x) = x

  found_branch :
      (log : List Check) (q p : Text × Text) (d e : ℕ) (rest : Option ℕ) (b : Bool)
      → same_pair q p ≡ b
      → any (confirms_until q d) log ≡ true
      → (rest ≡ some e → any (confirms_until p e) log ≡ true)
      → (if b then some d else rest) ≡ some e
      → any (confirms_until p e) log ≡ true
  found_branch log q p d e rest true same here later found =
      rw⁻¹ (same_pair-eq q p same) (rw⁻¹ (ap (value_or d) found) here)
  found_branch log q p d e rest false other here later found = later found

  found_backed :
      (log : List Check) (cache : List Entry) (p : Text × Text) (e : ℕ)
      → IsBacked log cache
      → expires cache p ≡ some e
      → any (confirms_until p e) log ≡ true
  unfolding expires
  found_backed log [] p e h found = cc
  found_backed log ((q, d) ∷ cache) p e (here, h) found =
      found_branch log q p d e (expires cache p) (same_pair q p) refl here
        (found_backed log cache p e h) found

  still_confirms :
      (p : Text × Text) (now e : ℕ) (log : List Check)
      → ltb now e ≡ true
      → any (confirms_until p e) log ≡ true
      → any (confirms p now) log ≡ true
  still_confirms p now e [] fresh h = cc
  still_confirms p now e (c ∷ log) fresh h =
      ground (arith, fresh, h, still_confirms p now e log fresh)

  trimmed-IsBacked :
      (now : ℕ) (log : List Check) (cache : List Entry)
      → IsBacked log cache
      → IsBacked log (trimmed now cache)
  unfolding trimmed
  trimmed-IsBacked now log cache h = elim (Bool-cases (leb 1024 (length cache))) [
    | inl full ↦ rw full (keep-IsBacked (λ (r : Entry). ltb now r.1) log cache h)
    | inr room ↦ rw room h
  ]

  asked_pair :
      (c : Check) (p : Text × Text)
      → split_bearer is_space upper c.token ≡ some p
      → is_asked p c ≡ true
  asked_pair c p asked =
      rw (asked, is_asked) (ground (arith, text_beq_iff p.0 p.0, text_beq_iff p.1 p.1))

  own_backed :
      (c : Check) (log : List Check) (p : Text × Text)
      → is_asked p c ≡ true
      → c.call_verify p.0 p.1 ≡ true
      → any (confirms_until p (c.answered + seconds cache_ttl_seconds)) (c ∷ log) ≡ true
  own_backed c log p asked confirmed = ground (arith, asked, confirmed)

  -- What one check does for the pair of its token.
  pair-IsBacked :
      (c : Check) (log : List Check) (p : Text × Text) (cache : List Entry)
      → split_bearer is_space upper c.token ≡ some p
      → IsBacked log cache
      → IsBacked
          (c ∷ log)
          (verify_pair is_space upper c.call_verify c.now c.answered (some p) cache).1
  pair-IsBacked c log p cache asked h = elim (Bool-cases (is_fresh c.now (expires cache p))) [
    | inl fresh ↦ rw fresh (later-IsBacked c log cache h)
    | inr old ↦ elim (Bool-cases (c.call_verify p.0 p.1)) [
      | inl confirmed ↦
          rw (old, confirmed)
            (store-IsBacked (c ∷ log) (trimmed c.now cache) p _
              (own_backed c log p (asked_pair c p asked) confirmed)
              (later-IsBacked c log (trimmed c.now cache) (trimmed-IsBacked c.now log cache h)))
      | inr denied ↦ rw (old, denied) (later-IsBacked c log cache h)
    ]
  ]

  option-IsBacked :
      (c : Check) (log : List Check) (o : Option (Text × Text)) (cache : List Entry)
      → split_bearer is_space upper c.token ≡ o
      → IsBacked log cache
      → IsBacked (c ∷ log) (verify_pair is_space upper c.call_verify c.now c.answered o cache).1
  option-IsBacked c log none cache asked h = later-IsBacked c log cache h
  option-IsBacked c log (some p) cache asked h = pair-IsBacked c log p cache asked h

  cache_after-IsBacked : (log : List Check) → IsBacked log (cache_after log)
  unfolding cache_after verify
  cache_after-IsBacked [] = tt
  cache_after-IsBacked (c ∷ log) =
      option-IsBacked c log (split_bearer is_space upper c.token) (cache_after log) refl
        (cache_after-IsBacked log)

  option_recent :
      (c : Check) (log : List Check) (o : Option (Text × Text)) (cache : List Entry)
      → split_bearer is_space upper c.token ≡ o
      → c.now ≤ c.answered
      → IsBacked log cache
      → (verify_pair is_space upper c.call_verify c.now c.answered o cache).0 ≡ true
      → (p : Text × Text) × (o ≡ some p) × (any (confirms p c.now) (c ∷ log) ≡ true)
  option_recent c log none cache asked order h ok = cc
  option_recent c log (some p) cache asked order h ok = (
    p,
    refl,
    elim (Option-cases (expires cache p)) [
      | inl absent ↦ ground (arith, absent, ok, order, asked_pair c p asked)
      | inr (e, found) ↦ ground (
        arith,
        found,
        ok,
        order,
        asked_pair c p asked,
        still_confirms p c.now e log,
        found_backed log cache p e h found,
      )
    ],
  )

  -- A check whose callback answers no earlier than it starts, and that answers true behind any
  -- earlier checks, is of a pair that the callback confirmed, in this check or an earlier one, with
  -- an answer that is less than five minutes old when the check starts.
  pub verified_recently :
      (c : Check) (earlier : List Check)
      → c.now ≤ c.answered
      → (verify_once c (cache_after earlier)).0 ≡ true
      → (p : Text × Text) × (split_bearer is_space upper c.token ≡ some p)
        × (any (confirms p c.now) (c ∷ earlier) ≡ true)
  unfolding verify
  verified_recently c earlier order ok =
      option_recent c earlier (split_bearer is_space upper c.token) (cache_after earlier) refl order
        (cache_after-IsBacked earlier) ok

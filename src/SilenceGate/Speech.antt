-- ===== src/SilenceGate/Speech.antt =====
-- A gate lets all speech through.
use ev211_field_server.Base.{
  ◌∙◌, ap, sym, ℕ, ◌+◌, ◌-◌, ◌≡◌, refl, Bool, false, List, [], ◌∷◌, ◌++◌, length, keep, arith,
}
use ev211_field_server.SilenceGate.{
  Pcm, Settings, SilenceGate, new_gate, closed, trim, buffer, feed_open, feed_closed, feed,
}
use ev211_field_server.SilenceGate.Accounts.{feed_all}

keep-append :
    {A : Type 0} (f : A → Bool) (xs ys : List A) → keep f (xs ++ ys) ≡ keep f xs ++ keep f ys
keep-append f [] ys = refl
keep-append f (x ∷ xs) ys = ground (arith, keep-append f xs ys)

module _ (c : Settings) where
  -- The prebuffer holds no speech.
  abbrev IsQuiet : SilenceGate → Type 0
  IsQuiet g = keep c.loud g.prebuffer ≡ []

  trim_quiet :
      (max : ℕ) (q : List Pcm) (bytes : ℕ)
      → keep c.loud q ≡ []
      → keep c.loud (trim max q bytes).0 ≡ []
  unfolding trim
  trim_quiet max [] bytes h = refl
  trim_quiet max (p ∷ q) bytes h = ground (arith, h, trim_quiet max q (bytes - length p))

  buffer-IsQuiet :
      (p : Pcm) (g : SilenceGate) → c.loud p ≡ false → IsQuiet g → IsQuiet (buffer c p g)
  unfolding buffer
  buffer-IsQuiet p g quiet h =
      trim_quiet c.prebuffer_max_bytes (g.prebuffer ++ p ∷ []) (g.prebuffer_bytes + length p)
        (ground (arith, keep-append c.loud g.prebuffer (p ∷ []), h, quiet))

  feed_loud :
      (p : Pcm) (g : SilenceGate)
      → c.loud [] ≡ false
      → IsQuiet g
      → (keep c.loud (feed c p g).0 ≡ keep c.loud (p ∷ [])) × IsQuiet (feed c p g).1
  unfolding feed feed_open feed_closed
  feed_loud [] g none_loud h = ground (arith, none_loud, h)
  feed_loud (b ∷ bs) g none_loud h = ground (
    arith,
    h,
    keep-append c.loud g.prebuffer ((b ∷ bs) ∷ []),
    buffer-IsQuiet (b ∷ bs) g,
    buffer-IsQuiet (b ∷ bs)
        (closed c (record g { silence_bytes = g.silence_bytes + length (b ∷ bs) })),
  )

  all_loud :
      (ps : List Pcm) (g : SilenceGate)
      → c.loud [] ≡ false
      → IsQuiet g
      → keep c.loud (feed_all c ps g).0 ≡ keep c.loud ps
  all_loud [] g none_loud h = refl
  all_loud (p ∷ ps) g none_loud h =
      let (loud, quiet) = feed_loud p g none_loud h in
      let more = all_loud ps (feed c p g).1 none_loud quiet in
      keep-append c.loud (feed c p g).0 (feed_all c ps (feed c p g).1).0
      ∙ ap (λ sent. sent ++ keep c.loud (feed_all c ps (feed c p g).1).0) loud
      ∙ ap (λ rest. keep c.loud (p ∷ []) ++ rest) more
      ∙ sym (keep-append c.loud (p ∷ []) ps)

  -- Where an empty chunk is no sound, the chunks of sound that a new gate lets through are all that
  -- were fed to it, in their order.
  pub speech_passes :
      (ps : List Pcm) → c.loud [] ≡ false → keep c.loud (feed_all c ps new_gate).0 ≡ keep c.loud ps
  unfolding new_gate
  speech_passes ps none_loud = all_loud ps new_gate none_loud refl

-- ===== src/SilenceGate/Accounts.antt =====
-- What a gate sends of the chunks that are fed to it, and what it counts.
use ev211_field_server.Base.{
  ℕ, ◌+◌, ◌-◌, ◌≤◌, ◌≡◌, refl, List, [], ◌∷◌, ◌++◌, length, ltb, Bool-cases, inl, inr, arith,
}
use ev211_field_server.SilenceGate.{
  Pcm, Settings, SilenceGate, new_gate, closed, trim, buffer, feed_open, feed_closed, feed,
}

-- All chunks through a gate: what it sends, and the gate behind them.
abbrev pub feed_all : Settings → List Pcm → SilenceGate → List Pcm × SilenceGate
feed_all c [] g = ([], g)
feed_all c (p ∷ ps) g =
    let (sent, h) = feed c p g in let (more, last) = feed_all c ps h in (sent ++ more, last)

abbrev pub total : List Pcm → ℕ
total [] = 0
total (p ∷ ps) = length p + total ps

total-append : (ps qs : List Pcm) → total (ps ++ qs) ≡ total ps + total qs
total-append [] qs = omega arith
total-append (p ∷ ps) qs = omega (arith, total-append ps qs)

-- The prebuffer holds what its counter says, which is within the window and no more than was gated.
pub record IsSound (c : Settings) (g : SilenceGate) : Type 0 where
  pub counted : g.prebuffer_bytes ≡ total g.prebuffer
  pub bounded : g.prebuffer_bytes ≤ c.prebuffer_max_bytes
  pub gated : g.prebuffer_bytes ≤ g.gated_bytes

trim_counted :
    (max : ℕ) (q : List Pcm) (bytes : ℕ)
    → bytes ≡ total q
    → ((trim max q bytes).1 ≡ total (trim max q bytes).0)
      × ((trim max q bytes).1 ≤ max)
      × ((trim max q bytes).1 ≤ bytes)
unfolding trim
trim_counted max [] bytes h = (h, omega (arith, h), omega arith)
trim_counted max (p ∷ q) bytes h =
    ground (arith, h, trim_counted max q (bytes - length p) (omega (arith, h)))

module _ (c : Settings) where
  buffer-IsSound : (p : Pcm) (g : SilenceGate) → IsSound c g → IsSound c (buffer c p g)
  unfolding buffer
  buffer-IsSound p g h =
      let t =
        trim_counted c.prebuffer_max_bytes (g.prebuffer ++ p ∷ []) (g.prebuffer_bytes + length p)
          (omega (arith, total-append g.prebuffer (p ∷ []), h.counted)) in
      record { counted = t.0; bounded = t.1; gated = omega (arith, t.2, h.gated) }

  -- What one feeding keeps: the invariant, and both totals.
  record Kept (p : Pcm) (g : SilenceGate) (r : List Pcm × SilenceGate) : Type 0 where
    sound : IsSound c r.1
    sent : r.1.sent_bytes ≡ g.sent_bytes + total r.0
    fed : r.1.sent_bytes + r.1.gated_bytes ≡ g.sent_bytes + (g.gated_bytes + length p)

  empty-IsSound :
      (silence : ℕ) (g : SilenceGate) → IsSound c (closed c (record g { silence_bytes = silence }))
  empty-IsSound silence g = record { counted = refl; bounded = omega arith; gated = omega arith }

  buffered : (p : Pcm) (g : SilenceGate) → (buffer c p g).sent_bytes ≡ g.sent_bytes + 0
  unfolding buffer
  buffered p g = omega arith

  buffered_fed :
      (p : Pcm) (g : SilenceGate)
      → (buffer c p g).sent_bytes + (buffer c p g).gated_bytes
        ≡ g.sent_bytes + (g.gated_bytes + length p)
  unfolding buffer
  buffered_fed p g = omega arith

  close-Kept :
      (p : Pcm) (silence : ℕ) (g : SilenceGate)
      → Kept p g ([], buffer c p (closed c (record g { silence_bytes = silence })))
  close-Kept p silence g =
      let shut = closed c (record g { silence_bytes = silence }) in
      record {
        sound = buffer-IsSound p shut (empty-IsSound silence g);
        sent = buffered p shut;
        fed = buffered_fed p shut;
      }

  feed_open-Kept : (p : Pcm) (g : SilenceGate) → IsSound c g → Kept p g (feed_open c p g)
  unfolding feed_open
  feed_open-Kept p g h = elim (Bool-cases (c.loud p)) [
    | inl loud ↦ rw loud (record {
      sound = record { counted = h.counted; bounded = h.bounded; gated = h.gated };
      sent = omega arith;
      fed = omega arith;
    })
    | inr quiet ↦ elim (Bool-cases (ltb (g.silence_bytes + length p) c.hangover_bytes)) [
      | inl short ↦
          rw (quiet, short)
            (record {
              sound = record { counted = h.counted; bounded = h.bounded; gated = h.gated };
              sent = omega arith;
              fed = omega arith;
            })
      | inr long ↦ rw (quiet, long) (close-Kept p (g.silence_bytes + length p) g)
    ]
  ]

  feed_closed-Kept : (p : Pcm) (g : SilenceGate) → IsSound c g → Kept p g (feed_closed c p g)
  unfolding feed_closed
  feed_closed-Kept p g h = elim (Bool-cases (c.loud p)) [
    | inl loud ↦ rw loud (record {
      sound = record { counted = refl; bounded = omega arith; gated = omega arith };
      sent = omega (arith, total-append g.prebuffer (p ∷ []), h.counted);
      fed = omega (arith, h.gated);
    })
    | inr quiet ↦
        rw quiet
          (record { sound = buffer-IsSound p g h; sent = buffered p g; fed = buffered_fed p g })
  ]

  feed-Kept : (p : Pcm) (g : SilenceGate) → IsSound c g → Kept p g (feed c p g)
  unfolding feed
  feed-Kept [] g h = record { sound = h; sent = omega arith; fed = omega arith }
  feed-Kept (b ∷ bs) g h = elim (Bool-cases c.enabled) [
    | inr off ↦ rw off (record {
      sound = record { counted = h.counted; bounded = h.bounded; gated = h.gated };
      sent = omega arith;
      fed = omega arith;
    })
    | inl on ↦ elim (Bool-cases g.is_open) [
      | inl up ↦ simp (on, up) (feed_open-Kept (b ∷ bs) g h)
      | inr down ↦ simp (on, down) (feed_closed-Kept (b ∷ bs) g h)
    ]
  ]

  all_kept :
      (ps : List Pcm) (g : SilenceGate)
      → IsSound c g
      → IsSound c (feed_all c ps g).1
        × ((feed_all c ps g).1.sent_bytes ≡ g.sent_bytes + total (feed_all c ps g).0)
        × ((feed_all c ps g).1.sent_bytes + (feed_all c ps g).1.gated_bytes
            ≡ g.sent_bytes + (g.gated_bytes + total ps))
  all_kept [] g h = (h, omega arith, omega arith)
  all_kept (p ∷ ps) g h =
      let k = feed-Kept p g h in
      let (sound, sent, fed) = all_kept ps (feed c p g).1 k.sound in
      (
        sound,
        omega (arith, sent, k.sent, total-append (feed c p g).0 (feed_all c ps (feed c p g).1).0),
        omega (arith, fed, k.fed),
      )

  -- Whatever is fed to a new gate, the bytes that it reports as sent are those of the chunks it let
  -- through, they and the bytes that it reports as gated are all the bytes that were fed, and the
  -- prebuffer holds at most its window.
  pub gate_accounts :
      (ps : List Pcm)
      → ((feed_all c ps new_gate).1.sent_bytes ≡ total (feed_all c ps new_gate).0)
        × ((feed_all c ps new_gate).1.sent_bytes + (feed_all c ps new_gate).1.gated_bytes
            ≡ total ps)
        × (total (feed_all c ps new_gate).1.prebuffer ≤ c.prebuffer_max_bytes)
  unfolding new_gate
  gate_accounts ps =
      let new_sound : IsSound c new_gate = record {
        counted = refl;
        bounded = omega arith;
        gated = omega arith;
      } in
      let (sound, sent, fed) = all_kept ps new_gate new_sound in
      (omega (arith, sent), omega (arith, fed), omega (arith, sound.counted, sound.bounded))

-- ===== src/Bootstrap/Restored.antt =====
-- The state behind a start that succeeds, with its AI channels restored.
use ev211_field_server.Base.{
  ℕ, ◌≡◌, ◌⊎◌, refl, ap, sym, ◌∙◌, Bool, true, false, Option, none, some, List, [], ◌∷◌, Text, ◌==◌,
  text_eq, nat_eq, any, inl, inr, Bool-cases, if◌then◌else◌, arith,
}
use mathlib.Core.Option
use mathlib.Core.Path.{subst}
use ev211_field_server.Base.Dict
use ev211_field_server.Base.Dict.{get-put, get-remove, get-modify}
use ev211_field_server.OnAir.{is_on_air}
use ev211_field_server.Identity.{SpeakerIdentity, parse_speaker_identity}
use ev211_field_server.Database.Rows.{Database, ChannelRow, LeaseRow}
use ev211_field_server.Database.Channels.{
  get_channel, is_open_ai, close_channel, close_row, list_open_ai_channels,
}
use ev211_field_server.Database.Leases.{get_lease, force_acquire_lease, new_lease}
use ev211_field_server.State.{AppState, room}
use ev211_field_server.Tokens.{publish_ttl_seconds}
use ev211_field_server.Events.{Participant}
use ev211_field_server.Site.{World}
use ev211_field_server.Routes.AiWorkers.{
  provide_token, ai_token_provider, restored, restore_each, restore_ai_channels,
}
use ev211_field_server.Bootstrap.{Server, is_stuck, prepare, reconciled_start, bootstrap}
use ev211_field_server.Bootstrap.Reconciled.{holds_channel, publishes}
use ev211_field_server.Bootstrap.Started.{IsReconciled, reconciled_start-IsReconciled, went_on}

-- The ledger has an open AI channel in this slot.
abbrev pub is_restorable : ℕ → List (ℕ × ChannelRow) → Bool
is_restorable k rows = any (λ (r : ℕ × ChannelRow). r.0 == k) rows

-- The lease is the one before, or one that nobody has joined.
abbrev pub IsFresh : AppState → AppState → ℕ → Type 0
IsFresh s t k =
    (row : LeaseRow)
    → get_lease t.db k ≡ some row
    → (get_lease s.db k ≡ some row) ⊎ (row.joined_at ≡ none)

abbrev IsKnown : AppState → AppState → ℕ → Type 0
IsKnown s t k =
    (c : ChannelRow)
    → get_channel t.db k ≡ some c
    → (d : ChannelRow) × (get_channel s.db k ≡ some d)

-- What the restoration of the channel `j` does to the channel `k`.
record IsRestored (s t : AppState) (j k : ℕ) : Type 0 where
  on_air : t.on_air ≡ s.on_air
  lease : (j == k) ≡ false → get_lease t.db k ≡ get_lease s.db k
  fresh : IsFresh s t k
  known : IsKnown s t k

mapped_some :
    (o : Option ChannelRow) (c : ChannelRow)
    → Option.map close_row o ≡ some c
    → (d : ChannelRow) × (o ≡ some d)
mapped_some none c h = cc
mapped_some (some d) c h = (d, refl)

module _ (w : World) (now : ℕ) where
  closed-IsRestored :
      (j k : ℕ) (s : AppState) → IsRestored s (record s { db = close_channel now j s.db }) j k
  unfolding close_channel get_lease get_channel
  closed-IsRestored j k s = record {
    on_air = refl;
    lease = λ other. get-remove s.db.leases j k ∙ rw other refl;
    fresh = λ row h. ground (arith, h, get-remove s.db.leases j k);
    known = λ c h. elim (Bool-cases (j == k)) [
      | inl same ↦
          mapped_some (Dict.get s.db.channels k) c
            (sym (get-modify s.db.channels j k close_row ∙ rw same refl) ∙ h)
      | inr other ↦ (c, sym (get-modify s.db.channels j k close_row ∙ rw other refl) ∙ h)
    ];
  }

  provided-IsRestored :
      (j k : ℕ) (c : ChannelRow) (o : Option ChannelRow) (s : AppState)
      → IsRestored s (restored w now j c (provide_token w now j o s) s).1 j k
  unfolding provide_token force_acquire_lease get_lease get_channel new_lease
  provided-IsRestored j k c none s = closed-IsRestored j k s
  provided-IsRestored j k c (some d) s = elim (Bool-cases (is_open_ai d)) [
    | inl opened ↦
        let put =
          get-put s.db.leases j k
            (new_lease now j d.epoch s.generation w.nonce publish_ttl_seconds) in
        rw opened (record {
          on_air = refl;
          lease = λ other. put ∙ rw other refl;
          fresh = λ row h. ground (arith, h, put);
          known = λ e h. (e, h);
        })
    | inr shut ↦ rw shut (closed-IsRestored j k s)
  ]

  -- What the restoration of the listed channels does to the channel `k`.
  record AreRestored (s t : AppState) (rows : List (ℕ × ChannelRow)) (k : ℕ) : Type 0 where
    on_air : t.on_air ≡ s.on_air
    lease : is_restorable k rows ≡ false → get_lease t.db k ≡ get_lease s.db k
    fresh : IsFresh s t k
    known : IsKnown s t k

  fresh_further : (s t u : AppState) (k : ℕ) → IsFresh s t k → IsFresh t u k → IsFresh s u k
  fresh_further s t u k h g row found = elim (g row found) [
    | inl before ↦ h row before
    | inr unjoined ↦ inr unjoined
  ]

  restored_further :
      (s t u : AppState) (j k : ℕ) (c : ChannelRow) (rows : List (ℕ × ChannelRow))
      → IsRestored s t j k
      → AreRestored t u rows k
      → AreRestored s u ((j, c) ∷ rows) k
  restored_further s t u j k c rows first rest = record {
    on_air = rest.on_air ∙ first.on_air;
    lease = λ h. rest.lease (ground (arith, h)) ∙ first.lease (ground (arith, h));
    fresh = fresh_further s t u k first.fresh rest.fresh;
    known = λ d h. let (e, found) = rest.known d h in first.known e found;
  }

  same_state :
      (b : Bool) (j : ℕ) (ids : List ℕ) (s : AppState)
      → (if◌then◌else◌ {A = List ℕ × AppState} b (j ∷ ids, s) (ids, s)).1 ≡ s
  same_state true j ids s = refl
  same_state false j ids s = refl

  restore_each-AreRestored :
      (rows : List (ℕ × ChannelRow)) (k : ℕ) (s : AppState)
      → AreRestored s (restore_each w now rows s).1 rows k
  unfolding restore_each ai_token_provider
  restore_each-AreRestored [] k s = record {
    on_air = refl;
    lease = λ h. refl;
    fresh = λ row h. inl h;
    known = λ c h. (c, h);
  }
  restore_each-AreRestored ((j, c) ∷ rows) k s =
      let (started, t) = restored w now j c (provide_token w now j (get_channel s.db j) s) s in
      let (ids, u) = restore_each w now rows t in
      subst (λ x. AreRestored s x ((j, c) ∷ rows) k) (sym (same_state started j ids u))
        (restored_further s t u j k c rows (provided-IsRestored j k c (get_channel s.db j) s)
          (restore_each-AreRestored rows k t))

module _ (v : Server) where
  found_at :
      (k : ℕ) (q : SpeakerIdentity) (p : Participant) (d e : Database)
      → get_lease d k ≡ get_lease e k
      → holds_channel (some q) p k d ≡ holds_channel (some q) p k e
  found_at k q p d e same = elim (Bool-cases (q.channel_id == k)) [
    | inl here ↦ rw ((nat_eq.same_iff q.channel_id k).0 here, same) refl
    | inr elsewhere ↦ ground (arith, elsewhere)
  ]

  holds_same :
      (k : ℕ) (o : Option SpeakerIdentity) (p : Participant) (d e : Database)
      → get_lease d k ≡ get_lease e k
      → holds_channel o p k d ≡ holds_channel o p k e
  holds_same k none p d e same = refl
  holds_same k (some q) p d e same = found_at k q p d e same

  publishes_same :
      (k : ℕ) (ps : List Participant) (d e : Database)
      → get_lease d k ≡ get_lease e k
      → any (publishes v k d) ps ≡ any (publishes v k e) ps
  publishes_same k [] d e same = refl
  publishes_same k (p ∷ ps) d e same = ground (
    arith,
    holds_same k (parse_speaker_identity v.digits p.identity) p d e same,
    publishes_same k ps d e same,
  )

-- What a start leaves, from the state `s` before its first call to LiveKit: a channel that was not
-- an open AI channel is on air exactly where a listed speaker holds its lease and publishes, and a
-- joined lease of any channel is that of a listed speaker.
pub record IsStarted (v : Server) (ps : List Participant) (s t : AppState) : Type 0 where
  pub air :
      (k : ℕ)
      → is_restorable k (list_open_ai_channels s.db) ≡ false
      → is_on_air t.on_air k ≡ any (publishes v k t.db) ps
  pub joined :
      (k : ℕ) (c : ChannelRow) (row : LeaseRow)
      → get_channel t.db k ≡ some c
      → get_lease t.db k ≡ some row
      → is_stuck v.digits ps row ≡ false

unjoined_unstuck :
    (v : Server) (ps : List Participant) (row : LeaseRow)
    → row.joined_at ≡ none
    → is_stuck v.digits ps row ≡ false
unjoined_unstuck v ps row h = rw h refl

restored-IsStarted :
    (v : Server) (w : World) (now : ℕ) (ps : List Participant) (s t : AppState)
    → IsReconciled v ps s t
    → IsStarted v ps s (restore_ai_channels w now t).1
unfolding restore_ai_channels list_open_ai_channels
restored-IsStarted v w now ps s t h =
    let rows = list_open_ai_channels t.db in
    let u = (restore_each w now rows t).1 in
    let done = λ (k : ℕ). restore_each-AreRestored w now rows k t in
    record {
      air = λ k human.
          let same = (done k).lease (rw h.channels human) in
          ap (λ a. is_on_air a k) (done k).on_air
          ∙ h.air k
          ∙ publishes_same v k ps t.db u.db (sym same);
      joined = λ k c row channel lease.
          let (d, known) = (done k).known c channel in
          elim ((done k).fresh row lease) [
            | inl before ↦ h.joined k d row known before
            | inr unjoined ↦ unjoined_unstuck v ps row unjoined
          ];
    }

-- After a start that succeeds, its AI channels restored, with the generation it decided on, LiveKit
-- listed some participants of that generation's room; a channel that was not an open AI channel
-- before the first call to LiveKit is on air exactly where one of them is a speaker that holds its
-- lease and publishes a track; and a joined lease of any channel is that of one of them.
pub start_reconciles :
    (v : Server) (w : World) (hash : Text → Text → Text) (has_key : Bool) (now : ℕ) (s : AppState)
    → (bootstrap v w hash has_key now s).0 ≡ true
    → (ps : List Participant) × (v.participants (room (prepare hash has_key now s)) ≡ some ps)
      × IsStarted v ps (prepare hash has_key now s) (bootstrap v w hash has_key now s).1
unfolding bootstrap
start_reconciles v w hash has_key now s ok =
    let t = reconciled_start v hash has_key now s in
    let (went, same) = went_on v t (λ t. (true, (restore_ai_channels w now t).1)) ok in
    let (ps, listing, reconciled) = reconciled_start-IsReconciled v hash has_key now s went in
    (
      ps,
      listing,
      subst (λ x. IsStarted v ps (prepare hash has_key now s) x) (ap (λ r. r.1) (sym same))
          (restored-IsStarted v w now ps (prepare hash has_key now s) t.1 reconciled),
    )

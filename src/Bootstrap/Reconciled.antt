-- ===== src/Bootstrap/Reconciled.antt =====
-- The state that a start hands on: the channels on air and the joined leases, against the
-- participants that LiveKit listed.
use ev211_field_server.Base.{
  ℕ, ◌≡◌, refl, ap, sym, ◌∙◌, Bool, true, false, ◌&&◌, ◌||◌, not, Option, none, some, List, [], ◌∷◌,
  Text, ◌==◌, text_eq, nat_eq, Bool-cases, inl, inr, if◌then◌else◌, any, ltb, arith,
}
use ev211_field_server.OnAir.{is_on_air, is_on_air-set_publishing}
use ev211_field_server.Identity.{SpeakerIdentity, parse_speaker_identity}
use ev211_field_server.Database.Rows.{Database, LeaseRow}
use ev211_field_server.Database.Leases.{get_lease, found_identity}
use ev211_field_server.Database.Leases.Release.{get_lease-release}
use ev211_field_server.State.{AppState, is_empty_text}
use ev211_field_server.Events.{Participant}
use ev211_field_server.Bootstrap.{
  Server, is_stuck, release_found, release_absent, reconcile_speaker, reconcile_participant,
  reconcile,
}

-- The participant is a speaker who holds the lease of the channel `k` and publishes a track.
abbrev pub holds_channel : Option SpeakerIdentity → Participant → ℕ → Database → Bool
holds_channel none p k db = false
holds_channel (some q) p k db =
    found_identity (get_lease db q.channel_id) p.identity && (ltb 0 p.tracks && (q.channel_id == k))

abbrev pub publishes : Server → ℕ → Database → Participant → Bool
publishes v k db p =
    not (is_empty_text p.identity)
    && holds_channel (parse_speaker_identity v.digits p.identity) p k db

both_went :
    (first rest : Bool × AppState)
    → (if first.0 then rest else (false, first.1)).0 ≡ true
    → (first.0 ≡ true) × ((if first.0 then rest else (false, first.1)) ≡ rest)
both_went (true, s) rest ok = (refl, refl)
both_went (false, s) rest ok = cc

or_assoc : (a b c : Bool) → (a || b) || c ≡ a || (b || c)
or_assoc a b c = ground arith

module _ (v : Server) (k : ℕ) where
  speaker_air :
      (target : Text) (p : Participant) (o : Option SpeakerIdentity) (s : AppState)
      → (reconcile_speaker v target p o s).0 ≡ true
      → (is_on_air (reconcile_speaker v target p o s).1.on_air k
          ≡ is_on_air s.on_air k || holds_channel o p k s.db)
        × ((reconcile_speaker v target p o s).1.db ≡ s.db)
  speaker_air target p none s ok = (ground arith, refl)
  speaker_air target p (some q) s ok =
      ground (arith, ok, is_on_air-set_publishing q.channel_id k true s.on_air)

  participant_air :
      (target : Text) (p : Participant) (s : AppState)
      → (reconcile_participant v target p s).0 ≡ true
      → (is_on_air (reconcile_participant v target p s).1.on_air k
          ≡ is_on_air s.on_air k || publishes v k s.db p)
        × ((reconcile_participant v target p s).1.db ≡ s.db)
  unfolding reconcile_participant
  participant_air target p s ok =
      ground (arith, ok, speaker_air target p (parse_speaker_identity v.digits p.identity) s)

  pub reconcile_air :
      (target : Text) (ps : List Participant) (s : AppState)
      → (reconcile v target ps s).0 ≡ true
      → (is_on_air (reconcile v target ps s).1.on_air k
          ≡ is_on_air s.on_air k || any (publishes v k s.db) ps)
        × ((reconcile v target ps s).1.db ≡ s.db)
  unfolding reconcile
  reconcile_air target [] s ok = (ground arith, refl)
  reconcile_air target (p ∷ ps) s ok =
      let first = reconcile_participant v target p s in
      let rest = reconcile v target ps first.1 in
      let (went, same) = both_went first rest ok in
      let (air, db) = participant_air target p s went in
      let (later, db_later) = reconcile_air target ps first.1 (ap (λ r. r.0) (sym same) ∙ ok) in
      (
        ap (λ r. is_on_air r.1.on_air k) same
            ∙ later
            ∙ ap (λ d. is_on_air first.1.on_air k || any (publishes v k d) ps) db
            ∙ ap (λ b. b || any (publishes v k s.db) ps) air
            ∙ or_assoc (is_on_air s.on_air k) (publishes v k s.db p) (any (publishes v k s.db) ps),
        ap (λ r. r.1.db) same ∙ db_later ∙ db,
      )

-- What a release leaves of a lease.
abbrev pub unstuck : Server → List Participant → Option LeaseRow → Option LeaseRow
unstuck v ps none = none
unstuck v ps (some row) = if is_stuck v.digits ps row then none else some row

unstuck_twice :
    (v : Server) (ps : List Participant) (o : Option LeaseRow)
    → unstuck v ps (unstuck v ps o) ≡ unstuck v ps o
unstuck_twice v ps none = refl
unstuck_twice v ps (some row) = elim (Bool-cases (is_stuck v.digits ps row)) [
  | inl gone ↦ rw gone refl
  | inr kept ↦ rw (kept, kept) refl
]

holder : (row : LeaseRow) → found_identity (some row) row.identity ≡ true
holder row = (text_eq.same_iff row.identity row.identity).1 refl

module _ (v : Server) (ps : List Participant) (j : ℕ) where
  get_lease-release_found :
      (k : ℕ) (o : Option LeaseRow) (db : Database)
      → get_lease db k ≡ o
      → get_lease (release_found v.digits ps k o db) j
        ≡ (if k == j then unstuck v ps o else get_lease db j)
  get_lease-release_found k none db h = ground (arith, h)
  get_lease-release_found k (some row) db h = ground (
    arith,
    h,
    get_lease-release k j row.identity db,
    nat_eq.same_iff k j,
    text_eq.same_iff row.identity row.identity,
    holder row,
  )

  pub get_lease-release_absent :
      (ks : List ℕ) (db : Database)
      → get_lease (release_absent v.digits ps ks db) j
        ≡ (if any (λ k. k == j) ks then unstuck v ps (get_lease db j) else get_lease db j)
  unfolding release_absent
  get_lease-release_absent [] db = refl
  get_lease-release_absent (k ∷ ks) db = ground (
    arith,
    get_lease-release_absent ks (release_found v.digits ps k (get_lease db k) db),
    get_lease-release_found k (get_lease db k) db refl,
    nat_eq.same_iff k j,
    unstuck_twice v ps (get_lease db j),
  )

-- ===== src/Database/Listeners/Counts.antt =====
-- The counts of listeners agree with the rows that they count.
use ev211_field_server.Base.{
  ℕ, ◌+◌, ◌≤◌, ◌<◌, ◌≡◌, ◌∙◌, refl, ◌&&◌, some, List, [], ◌∷◌, map, Text, ◌==◌, text_eq, nat_eq,
  if◌then◌else◌, keep, count_of, arith, seconds,
}
use ev211_field_server.Base.Dict
use ev211_field_server.Base.Dict.{get-put}
use ev211_field_server.Database.Rows.{Database}
use ev211_field_server.Database.Listeners.{
  count_or_zero, bump, tally, is_live, is_kept, count_heartbeats_by_channel,
  purge_expired_heartbeats, purge_expired_issued_listeners, touch_issued_listener,
  issued_listener_channel, issued_listener_ttl_seconds,
}

abbrev pub counted : List (ℕ × ℕ) → ℕ → ℕ
counted counts k = count_or_zero (Dict.get counts k)

counted-bump :
    (counts : List (ℕ × ℕ)) (j k : ℕ)
    → counted (bump counts j) k ≡ (if j == k then counted counts j + 1 else counted counts k)
unfolding bump
counted-bump counts j k = ground (arith, get-put counts j k (counted counts j + 1))

counted-tally : (ks : List ℕ) (k : ℕ) → counted (tally ks) k ≡ count_of (λ j. j == k) ks
unfolding tally Dict.get
counted-tally [] k = refl
counted-tally (j ∷ ks) k = ground (
  arith,
  counted-bump (tally ks) j k,
  counted-tally ks k,
  counted-tally ks j,
  nat_eq.same_iff j k,
)

-- The heartbeat count of a channel is the number of heartbeat rows on it that have not expired.
abbrev pub live_on : ℕ → ℕ → List (Text × (ℕ × ℕ)) → ℕ
live_on now k rows = count_of (λ (r : Text × (ℕ × ℕ)). is_live now r && (r.1.0 == k)) rows

count-live :
    (now k : ℕ) (rows : List (Text × (ℕ × ℕ)))
    → count_of (λ j. j == k) (map (λ (r : Text × (ℕ × ℕ)). r.1.0) (keep (is_live now) rows))
      ≡ live_on now k rows
count-live now k [] = refl
count-live now k ((id, (j, t)) ∷ rows) = ground (arith, count-live now k rows)

purge-live :
    (now later k : ℕ) (rows : List (Text × (ℕ × ℕ)))
    → now ≤ later
    → live_on later k (keep (is_live now) rows) ≡ live_on later k rows
purge-live now later k [] h = refl
purge-live now later k ((id, (j, t)) ∷ rows) h = ground (arith, purge-live now later k rows h)

-- The count of a channel's listeners is the number of its heartbeats that have not expired, and a
-- purge of the expired rows changes it at no later time.
pub heartbeat_count_exact :
    (now later k : ℕ) (db : Database)
    → now ≤ later
    → (counted (count_heartbeats_by_channel later db) k ≡ live_on later k db.heartbeats)
      × (counted (count_heartbeats_by_channel later (purge_expired_heartbeats now db)) k
          ≡ live_on later k db.heartbeats)
unfolding count_heartbeats_by_channel purge_expired_heartbeats
heartbeat_count_exact now later k db h = (
  counted-tally _ k ∙ count-live later k db.heartbeats,
  counted-tally _ k
      ∙ count-live later k (keep (is_live now) db.heartbeats)
      ∙ purge-live now later k db.heartbeats h,
)

abbrev pub issued_on : ℕ → ℕ → List (Text × (ℕ × ℕ)) → ℕ
issued_on now k rows = count_of (λ (r : Text × (ℕ × ℕ)). is_kept now r && (r.1.0 == k)) rows

count-kept :
    (now k : ℕ) (rows : List (Text × (ℕ × ℕ)))
    → count_of (λ j. j == k) (map (λ (r : Text × (ℕ × ℕ)). r.1.0) (keep (is_kept now) rows))
      ≡ issued_on now k rows
count-kept now k [] = refl
count-kept now k ((id, (j, t)) ∷ rows) = ground (arith, count-kept now k rows)

-- After a purge of the issued listeners the approximate count of a channel is the number of its
-- issued listeners whose hour has not passed.
pub token_count_resynced :
    (now k : ℕ) (db : Database)
    → counted (purge_expired_issued_listeners now db).subscribe_token_counts k
      ≡ issued_on now k db.issued_listeners
unfolding purge_expired_issued_listeners
token_count_resynced now k db = counted-tally _ k ∙ count-kept now k db.issued_listeners

-- A listener that is issued and touched by each heartbeat within the hour stays issued on its
-- channel until an hour after the touch.
pub touched_stays_issued :
    (t now k : ℕ) (id : Text) (db : Database)
    → issued_listener_channel t id db ≡ some k
    → now < t + seconds issued_listener_ttl_seconds
    → issued_listener_channel now id (touch_issued_listener t id k db).1 ≡ some k
unfolding issued_listener_channel touch_issued_listener
touched_stays_issued t now k id db issued early =
    ground
      (arith, text_eq.same_iff id id, nat_eq.same_iff k k, get-put db.issued_listeners id id (k, t))

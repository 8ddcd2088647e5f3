-- ===== src/Routes/ChannelRoutes/Closed.antt =====
-- What the closing of a channel leaves, and what a refused one leaves.
use ev211_field_server.Base.{ℕ, ◌≡◌, refl, false, Option, none, some, nat_eq, nat_beq_iff, arith}
use mathlib.Core.Option
use ev211_field_server.Base.Dict
use ev211_field_server.Base.Dict.{get-modify, get-remove}
use ev211_field_server.OnAir
use ev211_field_server.Database.Rows.{Database, ChannelRow, LeaseRow, Source, human, ai}
use ev211_field_server.Database.Channels.{get_channel, found_open, close_channel, close_row}
use ev211_field_server.Database.Leases.{get_lease}
use ev211_field_server.State.{AppState}
use ev211_field_server.Site.{World, Site}
use ev211_field_server.Site.Steps.{Gives, >>=-Gives}
use ev211_field_server.Cascade.{close_and_clear, end_ai_channel, stop_worker, remove_holder}
use ev211_field_server.Routes.Calls.{try_remove}
use ev211_field_server.Routes.Publish.{open_channel}
use ev211_field_server.Routes.Takeover.{remove_or_refuse}
use ev211_field_server.Routes.ChannelRoutes.{close_human, close_by_source, close_locked}

-- Not open, without a lease, off air.
pub record IsClosed (k : ℕ) (s : AppState) : Type 0 where
  pub closed : found_open (get_channel s.db k) ≡ false
  pub released : get_lease s.db k ≡ none
  pub silent : OnAir.is_on_air s.on_air k ≡ false

closed_row : (o : Option ChannelRow) → found_open (Option.map close_row o) ≡ false
unfolding close_row
closed_row none = refl
closed_row (some c) = refl

module _ (w : World) (now : ℕ) (k : ℕ) where
  cleared : (s : AppState) → IsClosed k (close_and_clear w now k s)
  unfolding close_and_clear close_channel get_channel get_lease close_row
  cleared s = record {
    closed = ground (
      arith,
      nat_beq_iff k k,
      get-modify s.db.channels k k close_row,
      closed_row (Dict.get s.db.channels k),
    );
    released = ground (arith, nat_beq_iff k k, get-remove s.db.leases k k);
    silent = ground (arith, nat_beq_iff k k, OnAir.is_on_air-clear_channel k k s.on_air);
  }

  ended : (s : AppState) → IsClosed k (end_ai_channel w now k s)
  unfolding end_ai_channel
  ended s = cleared (remove_holder w now (get_lease s.db k) (stop_worker w now k s))

  removed-Gives :
      (d : Database) (o : Option LeaseRow) (s : Site)
      → s.app.db ≡ d
      → Gives (λ _ t. Unit {0}) (λ t. t.app.db ≡ d) (remove_or_refuse w now o s)
  unfolding remove_or_refuse try_remove
  removed-Gives d none s h = tt
  removed-Gives d (some l) s h = ground arith

  close_human-Gives :
      (d : Database) (s : Site)
      → s.app.db ≡ d
      → Gives (λ _ t. IsClosed k t.app) (λ t. t.app.db ≡ d) (close_human w now k s)
  unfolding close_human
  close_human-Gives d s h =
      >>=-Gives (λ _ _. Unit {0}) (λ _ t. IsClosed k t.app) (λ t. t.app.db ≡ d)
        (remove_or_refuse w now (get_lease s.app.db k)) _ s
        (removed-Gives d (get_lease s.app.db k) s h) (λ _ t _. cleared t.app)

  by_source-Gives :
      (d : Database) (source : Source) (s : Site)
      → s.app.db ≡ d
      → Gives (λ _ t. IsClosed k t.app) (λ t. t.app.db ≡ d) (close_by_source w now k source s)
  by_source-Gives d human s h = close_human-Gives d s h
  by_source-Gives d ai s h = ended s.app

  opened-Gives :
      (d : Database) (s : Site)
      → s.app.db ≡ d
      → Gives (λ _ t. t.app.db ≡ d) (λ t. t.app.db ≡ d) (open_channel k s)
  unfolding open_channel
  opened-Gives d s h = ground arith

  -- Under its locks the closing of a channel answers well only with the channel closed, without a
  -- lease and off air, and a refusal, as where LiveKit fails to remove the speaker, leaves the whole
  -- database as it was.
  pub close_is_complete :
      (s : Site)
      → Gives (λ _ t. IsClosed k t.app) (λ t. t.app.db ≡ s.app.db) (close_locked w now k s)
  unfolding close_locked
  close_is_complete s =
      >>=-Gives (λ _ t. t.app.db ≡ s.app.db) (λ _ t. IsClosed k t.app) (λ t. t.app.db ≡ s.app.db)
        (open_channel k) _ s (opened-Gives s.app.db s refl)
        (λ c t same. by_source-Gives s.app.db c.source t same)

-- ===== src/Examples/Program.antt =====
-- One name for the bodies of the whole program: `unfolding whole_program` opens all of them.
use ev211_field_server.Base.{ℕ, text_beq, insert_by, order_by}
use ev211_field_server.AiChannels
use ev211_field_server.Base.Decimal
use ev211_field_server.Base.Dict
use ev211_field_server.Bootstrap
use ev211_field_server.Cascade
use ev211_field_server.ChannelPassword
use ev211_field_server.Config
use ev211_field_server.Database.Channels
use ev211_field_server.Database.Leases
use ev211_field_server.Database.Leases.Held
use ev211_field_server.Database.Listeners
use ev211_field_server.Database.Settings
use ev211_field_server.Database.Signals
use ev211_field_server.Database.Usage
use ev211_field_server.Database.Webhooks
use ev211_field_server.EventLog
use ev211_field_server.Events
use ev211_field_server.HttpUtil
use ev211_field_server.Identity
use ev211_field_server.Identity.RoundTrip
use ev211_field_server.LiveAuth
use ev211_field_server.LiveAuth.Fresh
use ev211_field_server.OnAir
use ev211_field_server.RateLimit
use ev211_field_server.Rooms
use ev211_field_server.Rotation
use ev211_field_server.Routes.Admin
use ev211_field_server.Routes.AiRoutes
use ev211_field_server.Routes.AiWorkers
use ev211_field_server.Routes.Bodies
use ev211_field_server.Routes.Calls
use ev211_field_server.Routes.ChannelRoutes
use ev211_field_server.Routes.Guards
use ev211_field_server.Routes.Intercom
use ev211_field_server.Routes.Listen
use ev211_field_server.Routes.Publish
use ev211_field_server.Routes.Takeover
use ev211_field_server.SilenceGate
use ev211_field_server.State
use ev211_field_server.Supervisor
use ev211_field_server.Supervisor.Backoff
use ev211_field_server.Tokens
use ev211_field_server.UsageReporter
use ev211_field_server.Utterances
use ev211_field_server.Webhook
use ev211_field_server.Webhook.Delivery

unfoldable pub whole_program : ℕ
unfolding text_beq insert_by order_by AiChannels.start AiChannels.get AiChannels.has AiChannels.stop
    AiChannels.reap_leaked AiChannels.stop_all AiChannels.close Decimal.decimal_from Decimal.decimal
    Decimal.two_digits Dict.get Dict.put Dict.remove Dict.modify Dict.map_rows Dict.remove_all
    Dict.has Bootstrap.decide_generation Bootstrap.prepare Bootstrap.is_stale_at_start
    Bootstrap.is_live Bootstrap.release_absent Bootstrap.reconcile_participant Bootstrap.reconcile
    Bootstrap.reconciled_start Bootstrap.bootstrap Cascade.source_cycle Cascade.ai_source_cycle
    Cascade.distinct Cascade.by_sources Cascade.candidates Cascade.stop_worker
    Cascade.close_and_clear Cascade.end_ai_channel Cascade.close_level Cascade.cascade
    Cascade.close_dependent_ai_channels ChannelPassword.split_dollar
    ChannelPassword.channel_password_hash ChannelPassword.stored_match
    ChannelPassword.channel_password_matches Config.is_default Config.load_settings
    Channels.list_channels Channels.get_channel Channels.count_open_general_channels
    Channels.first_free Channels.lowest_free_general_slot Channels.track_of Channels.opened_row
    Channels.create_channel Channels.close_row Channels.close_channel Channels.close_if_ai
    Channels.open_ai_ids Channels.close_open_ai_channels Channels.list_open_ai_channels
    Channels.list_open_ai_channels_by_source Channels.bump_channel_epoch Leases.get_lease
    Leases.lease_alive Leases.new_lease Leases.acquire_lease Leases.force_acquire_lease
    Leases.release_lease_if_identity Leases.release_lease Leases.joined_row Leases.mark_lease_joined
    Leases.extend_lease_if_identity Leases.clear_all_leases Held.lease_run Listeners.bump
    Listeners.tally Listeners.issue_listener Listeners.issued_listener_channel
    Listeners.is_listener_issued Listeners.touch_issued_listener Listeners.record_heartbeat
    Listeners.count_heartbeats_by_channel Listeners.has_any_live_heartbeat
    Listeners.token_approximation_by_channel Listeners.purge_expired_heartbeats
    Listeners.purge_expired_issued_listeners Settings.get_setting Settings.set_setting
    Settings.set_password_and_generation Settings.set_admin_password_and_generation
    Settings.rotate_send_password Settings.get_generation Settings.set_generation
    Settings.list_intercom_channels Settings.get_intercom_channel Settings.lowest_free_intercom_slot
    Settings.create_intercom_channel Settings.clear_intercom_channels Signals.record_signal_event
    Signals.list_signal_events Signals.purge_signal_events Signals.last_event_channel_for_subject
    Usage.end_where Usage.open_usage_session Usage.close_usage_session
    Usage.close_usage_sessions_for_channel Usage.close_stale_usage_sessions
    Usage.pending_usage_sessions Usage.push_row Usage.push_rows Usage.mark_usage_sessions_pushed
    Usage.bump_row Usage.bump_rows Usage.bump_usage_session_attempts Usage.purge_usage_sessions
    Webhooks.is_webhook_processed Webhooks.mark_webhook_processed EventLog.relay_part
    EventLog.relay_signal EventLog.intercom_signal EventLog.room_signal EventLog.audited
    EventLog.record_event Events.contains Events.is_not_found Events.remove_outcome Events.remove
    Events.strike_and_remove HttpUtil.split_commas HttpUtil.networks_of HttpUtil.parse_networks
    HttpUtil.is_trusted HttpUtil.last_untrusted HttpUtil.from_header HttpUtil.client_ip
    HttpUtil.https_from_header HttpUtil.is_https Identity.speaker_identity Identity.strip
    Identity.is_alnum Identity.alnum_run Identity.at_end Identity.nonce_of Identity.starts_with
    Identity.is_monitor_identity Identity.is_listener_identity Identity.is_intercom_identity
    Identity.one_digit Identity.number Identity.parse_speaker_identity RoundTrip.ascii_digits
    LiveAuth.split_colon LiveAuth.expires LiveAuth.store LiveAuth.trimmed LiveAuth.stripped
    LiveAuth.split_bearer LiveAuth.verify Fresh.cache_after OnAir.set_publishing OnAir.is_on_air
    OnAir.clear OnAir.clear_channel RateLimit.drop_old RateLimit.retry_after RateLimit.refusal
    RateLimit.check RateLimit.is_locked RateLimit.record_failure RateLimit.record_success
    RateLimit.is_blocked RateLimit.strike RateLimit.clear Rooms.room_name Rooms.intercom_room_name
    Rooms.intercom_channel_room_name Rooms.relay_room Rooms.channel_part Rooms.intercom_room
    Rotation.is_stale Rotation.delete_rooms Rotation.rotate_rooms
    Rotation.change_admin_password_locked Rotation.persist_rotation
    Rotation.change_send_password_locked Admin.admin_channel Admin.change_admin_password
    Admin.change_send_password Admin.issue_monitor Admin.issue_intercom_monitor Admin.admin_status
    Admin.get_status Admin.channel_status Admin.admin_intercom_status Admin.livekit_webhook
    AiRoutes.ai_channel_view AiRoutes.is_bad_source AiRoutes.add_ai_channel
    AiRoutes.acquire_or_close AiRoutes.start_worker AiRoutes.create_ai_locked AiRoutes.is_still
    AiRoutes.roll_back AiRoutes.not_ready AiRoutes.create_ai_channel AiRoutes.delete_ai_channel
    AiRoutes.get_ai_channel_status AiWorkers.provide_token AiWorkers.ai_token_provider
    AiWorkers.model_language AiWorkers.restore_each AiWorkers.restore_ai_channels
    AiWorkers.close_idle AiWorkers.idle_sweep AiWorkers.ai_idle_sweep Bodies.split_dashes
    Bodies.chomp Bodies.is_bcp47 Bodies.is_uuid Bodies.clean_display Bodies.channel_create
    Bodies.ai_language Bodies.display_name Bodies.channel_name Bodies.channel_password
    Bodies.password_change Bodies.listener_id Calls.intercom_user_count Calls.intercom_room
    Calls.intercom_channel_room Calls.try_remove Calls.publisher_present Calls.ensure
    Calls.ensure_room Calls.ensure_intercom_room Calls.ensure_intercom_channel_room
    Calls.participants_of Calls.record_signal ChannelRoutes.listeners_of ChannelRoutes.channel_view
    ChannelRoutes.channel_full ChannelRoutes.purged ChannelRoutes.list_channels_route
    ChannelRoutes.chosen_slot ChannelRoutes.is_over_limit ChannelRoutes.add_channel
    ChannelRoutes.create_channel ChannelRoutes.get_channel ChannelRoutes.either_auth
    ChannelRoutes.close_guard ChannelRoutes.close_reauth ChannelRoutes.close_human
    ChannelRoutes.close_locked ChannelRoutes.close_dependents ChannelRoutes.close_channel
    Guards.bearer Guards.auth_bearer Guards.note_active_join_code Guards.auth_live Guards.auth_send
    Guards.is_loopback Guards.ip_of Guards.https_guard Guards.check_lock Guards.check_publish
    Guards.check_admin Guards.count_publish Guards.count_admin Guards.publish_allowed
    Guards.admin_allowed Guards.send_guard Guards.is_initial Guards.admin_guard Guards.resend
    Guards.readmit Guards.wait Intercom.intercom_channel_view Intercom.issue_for_room
    Intercom.issue_intercom Intercom.list_intercom_channels Intercom.add_intercom_channel
    Intercom.create_intercom_channel Intercom.pw_key Intercom.count_channel_password
    Intercom.verify_channel Intercom.enter_locked Intercom.enter_intercom_channel
    Listen.check_subscribe Listen.enter_listener Listen.issue_subscribe Listen.check_heartbeat
    Listen.touch Listen.known_heartbeat Listen.heartbeat Publish.open_channel Publish.settle_joined
    Publish.acquire Publish.publish_human Publish.publish_locked Publish.issue_publish
    Takeover.remove_or_refuse Takeover.bump_epoch Takeover.seize Takeover.takeover_human
    Takeover.takeover_locked Takeover.takeover SilenceGate.new_gate SilenceGate.trim
    SilenceGate.buffer SilenceGate.feed_open SilenceGate.feed_closed SilenceGate.feed State.room
    State.send_kind State.usage_kind State.attributed State.open_for_join State.track_by_type
    State.track_usage State.record_signal_event Supervisor.round Supervisor.supervise
    Backoff.times_two Tokens.listening Tokens.speaking Tokens.issue_subscribe_token
    Tokens.issue_publish_token Tokens.issue_monitor_token Tokens.issue_recording_token
    Tokens.issue_intercom_token Tokens.expires_at Tokens.intercom_response Tokens.monitor_response
    Tokens.subscribe_response Tokens.publish_response UsageReporter.round_seconds
    UsageReporter.session_to_event UsageReporter.send_batch UsageReporter.flush Utterances.rstrip
    Utterances.ends_utterance Utterances.next_number Utterances.next_id Webhook.is_violation
    Webhook.joined_speaker Webhook.joined_identity Webhook.on_joined Webhook.is_unlicensed
    Webhook.published_listed Webhook.published_speaker Webhook.published_identity
    Webhook.on_track_published Webhook.unpublished_identity Webhook.on_track_unpublished
    Webhook.left_parsed Webhook.left_identity Webhook.on_left Webhook.dispatch Webhook.commit
    Webhook.process Webhook.handle Delivery.deliver
whole_program = 0

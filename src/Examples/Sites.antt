-- ===== src/Examples/Sites.antt =====
-- Tests of the routes.
use ev211_field_server.Base.{
  List, [], ◌∷◌, ℕ, ◌≡◌, refl, Bool, true, Option, none, some, Text, codes, arith,
}
use ev211_field_server.Webhook.{is_violation}
use ev211_field_server.ChannelPassword.{Scrypt}
use ev211_field_server.State.{AppState}
use ev211_field_server.Database.Rows.{human}
use ev211_field_server.Database.Channels.Lifecycle.{ChannelOp, close, create, run_ops}
use ev211_field_server.Site.{World, Site}
use ev211_field_server.Site.Steps.{Gives}
use ev211_field_server.Routes.Guards.{livekit_error}
use ev211_field_server.Routes.Publish.{issue_publish, publish_reply}
use ev211_field_server.Routes.Publish.Licence.{IsLicensed, issued-IsLicensed}
use ev211_field_server.Routes.Takeover.{takeover, takeover_locked}
use ev211_field_server.Routes.Takeover.Supersedes.{
  IsTaken, takeover_supersedes, failed_takeover_changes_nothing,
}
use ev211_field_server.Routes.ChannelRoutes.{ChannelCreateBody, create_channel, close_locked}
use ev211_field_server.Routes.ChannelRoutes.Closed.{IsClosed, close_is_complete}
use ev211_field_server.Routes.Intercom.{
  issue_intercom, list_intercom_channels, create_intercom_channel, enter_intercom_channel,
}
use ev211_field_server.Routes.AiRoutes.{
  AiChannelCreateBody, create_ai_channel, delete_ai_channel, get_ai_channel_status,
}
use ev211_field_server.Routes.Admin.{
  change_admin_password, change_send_password, issue_monitor, issue_intercom_monitor, admin_status,
  admin_intercom_status,
}
use ev211_field_server.Routes.Refusals.{
  Refuses, no_password_no_effect, no_admin_password_no_effect, initial_password_gates,
}
use ev211_field_server.Examples.Program.{whole_program}
use ev211_field_server.Examples.Fixtures.{
  env_one, world_one, site_one, state_one, db_one, channel_row, env_failing, https_request,
  parsed_one, speaker_one,
}

abbrev ip_one : Text
ip_one = codes "10.0.0.9"

issued-IsLicensed_example :
    IsLicensed world_one 10 1 speaker_one
      (issue_publish world_one 10 https_request 1 (some (codes "bearer p")) site_one).1.app
unfolding whole_program
issued-IsLicensed_example =
    issued-IsLicensed world_one 10 https_request 1 (some (codes "bearer p")) site_one b'a'
      (codes "b") (publish_reply world_one 10 1 speaker_one 1 site_one)
      (issue_publish world_one 10 https_request 1 (some (codes "bearer p")) site_one).1
      (omega arith) refl (refl, (refl, tt)) refl

abbrev taken_one : Text
taken_one = codes "speaker-ch-01-e2-g1-nab"

abbrev taken_site : Site
taken_site = (takeover_locked world_one 10 ip_one 1 site_one).1

-- The channel closed and opened again behind the takeover.
abbrev closed_and_opened : List ChannelOp
closed_and_opened = close 20 1 ∷ create 30 1 (codes "ko") [] human none none ∷ []

abbrev reopened : AppState
reopened = record taken_site.app { db = run_ops taken_site.app.db closed_and_opened }

takeover_supersedes_example :
    IsTaken world_one 10 db_one 1 channel_row taken_one taken_site
    × (is_violation env_one parsed_one speaker_one reopened ≡ true)
unfolding whole_program
takeover_supersedes_example =
    takeover_supersedes world_one 10 ip_one 1 site_one
      (publish_reply world_one 10 1 taken_one 2 site_one) taken_site channel_row speaker_one
      parsed_one closed_and_opened reopened refl refl refl (omega arith) refl

-- LiveKit fails to remove the speaker.
abbrev world_failing : World
world_failing = record world_one { env = env_failing }

failed_takeover_changes_nothing_example :
    (takeover_locked world_failing 10 ip_one 1 site_one).1.app.db ≡ db_one
unfolding whole_program
failed_takeover_changes_nothing_example =
    failed_takeover_changes_nothing world_failing 10 ip_one 1 site_one livekit_error
      (takeover_locked world_failing 10 ip_one 1 site_one).1 refl

close_is_complete_example :
    Gives (λ _ t. IsClosed 1 t.app) (λ t. t.app.db ≡ db_one) (close_locked world_one 10 1 site_one)
unfolding whole_program
close_is_complete_example = close_is_complete world_one 10 1 site_one

no_password_no_effect_example :
    ((k : ℕ)
      → Refuses world_one 10 https_request none site_one
          (issue_publish world_one 10 https_request k none))
    × ((body : ChannelCreateBody)
        → Refuses world_one 10 https_request none site_one
            (create_channel world_one 10 https_request body none))
    × ((name : Text)
        → Refuses world_one 10 https_request none site_one
            (issue_intercom world_one 10 https_request name none))
    × Refuses world_one 10 https_request none site_one
        (list_intercom_channels world_one 10 https_request none)
    × ((h : Scrypt) (name : Text) (password : Option Text)
        → Refuses world_one 10 https_request none site_one
            (create_intercom_channel world_one 10 h https_request name password none))
    × ((h : Scrypt) (k : ℕ) (name password : Text)
        → Refuses world_one 10 https_request none site_one
            (enter_intercom_channel world_one 10 h https_request k name password none))
    × ((ready : Bool) (body : AiChannelCreateBody)
        → Refuses world_one 10 https_request none site_one
            (create_ai_channel world_one 10 ready https_request body none))
    × ((k : ℕ)
        → Refuses world_one 10 https_request none site_one
            (delete_ai_channel world_one 10 https_request k none))
    × ((k : ℕ)
        → Refuses world_one 10 https_request none site_one
            (get_ai_channel_status world_one 10 https_request k none))
unfolding whole_program
no_password_no_effect_example = no_password_no_effect world_one 10 https_request none site_one refl

no_admin_password_no_effect_example :
    ((k : ℕ)
      → Refuses world_one 10 https_request
          (some (codes "bearer p"))
          site_one
          (takeover world_one 10 https_request k (some (codes "bearer p"))))
    × ((p : Text)
        → Refuses world_one 10 https_request
            (some (codes "bearer p"))
            site_one
            (change_admin_password world_one 10 https_request p (some (codes "bearer p"))))
    × ((p : Text)
        → Refuses world_one 10 https_request
            (some (codes "bearer p"))
            site_one
            (change_send_password world_one 10 https_request p (some (codes "bearer p"))))
    × Refuses world_one 10 https_request
        (some (codes "bearer p"))
        site_one
        (issue_monitor world_one 10 https_request (some (codes "bearer p")))
    × ((k : ℕ)
        → Refuses world_one 10 https_request
            (some (codes "bearer p"))
            site_one
            (issue_intercom_monitor world_one 10 https_request k (some (codes "bearer p"))))
    × Refuses world_one 10 https_request
        (some (codes "bearer p"))
        site_one
        (admin_status world_one 10 https_request (some (codes "bearer p")))
    × Refuses world_one 10 https_request
        (some (codes "bearer p"))
        site_one
        (admin_intercom_status world_one 10 https_request (some (codes "bearer p")))
unfolding whole_program
no_admin_password_no_effect_example =
    no_admin_password_no_effect world_one 10 https_request (some (codes "bearer p")) site_one refl

-- The administrator's password is the initial one.
abbrev initial_site : Site
initial_site = record site_one { app = record state_one { admin_password = codes "0000" } }

initial_password_gates_example :
    ((k : ℕ)
      → Refuses world_one 10 https_request
          (some (codes "bearer 0000"))
          initial_site
          (takeover world_one 10 https_request k (some (codes "bearer 0000"))))
    × ((p : Text)
        → Refuses world_one 10 https_request
            (some (codes "bearer 0000"))
            initial_site
            (change_send_password world_one 10 https_request p (some (codes "bearer 0000"))))
    × Refuses world_one 10 https_request
        (some (codes "bearer 0000"))
        initial_site
        (issue_monitor world_one 10 https_request (some (codes "bearer 0000")))
    × ((k : ℕ)
        → Refuses world_one 10 https_request
            (some (codes "bearer 0000"))
            initial_site
            (issue_intercom_monitor world_one 10 https_request k (some (codes "bearer 0000"))))
    × Refuses world_one 10 https_request
        (some (codes "bearer 0000"))
        initial_site
        (admin_intercom_status world_one 10 https_request (some (codes "bearer 0000")))
unfolding whole_program
initial_password_gates_example =
    initial_password_gates world_one 10 https_request (some (codes "bearer 0000")) initial_site refl

-- ===== src/Routes/Refusals.antt =====
-- The routes behind a guard: what they do for a request that the guard refuses.
use ev211_field_server.Base.{ℕ, ◌≡◌, Bool, true, false, Option, Text, ◌==◌, text_eq}
use ev211_field_server.HttpUtil.{Request}
use ev211_field_server.ChannelPassword.{Scrypt}
use ev211_field_server.Site.{World, Site, Handler}
use ev211_field_server.Routes.Guards.{
  auth_send, auth_bearer, initial_admin_password, invalid_password, unauthorized,
}
use ev211_field_server.Routes.Guards.Refused.{
  IsRefused, refusal, send_guard-IsRefused, admin_guard-IsRefused, admin_guard-initial,
}
use ev211_field_server.Routes.Publish.{issue_publish}
use ev211_field_server.Routes.Takeover.{takeover}
use ev211_field_server.Routes.ChannelRoutes.{ChannelCreateBody, create_channel}
use ev211_field_server.Routes.Intercom.{
  issue_intercom, list_intercom_channels, create_intercom_channel, enter_intercom_channel,
}
use ev211_field_server.Routes.AiRoutes.{
  AiChannelCreateBody, create_ai_channel, delete_ai_channel, get_ai_channel_status,
}
use ev211_field_server.Routes.Admin.{
  change_admin_password, change_send_password, issue_monitor, issue_intercom_monitor, admin_status,
  admin_intercom_status,
}

module _ (w : World) (now : ℕ) (r : Request) (authorization : Option Text) (s : Site) where
  -- A route that begins with a guard that refuses is refused.
  abbrev pub Refuses : {A : Type 0} → Handler A → Type 0
  Refuses route = IsRefused s.app (route s)

  -- A request that does not pass the check of the sender's password is refused by the routes that
  -- issue a speaker's token, create a channel, issue a token of the intercom, list, create or enter
  -- its channels, and create, delete or show an AI channel, and leaves the application's state as it
  -- was.
  pub no_password_no_effect :
      (auth_send w now authorization s).0 ≡ false
      → ((k : ℕ) → Refuses (issue_publish w now r k authorization))
        × ((body : ChannelCreateBody) → Refuses (create_channel w now r body authorization))
        × ((name : Text) → Refuses (issue_intercom w now r name authorization))
        × Refuses (list_intercom_channels w now r authorization)
        × ((h : Scrypt) (name : Text) (password : Option Text)
            → Refuses (create_intercom_channel w now h r name password authorization))
        × ((h : Scrypt) (k : ℕ) (name password : Text)
            → Refuses (enter_intercom_channel w now h r k name password authorization))
        × ((ready : Bool) (body : AiChannelCreateBody)
            → Refuses (create_ai_channel w now ready r body authorization))
        × ((k : ℕ) → Refuses (delete_ai_channel w now r k authorization))
        × ((k : ℕ) → Refuses (get_ai_channel_status w now r k authorization))
  unfolding issue_publish create_channel issue_intercom list_intercom_channels
      create_intercom_channel enter_intercom_channel create_ai_channel delete_ai_channel
      get_ai_channel_status
  no_password_no_effect wrong =
      let (_, _, refused, kept) =
        refusal s.app _ (send_guard-IsRefused w now invalid_password r authorization s wrong) in
      let (_, _, refused₁, kept₁) =
        refusal s.app _ (send_guard-IsRefused w now unauthorized r authorization s wrong) in
      (
        λ k. rw refused kept,
        λ body. rw refused₁ kept₁,
        λ name. rw refused kept,
        rw refused kept,
        λ h name password. rw refused kept,
        λ h k name password. rw refused kept,
        λ ready body. rw refused kept,
        λ k. rw refused kept,
        λ k. rw refused kept,
      )

  -- A request without the administrator's password is refused by the routes that take over a
  -- channel, change a password, issue a monitor's token or show the administrators' two status
  -- pages, and leaves the application's state as it was.
  pub no_admin_password_no_effect :
      auth_bearer w authorization s.app.admin_password ≡ false
      → ((k : ℕ) → Refuses (takeover w now r k authorization))
        × ((p : Text) → Refuses (change_admin_password w now r p authorization))
        × ((p : Text) → Refuses (change_send_password w now r p authorization))
        × Refuses (issue_monitor w now r authorization)
        × ((k : ℕ) → Refuses (issue_intercom_monitor w now r k authorization))
        × Refuses (admin_status w now r authorization)
        × Refuses (admin_intercom_status w now r authorization)
  unfolding takeover change_admin_password change_send_password issue_monitor issue_intercom_monitor
      admin_status admin_intercom_status
  no_admin_password_no_effect wrong =
      let (_, _, refused, kept) =
        refusal s.app _ (admin_guard-IsRefused w now false r authorization s wrong) in
      let (_, _, refused₁, kept₁) =
        refusal s.app _ (admin_guard-IsRefused w now true r authorization s wrong) in
      (
        λ k. rw refused kept,
        λ p. rw refused₁ kept₁,
        λ p. rw refused kept,
        rw refused kept,
        λ k. rw refused kept,
        rw refused₁ kept₁,
        rw refused kept,
      )

  -- While the administrator's password is the initial one, a request with it too is refused by
  -- the routes that take over, change the send password, issue a monitor's token or list who is in
  -- the intercom, and leaves the application's state as it was.
  pub initial_password_gates :
      (s.app.admin_password == initial_admin_password) ≡ true
      → ((k : ℕ) → Refuses (takeover w now r k authorization))
        × ((p : Text) → Refuses (change_send_password w now r p authorization))
        × Refuses (issue_monitor w now r authorization)
        × ((k : ℕ) → Refuses (issue_intercom_monitor w now r k authorization))
        × Refuses (admin_intercom_status w now r authorization)
  unfolding takeover change_send_password issue_monitor issue_intercom_monitor admin_intercom_status
  initial_password_gates initial =
      let (_, _, refused, kept) =
        refusal s.app _ (admin_guard-initial w now r authorization s initial) in
      (
        λ k. rw refused kept,
        λ p. rw refused kept,
        rw refused kept,
        λ k. rw refused kept,
        rw refused kept,
      )

-- ===== src/Examples/Webhooks.antt =====
-- Tests of the webhook handler.
use ev211_field_server.Base.{arith, ◌≡◌, refl, true, false, List, some, [], ◌∷◌, codes}
use ev211_field_server.Identity.{speaker_identity, parse_speaker_identity}
use ev211_field_server.Identity.RoundTrip.{ascii_digits, parse-speaker_identity}
use ev211_field_server.Database.Rows.{participant_left}
use ev211_field_server.State.{AppState}
use ev211_field_server.Webhook.{handle}
use ev211_field_server.Events.{Env, done}
use ev211_field_server.Webhook.Enforcement.{IsLicensed, handle-IsLicensed}
use ev211_field_server.Webhook.Delivery.{
  Delivery, deliver, redelivery_changes_nothing, failed_uncommitted,
}
use ev211_field_server.Webhook.Invariant.{is_leased, on_air_has_lease}
use ev211_field_server.Examples.Program.{whole_program}
use ev211_field_server.Examples.Fixtures.{
  stranger_joins, state_one, env_one, env_failing, publication,
}

handle-IsLicensed_example : IsLicensed env_one publication state_one 1
unfolding whole_program
handle-IsLicensed_example =
    handle-IsLicensed env_one 1 10 publication state_one (λ t h. h) refl refl

-- A delivery between the two of the publication.
abbrev between : List Delivery
between = record { env = env_one; now = 15; event = stranger_joins } ∷ []

redelivery_changes_nothing_example :
    let t = deliver (handle env_one 10 publication state_one).1 between in
    handle env_failing 20 publication t ≡ (done, t)
unfolding whole_program
redelivery_changes_nothing_example =
    redelivery_changes_nothing env_one env_failing 10 20 publication state_one between refl refl
      ((λ t h. h), tt)

failed_uncommitted_example :
    (handle env_failing 10 stranger_joins state_one).1.db.processed_webhooks ≡ []
unfolding whole_program
failed_uncommitted_example =
    failed_uncommitted env_failing 10 stranger_joins state_one (λ t. refl) refl

-- The generation behind the speaker's.
abbrev rotated_state : AppState
rotated_state = record state_one { generation = 2 }

on_air_has_lease_example :
    is_leased 1 (deliver state_one (record { env = env_one; now = 10; event = publication } ∷ []))
    ≡ true
unfolding whole_program
on_air_has_lease_example =
    on_air_has_lease 1 state_one (record { env = env_one; now = 10; event = publication } ∷ []) refl
      ((λ t. ((λ h. h), (λ h. h))), tt)

-- The speaker leaves while its publication waits for the listing.
abbrev env_leaving : Env
env_leaving = record env_one {
  meanwhile = λ s.
      (handle env_one 11 (record publication { id = codes "e2"; event = participant_left }) s).1;
}

-- Then the channel is on air without a lease.
left_during_listing : is_leased 1 (handle env_leaving 10 publication state_one).1 ≡ false
unfolding whole_program
left_during_listing = refl

parse-speaker_identity_example :
    parse_speaker_identity ascii_digits (speaker_identity 1 1 1 (b'a' ∷ codes "b"))
    ≡ some (record {
      channel_id = 1;
      epoch = 1;
      generation = 1;
      nonce = b'a' ∷ codes "b";
      raw = speaker_identity 1 1 1 (b'a' ∷ codes "b");
    })
unfolding whole_program
parse-speaker_identity_example =
    parse-speaker_identity ascii_digits 1 1 1 b'a' (codes "b") (omega arith) (refl, (refl, tt))

-- ===== src/Examples/Requests.antt =====
-- Tests of the client's address.
use ev211_field_server.Base.{◌≡◌, refl, some, ◌∷◌, ◌++◌, codes, nat_eq, text_eq}
use ev211_field_server.HttpUtil.{client_ip}
use ev211_field_server.HttpUtil.Spoofing.{spoofed_prefix_ignored}
use ev211_field_server.Examples.Program.{whole_program}
use ev211_field_server.Examples.Fixtures.{texts, request}

spoofed_prefix_ignored_example :
    client_ip texts
      (record request {
        forwarded_for = some (codes "9.9.9.9" ++ b',' ∷ codes " 1.2.3.4, 10.0.0.1");
      })
      (codes "10.0.0.1")
    ≡ client_ip texts
        (record request { forwarded_for = some (codes " 1.2.3.4, 10.0.0.1") })
        (codes "10.0.0.1")
unfolding whole_program
spoofed_prefix_ignored_example =
    spoofed_prefix_ignored texts (codes "10.0.0.1") request (codes "9.9.9.9")
      (codes " 1.2.3.4, 10.0.0.1") refl

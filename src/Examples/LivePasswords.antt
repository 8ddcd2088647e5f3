-- ===== src/Examples/LivePasswords.antt =====
-- Tests of the live passwords.
use ev211_field_server.Base.{
  ℕ, Bool, false, ◌≡◌, refl, arith, true, some, [], ◌∷◌, Text, codes, ◌==◌, nat_eq, any,
}
use ev211_field_server.LiveAuth.{split_bearer}
use ev211_field_server.LiveAuth.Fresh.{Check, confirms, verified_recently}
use ev211_field_server.Examples.Program.{whole_program}

abbrev is_blank : ℕ → Bool
is_blank c = c == 32

abbrev first_check : Check
first_check = record {
  now = 10;
  answered = 20;
  token = some (codes "ab: secret");
  call_verify = λ code password. true;
}

-- The callback does not answer any more.
abbrev second_check : Check
second_check = record first_check { now = 30; answered = 40; call_verify = λ code password. false }

verified_recently_example :
    (p : Text × Text) × (split_bearer is_blank (λ t. t) second_check.token ≡ some p)
    × (any (confirms is_blank (λ t. t) p 30) (second_check ∷ first_check ∷ []) ≡ true)
unfolding whole_program
verified_recently_example =
    verified_recently is_blank (λ t. t) second_check (first_check ∷ []) (omega arith) refl

-- ===== src/Config/Safe.antt =====
-- What the settings of the environment are, where they load.
use ev211_field_server.Base.{
  ◌≢◌, text_beq_iff, any, sym, List, ◌==◌, ◌∷◌, ℕ, ◌≡◌, ◌≤◌, refl, inl, inr, Bool, true, false,
  ◌&&◌, ◌||◌, Option, none, some, [], ◌∷◌, Text, codes, ◌==◌, text_eq, leb, Bool-cases, arith,
}
use mathlib.Core.Path.{subst}
use ev211_field_server.State.{is_empty_text}
use ev211_field_server.Site.{SendAuthMode, password, callback, both}
use ev211_field_server.Config.{
  Integer, negative, natural, Reading, ConfigError, Loaded, Loading, loaded, stopped, ◌>>=◌,
  stop_if, in_range, number_of, mode_of, needs_callback, is_default, load_settings, send_pw,
  admin_pw, api_key, api_secret, api_base, secret, mode_text, send_password_default,
  admin_password_default, same_passwords, no_api_key, max_channels_invalid, intercom_max_invalid,
  no_callback,
}

abbrev Loads : {A : Type 0} → (A → Type 0) → Loading A → Type 0
Loads Q (loaded a) = Q a
Loads Q (stopped e) = Unit {0}

>>=-Loads :
    {A B : Type 0} (P : A → Type 0) (Q : B → Type 0) (m : Loading A) (f : A → Loading B)
    → Loads P m
    → ((a : A) → P a → Loads Q (f a))
    → Loads Q (m >>= f)
>>=-Loads P Q (loaded a) f h k = k a h
>>=-Loads P Q (stopped e) f h k = tt

Loads-anything : {A : Type 0} (m : Loading A) → Loads (λ _. Unit {0}) m
Loads-anything (loaded a) = tt
Loads-anything (stopped e) = tt

stop_if-Loads : (b : Bool) (e : ConfigError) → Loads (λ _. b ≡ false) (stop_if b e)
stop_if-Loads true e = tt
stop_if-Loads false e = refl

in_range-Loads :
    (lo hi : ℕ) (e : ConfigError) (o : Option Integer)
    → Loads (λ n. (lo ≤ n) × (n ≤ hi)) (in_range lo hi e o)
in_range-Loads lo hi e none = tt
in_range-Loads lo hi e (some negative) = tt
in_range-Loads lo hi e (some (natural n)) = elim (Bool-cases (leb lo n && leb n hi)) [
  | inl inside ↦ rw inside (ground arith, ground arith)
  | inr outside ↦ rw outside tt
]

number_of-Loads :
    (u : Reading) (lo hi d : ℕ) (e : ConfigError) (o : Option Text)
    → lo ≤ d
    → d ≤ hi
    → Loads (λ n. (lo ≤ n) × (n ≤ hi)) (number_of u lo hi d e o)
number_of-Loads u lo hi d e none low high = (low, high)
number_of-Loads u lo hi d e (some []) low high = (low, high)
number_of-Loads u lo hi d e (some (c ∷ t)) low high = in_range-Loads lo hi e (u.int (c ∷ t))

-- Neither empty nor, in lower case, a placeholder.
pub record IsChosen (u : Reading) (pw : Text) : Type 0 where
  pub filled : pw ≢ []
  pub not_change_me : u.lower pw ≢ codes "change-me"
  pub not_changeme : u.lower pw ≢ codes "changeme"
  pub not_blank : u.lower pw ≢ []
  pub not_password : u.lower pw ≢ codes "password"
  pub not_default : u.lower pw ≢ codes "default"

is_other :
    (d t : Text) (ds : List Text)
    → any (λ x. x == t) (d ∷ ds) ≡ false
    → (t ≢ d) × (any (λ x. x == t) ds ≡ false)
is_other d t ds h = (λ e. ground (arith, h, text_beq_iff d t, sym e), ground (arith, h))

chosen :
    (u : Reading) (env : Text → Option Text) (pw : Text)
    → is_default u env pw ≡ false
    → IsChosen u pw
unfolding is_default
chosen u env [] h = absurd (ground (arith, h))
chosen u env (c ∷ t) h =
    let low = u.lower (c ∷ t) in
    let (a, ha) =
      is_other (codes "change-me") low
        (codes "changeme" ∷ [] ∷ codes "password" ∷ codes "default" ∷ []) h in
    let (b, hb) =
      is_other (codes "changeme") low ([] ∷ codes "password" ∷ codes "default" ∷ []) ha in
    let (d, hd) = is_other [] low (codes "password" ∷ codes "default" ∷ []) hb in
    let (e, he) = is_other (codes "password") low (codes "default" ∷ []) hd in
    let (f, _) = is_other (codes "default") low [] he in
    record {
      filled = λ same. cc;
      not_change_me = a;
      not_changeme = b;
      not_blank = d;
      not_password = e;
      not_default = f;
    }

-- Two different passwords, neither empty nor a placeholder, and the two limits in their ranges.
pub record IsSafe (u : Reading) (r : Loaded) : Type 0 where
  pub send : IsChosen u r.send_password
  pub admin : IsChosen u r.admin_password
  pub differ : r.send_password ≢ r.admin_password
  pub channels : (1 ≤ r.max_channels) × (r.max_channels ≤ 15)
  pub intercom : (2 ≤ r.intercom_max) × (r.intercom_max ≤ 100)
  pub verified :
      r.send_auth_mode ≢ password → (r.ev211_api_base ≢ []) × (r.field_callback_secret ≢ [])

different : (s t : Text) → (s == t) ≡ false → s ≢ t
different s t h e = ground (arith, h, text_beq_iff s t, e)

filled : (t : Text) → is_empty_text t ≡ false → t ≢ []
filled [] h = cc
filled (c ∷ t) h = λ e. cc

has_verifier :
    (m : SendAuthMode) (base secret : Text)
    → (needs_callback m && (is_empty_text base || is_empty_text secret)) ≡ false
    → m ≢ password
    → (base ≢ []) × (secret ≢ [])
has_verifier password base secret h other = absurd (other refl)
has_verifier callback base secret h other =
    (filled base (ground (arith, h)), filled secret (ground (arith, h)))
has_verifier both base secret h other =
    (filled base (ground (arith, h)), filled secret (ground (arith, h)))

module _ (u : Reading) (env : Text → Option Text) where
  load_settings-Loads : Loads (IsSafe u) (load_settings u env)
  unfolding load_settings
  load_settings-Loads =
      let Q : Loaded → Type 0 = IsSafe u in
      let no_key : Bool = is_empty_text (api_key u env) || is_empty_text (api_secret u env) in
      let no_verifier : Bool = is_empty_text (api_base u env) || is_empty_text (secret u env) in
      >>=-Loads _ Q (stop_if (is_default u env (send_pw u env)) send_password_default) _
        (stop_if-Loads (is_default u env (send_pw u env)) send_password_default)
        (λ _ send.
          >>=-Loads _ Q (stop_if (is_default u env (admin_pw u env)) admin_password_default) _
            (stop_if-Loads (is_default u env (admin_pw u env)) admin_password_default)
            (λ _ admin.
              >>=-Loads _ Q (stop_if (send_pw u env == admin_pw u env) same_passwords) _
                (stop_if-Loads (send_pw u env == admin_pw u env) same_passwords)
                (λ _ differ.
                  >>=-Loads _ Q (stop_if no_key no_api_key) _ (stop_if-Loads no_key no_api_key)
                    (λ _ _.
                      >>=-Loads (λ n. (1 ≤ n) × (n ≤ 15)) Q
                        (number_of u 1 15 15 max_channels_invalid (env (codes "MAX_CHANNELS"))) _
                        (number_of-Loads u 1 15 15 max_channels_invalid (env (codes "MAX_CHANNELS"))
                          (omega arith) (omega arith))
                        (λ n channels.
                          >>=-Loads (λ n. (2 ≤ n) × (n ≤ 100)) Q
                            (number_of u 2 100 8 intercom_max_invalid
                              (env (codes "FIELD_INTERCOM_MAX")))
                            _
                            (number_of-Loads u 2 100 8 intercom_max_invalid
                              (env (codes "FIELD_INTERCOM_MAX")) (omega arith) (omega arith))
                            (λ m intercom.
                              >>=-Loads (λ _. Unit {0}) Q (mode_of (mode_text u env)) _
                                (Loads-anything (mode_of (mode_text u env)))
                                (λ mode _.
                                  >>=-Loads _ Q
                                    (stop_if (needs_callback mode && no_verifier) no_callback) _
                                    (stop_if-Loads (needs_callback mode && no_verifier) no_callback)
                                    (λ _ verified. record {
                                      send = chosen u env (send_pw u env) send;
                                      admin = chosen u env (admin_pw u env) admin;
                                      differ = different (send_pw u env) (admin_pw u env) differ;
                                      channels = channels;
                                      intercom = intercom;
                                      verified =
                                          has_verifier mode (api_base u env) (secret u env)
                                            verified;
                                    }))))))))

  -- Settings that load_settings answers have two different passwords, neither of them empty or, in
  -- lower case, one of the placeholders, and limits in their ranges, and where live passwords are
  -- verified by a callback they have the callback's address and secret. The passwords are those of
  -- the environment; a server that has stored others uses those.
  pub loaded-IsSafe : (r : Loaded) → load_settings u env ≡ loaded r → IsSafe u r
  loaded-IsSafe r h = subst (λ x. Loads (IsSafe u) x) h load_settings-Loads

-- ===== src/Routes/Bodies.antt =====
-- The bodies of requests in api/app/main.py: the limits of the fields and the validators, which
-- answer the cleaned value, or `none` for a validation error. The classes of characters and the
-- cases of letters are the parameters of `Characters`.
use ev211_field_server.Base.{
  ℕ, Bool, true, false, ◌&&◌, ◌||◌, not, Option, none, some, List, [], ◌∷◌, ◌++◌, Text, codes, ◌==◌,
  nat_eq, text_eq, leb, if◌then◌else◌, all, any, keep, length,
}
use ev211_field_server.HttpUtil.{on_first}
use ev211_field_server.LiveAuth.{stripped}
use ev211_field_server.State.{is_empty_text}

pub record Characters : Type 0 where
  pub is_space : ℕ → Bool
  pub is_printable : ℕ → Bool
  pub lower : Text → Text
  pub upper : Text → Text

abbrev pub is_alpha : ℕ → Bool
is_alpha c = (leb b'A' c && leb c b'Z') || (leb b'a' c && leb c b'z')

abbrev pub is_digit : ℕ → Bool
is_digit c = leb b'0' c && leb c b'9'

abbrev pub is_hex : ℕ → Bool
is_hex c = (leb b'A' c && leb c b'F') || (leb b'a' c && leb c b'f') || is_digit c

-- `str.isascii`
abbrev pub is_ascii : Text → Bool
is_ascii t = all (λ c. leb c 127) t

abbrev pub is_within : ℕ → ℕ → ℕ → Bool
is_within lo hi n = leb lo n && leb n hi

unfoldable pub split_dashes : Text → List Text
split_dashes [] = [] ∷ []
split_dashes (c ∷ s) = let rest = split_dashes s in if c == b'-' then [] ∷ rest else on_first c rest

-- The newline before which `$` matches.
unfoldable pub chomp : Text → Text
chomp [] = []
chomp (c ∷ []) = if c == 10 then [] else c ∷ []
chomp (c ∷ d ∷ s) = c ∷ chomp (d ∷ s)

abbrev pub is_subtag : Text → Bool
is_subtag t = all (λ c. is_alpha c || is_digit c) t && is_within 2 8 (length t)

abbrev pub are_tags : List Text → Bool
are_tags [] = false
are_tags (t ∷ ts) = all is_alpha t && is_within 2 3 (length t) && all is_subtag ts

-- `_BCP47.match`
unfoldable pub is_bcp47 : Text → Bool
unfolding split_dashes chomp
is_bcp47 t = are_tags (split_dashes (chomp t))

abbrev pub is_group : ℕ → Text → Bool
is_group n t = all is_hex t && (length t == n)

abbrev pub are_groups : List ℕ → List Text → Bool
are_groups [] [] = true
are_groups (n ∷ ns) (t ∷ ts) = is_group n t && are_groups ns ts
are_groups _ _ = false

-- `_UUID_RE.match`, of a text of 36 characters
unfoldable pub is_uuid : Text → Bool
unfolding split_dashes
is_uuid t = (length t == 36) && are_groups (8 ∷ 4 ∷ 4 ∷ 4 ∷ 12 ∷ []) (split_dashes t)

-- `ge=0, le=15`
abbrev pub is_channel_id : ℕ → Bool
is_channel_id k = leb k 15

abbrev pub forbidden_passwords : List Text
forbidden_passwords =
    codes "change-me" ∷ codes "changeme" ∷ codes "password" ∷ codes "default" ∷ codes "0000" ∷ []

abbrev pub supported_languages : List Text
supported_languages =
    codes "es"
    ∷ codes "pt"
    ∷ codes "fr"
    ∷ codes "ja"
    ∷ codes "ru"
    ∷ codes "zh"
    ∷ codes "de"
    ∷ codes "ko"
    ∷ codes "hi"
    ∷ codes "id"
    ∷ codes "vi"
    ∷ codes "it"
    ∷ codes "en"
    ∷ []

-- AI_CATALOG_LANGUAGES
abbrev pub catalog_languages : List Text
catalog_languages = codes "zh-CN" ∷ supported_languages

-- What stands before the first dash and behind it, both empty where there is none.
abbrev pub region_of : List Text → Text
region_of [] = []
region_of (t ∷ []) = t
region_of (t ∷ u ∷ ts) = t ++ b'-' ∷ region_of (u ∷ ts)

module _ (u : Characters) where
  abbrev pub clean : Text → Text
  clean t = stripped u.is_space u.upper t

  -- `_clean_display`
  unfoldable pub clean_display : Text → Text
  clean_display t = keep u.is_printable (clean t)

  -- The language and the label of a ChannelCreateBody.
  unfoldable pub channel_create : Text → Text → Option ℕ → Option (Text × Text)
  unfolding is_bcp47
  channel_create language label channel_id =
      if is_bcp47 language
        && is_within 1 40 (length label)
        && elim channel_id [ none ↦ true | some k ↦ is_channel_id k ]
      then some (language, label)
      else none

  abbrev pub with_region : Text → Text
  with_region [] = []
  with_region (c ∷ t) = b'-' ∷ u.upper (c ∷ t)

  abbrev pub normal_language : List Text → Text
  normal_language [] = []
  normal_language (lang ∷ rest) = u.lower lang ++ with_region (region_of rest)

  -- The language of an AiChannelCreateBody.
  unfoldable pub ai_language : Text → Option Text
  unfolding split_dashes
  ai_language t =
      let v = normal_language (split_dashes (clean t)) in
      if any (λ l. l == v) catalog_languages then some v else none

  -- The name of an IntercomTokenBody or an IntercomChannelEnterBody.
  unfoldable pub display_name : Text → Option Text
  unfolding clean_display
  display_name t = if leb (length t) 20 then some (clean_display t) else none

  -- The name of an IntercomChannelCreateBody.
  unfoldable pub channel_name : Text → Option Text
  unfolding clean_display
  channel_name t =
      if is_within 1 30 (length t) && not (is_empty_text (clean_display t))
      then some (clean_display t)
      else none

  abbrev pub is_channel_password : Text → Bool
  is_channel_password v = leb 4 (length v) && is_ascii v

  -- The password of an IntercomChannelCreateBody; the inner `none` is no password.
  unfoldable pub channel_password : Option Text → Option (Option Text)
  channel_password none = some none
  channel_password (some t) =
      let v = clean t in
      if not (leb (length t) 64)
      then none
      else if is_empty_text v
      then some none
      else if is_channel_password v
      then some (some v)
      else none

  -- The new password of a PasswordChangeBody.
  unfoldable pub password_change : Text → Option Text
  password_change t =
      let v = clean t in
      if is_within 4 64 (length t)
        && is_channel_password v
        && not (any (λ p. p == u.lower v) forbidden_passwords)
      then some v
      else none

  -- The listener of a HeartbeatBody.
  unfoldable pub listener_id : ℕ → Text → Option Text
  unfolding is_uuid
  listener_id channel_id t = if is_channel_id channel_id && is_uuid t then some t else none

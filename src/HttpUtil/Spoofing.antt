-- ===== src/HttpUtil/Spoofing.antt =====
-- A client cannot choose its address.
use ev211_field_server.Base.{
  ℕ, ◌≡◌, refl, ap, sym, ◌∙◌, Bool, true, not, some, List, [], ◌∷◌, ◌++◌, Text, ◌==◌, nat_eq,
  Bool-cases, Option-cases, inl, inr, if◌then◌else◌, any, arith,
}
use ev211_field_server.Utterances.{rstrip}
use ev211_field_server.HttpUtil.{
  Addresses, Request, on_first, split_commas, host_or_unknown, stripped_parts, is_trusted,
  last_untrusted, from_header, client_ip,
}

on_first_twice :
    (c d : ℕ) (xs qs : List Text)
    → on_first c (on_first d xs ++ qs) ≡ on_first c (on_first d xs) ++ qs
on_first_twice c d [] qs = refl
on_first_twice c d (x ∷ xs) qs = refl

on_first-append :
    (c : ℕ) (s : Text) (qs : List Text)
    → on_first c (split_commas s ++ qs) ≡ on_first c (split_commas s) ++ qs
unfolding split_commas
on_first-append c [] qs = refl
on_first-append c (d ∷ s) qs = elim (Bool-cases (d == b',')) [
  | inl comma ↦ rw comma refl
  | inr other ↦ rw other (on_first_twice c d (split_commas s) qs)
]

split_commas-append : (a b : Text) → split_commas (a ++ b',' ∷ b) ≡ split_commas a ++ split_commas b
unfolding split_commas
split_commas-append [] b = refl
split_commas-append (c ∷ a) b =
    ground (arith, split_commas-append a b, on_first-append c a (split_commas b))

module _ (u : Addresses) (allow_ips : Text) where
  parts-append :
      (ps qs : List Text) → stripped_parts u (ps ++ qs) ≡ stripped_parts u ps ++ stripped_parts u qs
  parts-append [] qs = refl
  parts-append (p ∷ ps) qs = ground (arith, parts-append ps qs)

  abbrev untrusted : Text → Bool
  untrusted p = not (is_trusted u allow_ips p)

  last_untrusted_found :
      (qs : List Text)
      → any untrusted qs ≡ true
      → (ip : Text) × (last_untrusted u allow_ips qs ≡ some ip)
  unfolding last_untrusted
  last_untrusted_found [] h = cc
  last_untrusted_found (q ∷ qs) h = elim (Bool-cases (any untrusted qs)) [
    | inl later ↦ let (ip, e) = last_untrusted_found qs later in (ip, rw e refl)
    | inr none_later ↦ elim (Option-cases (last_untrusted u allow_ips qs)) [
      | inl nothing ↦ (q, ground (arith, h, none_later, nothing))
      | inr (ip, e) ↦ (ip, rw e refl)
    ]
  ]

  last_untrusted-append :
      (ps qs : List Text) (ip : Text)
      → last_untrusted u allow_ips qs ≡ some ip
      → last_untrusted u allow_ips (ps ++ qs) ≡ some ip
  unfolding last_untrusted
  last_untrusted-append [] qs ip e = e
  last_untrusted-append (p ∷ ps) qs ip e = rw (last_untrusted-append ps qs ip e) refl

  -- The entries of a header.
  abbrev pub entries : Text → List Text
  entries s = stripped_parts u (split_commas s)

  header_answer :
      (peer s ip : Text)
      → last_untrusted u allow_ips (entries s) ≡ some ip
      → from_header u allow_ips peer (some s) ≡ ip
  unfolding from_header last_untrusted split_commas rstrip
  header_answer peer [] ip e = cc
  header_answer peer (c ∷ s) ip e = rw e refl

  -- Where a header has an entry that is not trusted, whatever stands in front of it, behind a comma,
  -- does not change the address that is taken for the client's.
  pub spoofed_prefix_ignored :
      (r : Request) (spoofed s : Text)
      → any (λ p. not (is_trusted u allow_ips p)) (entries s) ≡ true
      → client_ip u (record r { forwarded_for = some (spoofed ++ b',' ∷ s) }) allow_ips
        ≡ client_ip u (record r { forwarded_for = some s }) allow_ips
  unfolding client_ip
  spoofed_prefix_ignored r spoofed s h =
      let peer = host_or_unknown r.client_host in
      let (ip, e) = last_untrusted_found (entries s) h in
      let longer =
        ap (last_untrusted u allow_ips) (
          ap (stripped_parts u) (split_commas-append spoofed s)
          ∙ parts-append (split_commas spoofed) (split_commas s))
        ∙ last_untrusted-append (entries spoofed) (entries s) ip e in
      ap (λ a. if not (is_trusted u allow_ips peer) then peer else a)
        (header_answer peer (spoofed ++ b',' ∷ s) ip longer ∙ sym (header_answer peer s ip e))

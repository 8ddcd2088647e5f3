-- ===== src/Routes/Guards/Refused.antt =====
-- What a request without the password gets: a refusal, and no change of the application's state.
use ev211_field_server.Base.{
  ℕ, ◌≡◌, ◌∙◌, ap, refl, Bool, true, false, Option, Text, ◌==◌, text_eq, Result, ok, raised, arith,
}
use ev211_field_server.HttpUtil.{Request}
use ev211_field_server.State.{AppState}
use ev211_field_server.Site.{World, Site, Refusal, Handler, ◌>>=◌, refuse_if}
use ev211_field_server.Site.Steps.{Gives, >>=-Gives}
use ev211_field_server.Routes.Guards.{
  auth_bearer, auth_live, auth_send, https_guard, check_lock, check_publish, check_admin,
  publish_allowed, admin_allowed, count_publish, count_admin, send_guard, admin_guard, ip_of,
  is_initial, initial_admin_password, must_change_password,
}

-- Refused, with the application's state as it was.
abbrev pub IsRefused : {A : Type 0} → AppState → Result Refusal A × Site → Type 0
IsRefused app x = Gives (λ _ _. ⊥) (λ t. t.app ≡ app) x

-- The refusal, written out.
pub refusal :
    {A : Type 0} (app : AppState) (x : Result Refusal A × Site)
    → IsRefused app x
    → (e : Refusal) × (t : Site) × (x ≡ (raised e, t)) × (t.app ≡ app)
refusal app (ok a, t) h = absurd h
refusal app (raised e, t) h = (e, t, refl, h)

IsRefused-first :
    {A B : Type 0} (app : AppState) (m : Handler A) (f : A → Handler B) (s : Site)
    → IsRefused app (m s)
    → IsRefused app ((m >>= f) s)
IsRefused-first app m f s h =
    >>=-Gives (λ _ _. ⊥) (λ _ _. ⊥) (λ t. t.app ≡ app) m f s h (λ a t impossible. absurd impossible)

module _ (w : World) (now : ℕ) where
  -- What the answer to a password rests on.
  abbrev SameAuth : Site → Site → Type 0
  SameAuth s t = (t.app ≡ s.app) × (t.live_cache ≡ s.live_cache)

  https-Same :
      (r : Request) (s : Site)
      → Gives (λ _ t. SameAuth s t) (λ t. t.app ≡ s.app) (https_guard w r s)
  unfolding https_guard
  https-Same r s = ground arith

  publish_allowed-Same :
      (ip : Text) (s t : Site)
      → SameAuth s t
      → Gives (λ _ u. SameAuth s u) (λ u. u.app ≡ s.app) (publish_allowed w now ip t)
  unfolding publish_allowed check_lock check_publish
  publish_allowed-Same ip s t h = ground arith

  admin_allowed-Same :
      (ip : Text) (s t : Site)
      → SameAuth s t
      → Gives (λ _ u. SameAuth s u) (λ u. u.app ≡ s.app) (admin_allowed w now ip t)
  unfolding admin_allowed check_lock check_admin
  admin_allowed-Same ip s t h = ground arith

  auth_send-Same :
      (authorization : Option Text) (s t : Site)
      → SameAuth s t
      → (auth_send w now authorization s).0 ≡ false
      → (auth_send w now authorization t).0 ≡ false
  unfolding auth_send auth_live
  auth_send-Same authorization s t (same, cache) h = ground arith

  auth_send-denied :
      (authorization : Option Text) (s : Site)
      → (auth_send w now authorization s).0 ≡ false
      → (auth_send w now authorization s).1.app ≡ s.app
  unfolding auth_send auth_live
  auth_send-denied authorization s h = ground arith

  abbrev IsDenied : AppState → Bool → Site → Type 0
  IsDenied app b t = (b ≡ false) × (t.app ≡ app)

  abbrev sent : Option Text → Handler Bool
  sent authorization s = let (b, s') = auth_send w now authorization s in (ok b, s')

  sent-IsDenied :
      (authorization : Option Text) (s t : Site)
      → SameAuth s t
      → (auth_send w now authorization s).0 ≡ false
      → Gives (IsDenied s.app) (λ u. u.app ≡ s.app) (sent authorization t)
  sent-IsDenied authorization s t same wrong =
      let again = auth_send-Same authorization s t same wrong in
      (again, auth_send-denied authorization t again ∙ same.0)

  count_publish-IsRefused :
      (app : AppState) (denial : Refusal) (ip : Text) (b : Bool) (s : Site)
      → IsDenied app b s
      → IsRefused app (count_publish w now ip denial b s)
  unfolding count_publish
  count_publish-IsRefused app denial ip b s h = ground arith

  count_admin-IsRefused :
      (app : AppState) (ip : Text) (b : Bool) (s : Site)
      → IsDenied app b s
      → IsRefused app (count_admin w now ip b s)
  unfolding count_admin
  count_admin-IsRefused app ip b s h = ground arith

  -- The guard of the senders' routes refuses whoever does not pass `_auth_send`.
  pub send_guard-IsRefused :
      (denial : Refusal) (r : Request) (authorization : Option Text) (s : Site)
      → (auth_send w now authorization s).0 ≡ false
      → IsRefused s.app (send_guard w denial now r authorization s)
  unfolding send_guard
  send_guard-IsRefused denial r authorization s wrong =
      let Kept : Site → Type 0 = λ t. t.app ≡ s.app in
      >>=-Gives (λ _ t. SameAuth s t) (λ _ _. ⊥) Kept (https_guard w r) _ s (https-Same r s)
        (λ _ t same.
          >>=-Gives (λ _ u. SameAuth s u) (λ _ _. ⊥) Kept (publish_allowed w now (ip_of w r)) _ t
            (publish_allowed-Same (ip_of w r) s t same)
            (λ _ u same₁.
              >>=-Gives (IsDenied s.app) (λ _ _. ⊥) Kept (sent authorization) _ u
                (sent-IsDenied authorization s u same₁ wrong)
                (λ b v no. count_publish-IsRefused s.app denial (ip_of w r) b v no)))

  -- The guard of the administrators' routes refuses whoever does not have the password.
  pub admin_guard-IsRefused :
      (allow_initial : Bool) (r : Request) (authorization : Option Text) (s : Site)
      → auth_bearer w authorization s.app.admin_password ≡ false
      → IsRefused s.app (admin_guard w allow_initial now r authorization s)
  unfolding admin_guard
  admin_guard-IsRefused allow_initial r authorization s wrong =
      let Kept : Site → Type 0 = λ t. t.app ≡ s.app in
      >>=-Gives (λ _ t. SameAuth s t) (λ _ _. ⊥) Kept (https_guard w r) _ s (https-Same r s)
        (λ _ t same.
          >>=-Gives (λ _ u. SameAuth s u) (λ _ _. ⊥) Kept (admin_allowed w now (ip_of w r)) _ t
            (admin_allowed-Same (ip_of w r) s t same)
            (λ _ u same₁.
              IsRefused-first s.app
                (count_admin w now (ip_of w r) (auth_bearer w authorization u.app.admin_password)) _
                u
                (count_admin-IsRefused s.app (ip_of w r)
                  (auth_bearer w authorization u.app.admin_password) u
                  (
                    ap (λ (a : AppState). auth_bearer w authorization a.admin_password) same₁.0
                        ∙ wrong,
                    same₁.0,
                  ))))

  count_admin-Kept :
      (ip : Text) (b : Bool) (s t : Site)
      → t.app ≡ s.app
      → Gives (λ _ u. u.app ≡ s.app) (λ u. u.app ≡ s.app) (count_admin w now ip b t)
  unfolding count_admin
  count_admin-Kept ip b s t h = ground arith

  gated :
      (s t : Site)
      → t.app ≡ s.app
      → (s.app.admin_password == initial_admin_password) ≡ true
      → IsRefused s.app (refuse_if (is_initial w false t) must_change_password t)
  unfolding is_initial
  gated s t same initial =
      rw
        (
          ap (λ (a : AppState). a.admin_password == initial_admin_password) same ∙ initial,
          refuse_if,
        )
        same

  -- With the initial password that guard refuses everyone.
  pub admin_guard-initial :
      (r : Request) (authorization : Option Text) (s : Site)
      → (s.app.admin_password == initial_admin_password) ≡ true
      → IsRefused s.app (admin_guard w false now r authorization s)
  unfolding admin_guard
  admin_guard-initial r authorization s initial =
      let Kept : Site → Type 0 = λ t. t.app ≡ s.app in
      >>=-Gives (λ _ t. SameAuth s t) (λ _ _. ⊥) Kept (https_guard w r) _ s (https-Same r s)
        (λ _ t same.
          >>=-Gives (λ _ u. SameAuth s u) (λ _ _. ⊥) Kept (admin_allowed w now (ip_of w r)) _ t
            (admin_allowed-Same (ip_of w r) s t same)
            (λ _ u same₁.
              >>=-Gives (λ _ v. v.app ≡ s.app) (λ _ _. ⊥) Kept
                (count_admin w now (ip_of w r) (auth_bearer w authorization u.app.admin_password)) _
                u
                (count_admin-Kept (ip_of w r) (auth_bearer w authorization u.app.admin_password) s u
                  same₁.0)
                (λ _ v same₂. gated s v same₂ initial)))

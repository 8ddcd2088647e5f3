-- ===== src/Site/Steps.antt =====
-- A chain of handlers, step by step: `Gives Q R` says that a well answered step leaves `Q` of the
-- answer and the state, and a refused one `R` of the state.
use mathlib.Core.Path.{subst}
use ev211_field_server.Base.{◌≡◌, refl, Bool, true, false, Result, ok, raised}
use ev211_field_server.Site.{Site, Refusal, Handler, bound, ◌>>=◌, refuse_if}

abbrev pub Gives :
    {A : Type 0} → (A → Site → Type 0) → (Site → Type 0) → Result Refusal A × Site → Type 0
Gives Q R (ok a, s) = Q a s
Gives Q R (raised e, s) = R s

abbrev pub Anything : Site → Type 0
Anything s = Unit {0}

bound-Gives :
    {A B : Type 0} (P : A → Site → Type 0) (Q : B → Site → Type 0) (R : Site → Type 0)
    (f : A → Handler B) (x : Result Refusal A × Site)
    → Gives P R x
    → ((a : A) (t : Site) → P a t → Gives Q R (f a t))
    → Gives Q R (bound f x)
bound-Gives P Q R f (ok a, s) h k = k a s h
bound-Gives P Q R f (raised e, s) h k = h

pub >>=-Gives :
    {A B : Type 0} (P : A → Site → Type 0) (Q : B → Site → Type 0) (R : Site → Type 0)
    (m : Handler A) (f : A → Handler B) (s : Site)
    → Gives P R (m s)
    → ((a : A) (t : Site) → P a t → Gives Q R (f a t))
    → Gives Q R ((m >>= f) s)
>>=-Gives P Q R m f s h k = bound-Gives P Q R f (m s) h k

pub refuse_if-Gives :
    (P R : Site → Type 0) (b : Bool) (e : Refusal) (s : Site)
    → (b ≡ false → P s)
    → R s
    → Gives (λ _ t. P t) R (refuse_if b e s)
refuse_if-Gives P R true e s h r = r
refuse_if-Gives P R false e s h r = h refl

-- What holds of a step holds of the answer that it is known to give.
pub gives_ok :
    {A : Type 0} (Q : A → Site → Type 0) (R : Site → Type 0) (x : Result Refusal A × Site) {a : A}
    {t : Site}
    → x ≡ (ok a, t)
    → Gives Q R x
    → Q a t
gives_ok Q R x e h = subst (λ y. Gives Q R y) e h

pub gives_raised :
    {A : Type 0} (Q : A → Site → Type 0) (R : Site → Type 0) (x : Result Refusal A × Site)
    {e : Refusal} {t : Site}
    → x ≡ (raised e, t)
    → Gives Q R x
    → R t
gives_raised Q R x e h = subst (λ y. Gives Q R y) e h

Gives-Anything : {A : Type 0} (x : Result Refusal A × Site) → Gives (λ _ _. Unit {0}) Anything x
Gives-Anything (ok a, s) = tt
Gives-Anything (raised e, s) = tt

-- A step of which nothing is asked.
pub >>=-skip :
    {A B : Type 0} (Q : B → Site → Type 0) (m : Handler A) (f : A → Handler B) (s : Site)
    → ((a : A) (t : Site) → Gives Q Anything (f a t))
    → Gives Q Anything ((m >>= f) s)
>>=-skip Q m f s k =
    >>=-Gives (λ _ _. Unit {0}) Q Anything m f s (Gives-Anything (m s)) (λ a t _. k a t)

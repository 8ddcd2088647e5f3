-- ===== src/Base/Dict.antt =====
-- Python dicts and SQLite tables with a primary key: association lists, one entry a key.
-- A write keeps the place of an existing key and appends a new one.
use mathlib.Core.Path.{◌≡◌, refl}
use mathlib.Core.Bool.{Bool, true, false}
use mathlib.Core.Option
use mathlib.Core.Option.{Option, none, some}
use mathlib.Core.List.{List, [], ◌∷◌}
use native.Mathlib.Omega.{arith}
use package.ev211_field_server.Base.Tests.{if◌then◌else◌}
use package.ev211_field_server.Base.Lists.{any}
use package.ev211_field_server.Base.Equality.{Eq, ◌==◌}

module _ {ℓ κ} {K : Type ℓ} {V : Type κ} ⦃e : Eq K⦄ where
  unfoldable pub get : List (K × V) → K → Option V
  get [] k = none
  get ((j, v) ∷ d) k = if j == k then some v else get d k

  unfoldable pub put : List (K × V) → K → V → List (K × V)
  put [] k v = (k, v) ∷ []
  put ((j, w) ∷ d) k v = if j == k then (k, v) ∷ d else (j, w) ∷ put d k v

  -- d.pop(k, None), DELETE ... WHERE key = k
  unfoldable pub remove : List (K × V) → K → List (K × V)
  remove [] k = []
  remove ((j, w) ∷ d) k = let rest = remove d k in if j == k then rest else (j, w) ∷ rest

  pub get-put :
      (d : List (K × V)) (k j : K) (v : V)
      → get (put d k v) j ≡ (if k == j then some v else get d j)
  unfolding get put
  get-put [] k j v = refl
  get-put ((i, w) ∷ d) k j v =
      ground (arith, e.same_iff k j, e.same_iff i k, e.same_iff i j, get-put d k j v)

  pub get-remove :
      (d : List (K × V)) (k j : K) → get (remove d k) j ≡ (if k == j then none else get d j)
  unfolding get remove
  get-remove [] k j = ground arith
  get-remove ((i, w) ∷ d) k j =
      ground (arith, e.same_iff k j, e.same_iff i k, e.same_iff i j, get-remove d k j)

module _ {ℓ κ} {K : Type ℓ} {V : Type κ} ⦃e : Eq K⦄ where
  -- UPDATE ... WHERE key = k
  unfoldable pub modify : List (K × V) → K → (V → V) → List (K × V)
  modify [] k f = []
  modify ((j, v) ∷ d) k f = if j == k then (j, f v) ∷ d else (j, v) ∷ modify d k f

  pub get-modify :
      (d : List (K × V)) (k j : K) (f : V → V)
      → get (modify d k f) j ≡ (if k == j then Option.map f (get d j) else get d j)
  unfolding get modify
  get-modify [] k j f = ground arith
  get-modify ((i, w) ∷ d) k j f =
      ground (arith, e.same_iff k j, e.same_iff i k, e.same_iff i j, get-modify d k j f)

  -- UPDATE of every row, by its key and its columns.
  unfoldable pub map_rows : (K → V → V) → List (K × V) → List (K × V)
  map_rows f [] = []
  map_rows f ((j, v) ∷ d) = (j, f j v) ∷ map_rows f d

  pub get-map_rows :
      (f : K → V → V) (d : List (K × V)) (k : K) → get (map_rows f d) k ≡ Option.map (f k) (get d k)
  unfolding get map_rows
  get-map_rows f [] k = refl
  get-map_rows f ((j, v) ∷ d) k = ground (arith, e.same_iff j k, get-map_rows f d k)

  unfoldable pub remove_all : List (K × V) → List K → List (K × V)
  remove_all d [] = d
  remove_all d (k ∷ ks) = remove_all (remove d k) ks

  pub get-remove_all :
      (d : List (K × V)) (ks : List K) (j : K)
      → get (remove_all d ks) j ≡ (if any (λ k. k == j) ks then none else get d j)
  unfolding remove_all
  get-remove_all d [] j = refl
  get-remove_all d (k ∷ ks) j = ground (arith, get-remove_all (remove d k) ks j, get-remove d k j)

  unfoldable pub has : List (K × V) → K → Bool
  has d k = elim (get d k) [ none ↦ false | some _ ↦ true ]

pub ruleset dict_laws = (get-put, get-remove, get-modify, get-map_rows, get-remove_all)

-- ===== src/Prelude/Dict.antt =====
-- Python's `dict`: keys in order of insertion. An assignment to a key that is there keeps its
-- place, and `pop` of a key that is not there changes nothing.
use mathlib.Core.Path.{◌≡◌, refl}
use mathlib.Core.Bool.{Bool, true, false}
use mathlib.Core.List.{List, [], ◌∷◌}
use mathlib.Core.Option.{Option, none, some}
use native.Mathlib.Omega.{arith}
use radio_broadcast_analysis.Prelude.Tests.{Eq, ◌==◌, if◌then◌else◌}
use radio_broadcast_analysis.Prelude.Lists.{All, All-imp, length, filterb}
use Prim.Native.Nat.{suc, ◌≤◌}

abbrev pub Dict {ℓ κ} : Type ℓ → Type κ → Type (ℓ ⊔ κ)
Dict K V = List (K × V)

module _ {ℓ κ} {K : Type ℓ} {V : Type κ} ⦃e : Eq K⦄ where
  -- d.get(k)
  unfoldable pub get : Dict K V → K → Option V
  get [] k = none
  get ((j, v) ∷ d) k = if j == k then some v else get d k

  -- k in d
  unfoldable pub contains : Dict K V → K → Bool
  contains [] k = false
  contains ((j, v) ∷ d) k = if j == k then true else contains d k

  -- d[k] = v
  unfoldable pub put : Dict K V → K → V → Dict K V
  put [] k v = (k, v) ∷ []
  put ((j, w) ∷ d) k v = if j == k then (j, v) ∷ d else (j, w) ∷ put d k v

  -- d.pop(k, None)
  unfoldable pub pop : Dict K V → K → Dict K V
  pop [] k = []
  pop ((j, w) ∷ d) k = if j == k then d else (j, w) ∷ pop d k

  pub get-put :
      (d : Dict K V) (k j : K) (v : V) → get (put d k v) j ≡ (if k == j then some v else get d j)
  unfolding get put
  get-put [] k j v = refl
  get-put ((i, w) ∷ d) k j v =
      ground (arith, e.is_same_iff i k, e.is_same_iff i j, e.is_same_iff k j, get-put d k j v)

  pub contains-get : (d : Dict K V) (k : K) → contains d k ≡ false → get d k ≡ none
  unfolding get contains
  contains-get [] k h = refl
  contains-get ((j, v) ∷ d) k h = ground (arith, contains-get d k)

  pub contains-put :
      (d : Dict K V) (k j : K) (v : V)
      → contains (put d k v) j ≡ (if k == j then true else contains d j)
  unfolding contains put
  contains-put [] k j v = refl
  contains-put ((i, w) ∷ d) k j v =
      ground (arith, e.is_same_iff i k, e.is_same_iff i j, e.is_same_iff k j, contains-put d k j v)

  -- A predicate of the slots survives an assignment that meets it.
  pub All-put {μ} :
      (P : K × V → Type μ) (d : Dict K V) (k : K) (v : V) → All P d → P (k, v) → All P (put d k v)
  unfolding put
  All-put P [] k v h p = (p, tt)
  All-put P ((j, w) ∷ d) k v h p = ground (arith, e.is_same_iff j k, All-put P d k v h.1 p)

  -- d.get(j) after d.pop(k, None), for another key
  pub get-pop_other : (d : Dict K V) (k j : K) → (k == j) ≡ false → get (pop d k) j ≡ get d j
  unfolding get pop
  get-pop_other [] k j h = refl
  get-pop_other ((i, w) ∷ d) k j h =
      ground (arith, e.is_same_iff i k, e.is_same_iff i j, e.is_same_iff k j, get-pop_other d k j h)

  pub contains-pop_none :
      (d : Dict K V) (k j : K) → contains d j ≡ false → contains (pop d k) j ≡ false
  unfolding contains pop
  contains-pop_none [] k j h = refl
  contains-pop_none ((i, w) ∷ d) k j h = ground (arith, contains-pop_none d k j)

  -- No key stands in two slots.
  abbrev pub Unique : Dict K V → Type 0
  Unique [] = Unit
  Unique ((k, v) ∷ d) = (contains d k ≡ false) × Unique d

  pub contains-pop :
      (d : Dict K V) (k j : K)
      → Unique d
      → contains (pop d k) j ≡ (if k == j then false else contains d j)
  unfolding contains pop
  contains-pop [] k j u = ground arith
  contains-pop ((i, w) ∷ d) k j u =
      ground (
        arith,
        e.is_same_iff i k,
        e.is_same_iff i j,
        e.is_same_iff k j,
        contains-pop d k j u.1,
        u.0,
      )

  pub pop-Unique : (d : Dict K V) (k : K) → Unique d → Unique (pop d k)
  unfolding pop
  pop-Unique [] k u = tt
  pop-Unique ((i, w) ∷ d) k u = ground (arith, contains-pop_none d k i u.0, pop-Unique d k u.1)

  pub put-Unique : (d : Dict K V) (k : K) (v : V) → Unique d → Unique (put d k v)
  unfolding put contains
  put-Unique [] k v u = (refl, tt)
  put-Unique ((i, w) ∷ d) k v u = ground (
    arith,
    contains-put d k i v,
    e.is_same_iff i k,
    e.is_same_iff k i,
    u.0,
    u.1,
    put-Unique d k v u.1,
  )

  pub contains-filterb :
      (p : K × V → Bool) (d : Dict K V) (k : K)
      → contains d k ≡ false
      → contains (filterb p d) k ≡ false
  unfolding contains
  contains-filterb p [] k h = refl
  contains-filterb p ((i, w) ∷ d) k h = ground (arith, contains-filterb p d k)

  pub filterb-Unique : (p : K × V → Bool) (d : Dict K V) → Unique d → Unique (filterb p d)
  filterb-Unique p [] u = tt
  filterb-Unique p ((i, w) ∷ d) u =
      ground (arith, contains-filterb p d i u.0, filterb-Unique p d u.1)

  pub length-put-le : (d : Dict K V) (k : K) (v : V) → length (put d k v) ≤ suc (length d)
  unfolding put
  length-put-le [] k v = omega arith
  length-put-le ((i, w) ∷ d) k v = ground (arith, length-put-le d k v)

  pub length-put-present :
      (d : Dict K V) (k : K) (v w : V) → get d k ≡ some w → length (put d k v) ≡ length d
  unfolding put get
  length-put-present [] k v w h = absurd cc
  length-put-present ((i, x) ∷ d) k v w h = ground (arith, length-put-present d k v w)

  pub length-pop-le : (d : Dict K V) (k : K) → length (pop d k) ≤ length d
  unfolding pop
  length-pop-le [] k = omega arith
  length-pop-le ((i, w) ∷ d) k = ground (arith, length-pop-le d k)

  -- An assignment to a key that is there adds none.
  pub contains-put_present :
      (d : Dict K V) (k j : K) (v w : V) → get d k ≡ some w → contains (put d k v) j ≡ contains d j
  unfolding put get contains
  contains-put_present [] k j v w h = absurd cc
  contains-put_present ((i, x) ∷ d) k j v w h =
      ground (arith, e.is_same_iff i k, contains-put_present d k j v w)

  -- Each slot stands under a key of the dictionary.
  pub All-contains : (d : Dict K V) → All (λ slot. contains d slot.0 ≡ true) d
  unfolding contains
  All-contains [] = tt
  All-contains ((i, w) ∷ d) = (
    ground (arith, (e.is_same_iff i i).1 refl),
    All-imp (λ slot h. ground (arith, h)) d (All-contains d),
  )

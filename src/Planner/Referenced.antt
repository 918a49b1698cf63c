-- ===== src/Planner/Referenced.antt =====
-- What a planning cycle makes of the stations that campaigns refer to.
use radio_broadcast_analysis.Prelude.{
  ℕ, suc, ◌+◌, ◌-◌, String, Bool, true, false, ◌&&◌, ◌||◌, Option, none, some, List, [], ◌∷◌, ◌≡◌,
  ◌⊎◌, refl, sym, ap, ◌∙◌, subst, inl, inr, arith, if◌then◌else◌, ltb, leb, nat_eq, member, filterb,
  count, nat_Eq, string_Eq, eq_iff, str_eq, Bool-cases, if_both, if_cases,
}
use radio_broadcast_analysis.Prelude.Dict.{Dict, get, contains}
use radio_broadcast_analysis.Prelude.Sort.{sort_by, count-sort_by}
use radio_broadcast_analysis.Prelude.Text.{text_leb}
use radio_broadcast_analysis.Planner.{
  State, Subscription, IndexVersion, Binding, Database, PlannerSettings, Resolver, Table,
  update_row, armed, released, pooled,
}
use radio_broadcast_analysis.Planner.Cycle.{
  keys, references, bindings_of, latest, shard_index_of, fill_stream_url, write_row, upsert_all,
  is_assignable, assigned_stations, is_stopped, wind_down, wind_down_all, publish_version,
  publish_one, publish_indexes, pool, plan_once,
}
use radio_broadcast_analysis.Planner.Rows.{
  HasRow, update_row-HasRow, get-set_row_other, in_pool, in_pool-assignable, Serves, same_row,
}
use radio_broadcast_analysis.Planner.Written.{
  fill-Serves, get-fill_other, get-write_row_other, Written, write_row-here,
}

module _ (is_space : ℕ → Bool) (hash : List ℕ → ℕ) (settings : PlannerSettings) (now : ℕ) where
  module _ {B : Type 0} (resolver : Option Resolver) (desired : Dict String (List (Binding B)))
      (existing : Table) (id : String) where
    -- The row that the campaigns of the station ask for.
    abbrev Wanted : (State → Bool) → Table → Type 0
    Wanted good =
        HasRow
          (Serves good (references (bindings_of (get desired id)))
            (shard_index_of is_space hash settings id))
          id

    abbrev filled : String → ℕ → Table → Bool × Table
    filled j budget t =
        let t1 =
          write_row is_space hash settings j (references (bindings_of (get desired j))) now
            (get existing j) t in
        if ltb 0 budget
        then fill_stream_url is_space hash settings resolver j (get existing j) now t1
        else (false, t1)

    filled-here :
        (budget : ℕ) (t : Table)
        → Written is_space hash settings now
            (references (bindings_of (get desired id)))
            existing
            id
            t
        → Wanted is_assignable (filled id budget t).1
    filled-here budget t h =
        let n = references (bindings_of (get desired id)) in
        let t1 = write_row is_space hash settings id n now (get existing id) t in
        let k = write_row-here is_space hash settings now existing id n t h in
        if_both (λ (r : Bool × Table). Wanted is_assignable r.1) (ltb 0 budget)
          (fill_stream_url is_space hash settings resolver id (get existing id) now t1) (false, t1)
          (fill-Serves is_space hash settings now resolver id n
            (shard_index_of is_space hash settings id) id (get existing id) t1 k)
          k

    filled-other :
        (j : String) (budget : ℕ) (t : Table)
        → str_eq j id ≡ false
        → get (filled j budget t).1 id ≡ get t id
    filled-other j budget t other =
        let n = references (bindings_of (get desired j)) in
        let t1 = write_row is_space hash settings j n now (get existing j) t in
        let e = get-write_row_other is_space hash settings now id j n (get existing j) t other in
        if_both (λ (r : Bool × Table). get r.1 id ≡ get t id) (ltb 0 budget)
          (fill_stream_url is_space hash settings resolver j (get existing j) now t1) (false, t1)
          (get-fill_other is_space hash settings now resolver id j (get existing j) t1 other ∙ e) e

    upsert_all-Wanted :
        (ids : List String) (budget : ℕ) (t : Table)
        → Written is_space hash settings now
            (references (bindings_of (get desired id)))
            existing
            id
            t
        → (member ids id ≡ true) ⊎ Wanted is_assignable t
        → Wanted is_assignable
            (upsert_all is_space hash settings resolver desired existing now ids budget t).1
    unfolding upsert_all
    upsert_all-Wanted [] budget t written (inl listed) = absurd cc
    upsert_all-Wanted [] budget t written (inr h) = h
    upsert_all-Wanted (j ∷ ids) budget t written h =
        let (spent, t2) = filled j budget t in
        let left = if spent then budget - 1 else budget in
        elim (Bool-cases (str_eq j id)) [
          | inl same ↦
              let key : j ≡ id = (eq_iff j id).0 same in
              let k : Wanted is_assignable t2 =
                subst (λ j. Wanted is_assignable (filled j budget t).1) (sym key)
                  (filled-here budget t written) in
              upsert_all-Wanted ids left t2 (inr k) (inr k)
          | inr other ↦
              let e = filled-other j budget t other in
              upsert_all-Wanted ids left t2
                (elim written [
                  | inl before ↦ inl (e ∙ before)
                  | inr k ↦ inr (same_row _ id t t2 e k)
                ])
                (elim h [
                  | inl listed ↦ inl (ground (arith, listed, other))
                  | inr k ↦ inr (same_row _ id t t2 e k)
                ])
        ]

    get-wind_down_other :
        (j : String) (r : Subscription) (t : Table)
        → str_eq j id ≡ false
        → get (wind_down is_space hash settings j now r t).1 id ≡ get t id
    unfolding wind_down
    get-wind_down_other j r t other = over r.winddown_after
      where
        over :
            (deadline : Option ℕ)
            → get
                (wind_down is_space hash settings j now
                  (record r { winddown_after = deadline })
                  t).1
                id
              ≡ get t id
        over none =
            get-set_row_other t j id (armed (now + settings.winddown_grace_seconds) now) (get t j)
              other
        over (some deadline) =
            if_both (λ (r : (ℕ × ℕ) × Table). get r.1 id ≡ get t id) (leb deadline now)
              ((0, 1), update_row t j (released now)) ((0, 0), t)
              (get-set_row_other t j id (released now) (get t j) other) refl

    get-wind_down_all :
        (rows : List (String × Subscription)) (t : Table)
        → contains desired id ≡ true
        → get (wind_down_all is_space hash settings desired now rows t).1 id ≡ get t id
    unfolding wind_down_all
    get-wind_down_all [] t wanted = refl
    get-wind_down_all ((j, r) ∷ rows) t wanted =
        let skip = contains desired j || is_stopped r.state in
        let one = if skip then ((0, 0), t) else wind_down is_space hash settings j now r t in
        let here : get one.1 id ≡ get t id =
          if_cases (λ (r : (ℕ × ℕ) × Table). get r.1 id ≡ get t id) skip ((0, 0), t)
            (wind_down is_space hash settings j now r t) (λ _. refl)
            (λ unwanted. get-wind_down_other j r t (elim (Bool-cases (str_eq j id)) [
              | inl same ↦
                  let w : contains desired j ≡ true =
                    subst (λ j. contains desired j ≡ true) (sym ((eq_iff j id).0 same)) wanted in
                  absurd (ground (arith, w, unwanted))
              | inr other ↦ other
            ])) in
        get-wind_down_all rows one.1 wanted ∙ here

    publish_one-Wanted :
        (j fingerprint : String) (last : Option IndexVersion) (db : Database)
        → Wanted is_assignable db.subscriptions
        → Wanted is_assignable (publish_one now j fingerprint last db).1.subscriptions
    publish_one-Wanted j fingerprint none db h =
        update_row-HasRow _ id db.subscriptions j _ (λ r k. k) h
    publish_one-Wanted j fingerprint (some v) db h =
        if_both (λ (r : ℕ × Database). Wanted is_assignable r.1.subscriptions)
          (str_eq fingerprint v.fingerprint) (0, db)
          (
            1,
            publish_version now
                (record { station_id = j; version = suc v.version; fingerprint = fingerprint }) db,
          )
          h (update_row-HasRow _ id db.subscriptions j _ (λ r k. k) h)

    publish_indexes-Wanted :
        (fingerprint_of : String → List (Binding B) → String) (ids : List String) (db : Database)
        → Wanted is_assignable db.subscriptions
        → Wanted is_assignable (publish_indexes fingerprint_of now desired ids db).1.subscriptions
    unfolding publish_indexes
    publish_indexes-Wanted fingerprint_of [] db h = h
    publish_indexes-Wanted fingerprint_of (j ∷ ids) db h =
        let fingerprint = fingerprint_of j (bindings_of (get desired j)) in
        let db1 = (publish_one now j fingerprint (latest db.versions j) db).1 in
        publish_indexes-Wanted fingerprint_of ids db1
          (publish_one-Wanted j fingerprint (latest db.versions j) db h)

  pooled-Serves :
      (n shard : ℕ) (r : Subscription)
      → Serves is_assignable n shard r
      → Serves in_pool n shard (pooled now r)
  pooled-Serves n shard r h = over r.state h.2
    where
      over :
          (s : State)
          → is_assignable s ≡ true
          → Serves in_pool n shard (pooled now (record r { state = s }))
      over State.desired live = (h.0, h.1, refl, h.3)
      over State.pending_capacity live = (h.0, h.1, refl, h.3)
      over State.starting live = (h.0, h.1, refl, h.3)
      over State.active live = (h.0, h.1, refl, h.3)
      over State.degraded live = (h.0, h.1, refl, h.3)
      over State.winding_down live = absurd cc
      over State.stopped live = absurd cc

  abbrev pooled_row : Option Subscription → Option Subscription
  pooled_row none = none
  pooled_row (some r) = some (pooled now r)

  get-pool : (t : Table) (id : String) → get (pool now t) id ≡ pooled_row (get t id)
  unfolding get
  get-pool [] id = refl
  get-pool ((j, s) ∷ t) id = elim (Bool-cases (str_eq j id)) [
    | inl same ↦ rw (same) refl
    | inr other ↦ rw (other) (get-pool t id)
  ]

listed : (xs : List String) (x : String) → member xs x ≡ ltb 0 (count (λ y. str_eq y x) xs)
listed [] x = refl
listed (y ∷ xs) x = ground (arith, listed xs x)

keys-listed : {V : Type 0} (d : Dict String V) (id : String) → member (keys d) id ≡ contains d id
unfolding contains
keys-listed [] id = refl
keys-listed ((j, v) ∷ d) id = ground (arith, keys-listed d id)

member-chosen :
    (chosen : String × Subscription → Bool) (r : Subscription) (id : String)
    → chosen (id, r) ≡ true
    → (t : Table) → get t id ≡ some r
    → member (keys (filterb chosen t)) id ≡ true
unfolding get
member-chosen chosen r id is_chosen [] e = absurd cc
member-chosen chosen r id is_chosen ((j, s) ∷ t) e = elim (Bool-cases (str_eq j id)) [
  | inl same ↦
      let here : some s ≡ some r = subst (λ b. (if b then some s else get t id) ≡ some r) same e in
      let row : s ≡ r = ap (λ o. elim o as (λ _. Subscription) [ none ↦ r | some x ↦ x ]) here in
      let c : chosen (j, s) ≡ true =
        subst (λ k. chosen (k, s) ≡ true) (sym ((eq_iff j id).0 same))
          (subst (λ r. chosen (id, r) ≡ true) (sym row) is_chosen) in
      rw (c, same) refl
  | inr other ↦
      let there : get t id ≡ some r =
        subst (λ b. (if b then some s else get t id) ≡ some r) other e in
      let k = member-chosen chosen r id is_chosen t there in
      if_both (λ (xs : List (String × Subscription)). member (keys xs) id ≡ true) (chosen (j, s))
        ((j, s) ∷ filterb chosen t) (filterb chosen t) (rw (other) k) k
]

-- A row of the shard in a state of the pool is assigned to it.
assigned_stations-HasRow :
    (n shard : ℕ) (id : String) (t : Table)
    → HasRow (Serves in_pool n shard) id t
    → member (assigned_stations shard t) id ≡ true
unfolding assigned_stations
assigned_stations-HasRow n shard id t (r, e, h) =
    let ids = keys (filterb chosen t) in
    listed (sort_by text_leb ids) id
    ∙ (ap (ltb 0) (count-sort_by text_leb (λ y. str_eq y id) ids)
        ∙ (sym (listed ids id) ∙ inside t e))
  where
    chosen : String × Subscription → Bool
    chosen (_, r) = nat_eq r.shard_index shard && is_assignable r.state

    is_chosen : is_assignable r.state ≡ true
    is_chosen = in_pool-assignable r.state h.2

    now_chosen : chosen (id, r) ≡ true
    now_chosen = ground (arith, h.1, is_chosen)

    inside : (t : Table) → get t id ≡ some r → member (keys (filterb chosen t)) id ≡ true
    inside t e = member-chosen chosen r id now_chosen t e

-- After a planning cycle each station that an active campaign refers to has a row, whatever its state
-- was before: the row counts the campaigns that refer to it, stands in the station's shard, has no
-- stop timer, and is in a state of the rotation pool; and the station is among those that are
-- assigned to the listener of its shard.
pub plan_once-referenced :
    {B : Type 0} (is_space : ℕ → Bool) (hash : List ℕ → ℕ) (settings : PlannerSettings)
    (fingerprint_of : String → List (Binding B) → String) (resolver : Option Resolver)
    (desired : Dict String (List (Binding B))) (now : ℕ) (db : Database) (id : String)
    → contains desired id ≡ true
    → let t =
        (plan_once is_space hash settings fingerprint_of resolver desired now db).1.subscriptions in
      let shard = shard_index_of is_space hash settings id in
      HasRow (Serves in_pool (references (bindings_of (get desired id))) shard) id t
      × (member (assigned_stations shard t) id ≡ true)
unfolding plan_once
plan_once-referenced is_space hash settings fingerprint_of resolver desired now db id wanted =
    let n = references (bindings_of (get desired id)) in
    let shard = shard_index_of is_space hash settings id in
    let existing = db.subscriptions in
    let ids = sort_by text_leb (keys desired) in
    let inside : member ids id ≡ true =
      listed ids id
      ∙ (ap (ltb 0) (count-sort_by text_leb (λ y. str_eq y id) (keys desired))
          ∙ (sym (listed (keys desired) id) ∙ (keys-listed desired id ∙ wanted))) in
    let t1 =
      (upsert_all is_space hash settings resolver desired existing now ids
        settings.url_resolve_per_cycle existing).1 in
    let t2 = (wind_down_all is_space hash settings desired now existing t1).1 in
    let k1 =
      upsert_all-Wanted is_space hash settings now resolver desired existing id ids
        settings.url_resolve_per_cycle existing (inl refl) (inl inside) in
    let k2 =
      same_row (Serves is_assignable n shard) id t1 t2
        (get-wind_down_all is_space hash settings now resolver desired existing id existing t1
          wanted)
        k1 in
    let (r, e, k3) =
      publish_indexes-Wanted is_space hash settings now resolver desired existing id fingerprint_of
        ids (record db { subscriptions = t2 }) k2 in
    let t3 =
      (publish_indexes fingerprint_of now desired ids
        (record db { subscriptions = t2 })).1.subscriptions in
    let served : HasRow (Serves in_pool n shard) id (pool now t3) = (
      pooled now r,
      get-pool is_space hash settings now t3 id ∙ ap (pooled_row is_space hash settings now) e,
      pooled-Serves is_space hash settings now n shard r k3,
    ) in
    (served, assigned_stations-HasRow n shard id (pool now t3) served)

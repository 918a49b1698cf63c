-- ===== src/Planner/Written.antt =====
-- The row that a cycle writes for a desired station.
use radio_broadcast_analysis.Prelude.{
  ℕ, ◌+◌, String, Bool, true, false, Option, none, some, List, ◌≡◌, ◌⊎◌, refl, sym, ap, ◌∙◌, subst,
  inl, inr, nat_Eq, string_Eq, eq_iff, str_eq, if_both,
}
use radio_broadcast_analysis.Prelude.Dict.{get, put}
use radio_broadcast_analysis.Planner.{
  Subscription, PlannerSettings, Resolver, Table, set_row, update_row, upsert_row, revived, new_row,
  count_again, reuse, unresolved, resolved,
}
use radio_broadcast_analysis.Planner.Cycle.{
  shard_index_of, needs_no_url, write_url, fill_stream_url, write_row, is_assignable,
}
use radio_broadcast_analysis.Planner.Rows.{
  HasRow, put-HasRow, update_row-HasRow, get-set_row_other, get-upsert_row_other, revived-live,
  Serves,
}

module _ (is_space : ℕ → Bool) (hash : List ℕ → ℕ) (settings : PlannerSettings) (now : ℕ) where
  module _ (resolver : Option Resolver) (id : String) where
    -- Filling in a stream URL keeps every predicate of the other columns.
    pub fill-Serves :
        (n shard : ℕ) (j : String) (row : Option Subscription) (t : Table)
        → HasRow (Serves is_assignable n shard) id t
        → HasRow
            (Serves is_assignable n shard)
            id
            (fill_stream_url is_space hash settings resolver j row now t).1
    unfolding fill_stream_url
    fill-Serves n shard j row t h = over resolver
      where
        P : Subscription → Type 0
        P = Serves is_assignable n shard

        written :
            (resolver : Resolver) (url : Option String) (r : Subscription)
            → P r
            → P (write_url is_space hash settings resolver j now url r)
        written resolver none r k = k
        written resolver (some url) r k =
            if_both P (str_eq url "") (unresolved (now + settings.url_retry_seconds) now r)
              (resolved url (resolver.metadata j) now r) k k

        over :
            (resolver : Option Resolver)
            → HasRow P id (fill_stream_url is_space hash settings resolver j row now t).1
        over none = h
        over (some resolver) =
            if_both (λ (r : Bool × Table). HasRow P id r.1)
              (needs_no_url is_space hash settings now row) (false, t)
              (
                true,
                update_row t j
                    (write_url is_space hash settings resolver j now (resolver.resolve j)),
              )
              h
              (update_row-HasRow P id t j
                (write_url is_space hash settings resolver j now (resolver.resolve j))
                (written resolver (resolver.resolve j)) h)

    pub get-fill_other :
        (j : String) (row : Option Subscription) (t : Table)
        → str_eq j id ≡ false
        → get (fill_stream_url is_space hash settings resolver j row now t).1 id ≡ get t id
    unfolding fill_stream_url
    get-fill_other j row t other = over resolver
      where
        over :
            (resolver : Option Resolver)
            → get (fill_stream_url is_space hash settings resolver j row now t).1 id ≡ get t id
        over none = refl
        over (some resolver) =
            if_both (λ (r : Bool × Table). get r.1 id ≡ get t id)
              (needs_no_url is_space hash settings now row) (false, t)
              (
                true,
                update_row t j
                    (write_url is_space hash settings resolver j now (resolver.resolve j)),
              )
              refl
              (get-set_row_other t j id
                (write_url is_space hash settings resolver j now (resolver.resolve j)) (get t j)
                other)

  pub get-write_row_other :
      (id j : String) (n : ℕ) (row : Option Subscription) (t : Table)
      → str_eq j id ≡ false
      → get (write_row is_space hash settings j n now row t) id ≡ get t id
  unfolding write_row
  get-write_row_other id j n none t other =
      get-upsert_row_other t j id (new_row n (shard_index_of is_space hash settings j) now)
        (count_again n (shard_index_of is_space hash settings j) now) (get t j) other
  get-write_row_other id j n (some r) t other =
      get-set_row_other t j id
        (reuse (revived r.state r.state_reason) n (shard_index_of is_space hash settings j) now)
        (get t j) other

  -- Either the row is the one before the cycle, or it was written already.
  abbrev pub Written : ℕ → Table → String → Table → Type 0
  Written n existing id t =
      (get t id ≡ get existing id)
      ⊎ HasRow (Serves is_assignable n (shard_index_of is_space hash settings id)) id t

  pub write_row-here :
      (existing : Table) (id : String) (n : ℕ) (t : Table)
      → Written n existing id t
      → HasRow
          (Serves is_assignable n (shard_index_of is_space hash settings id))
          id
          (write_row is_space hash settings id n now (get existing id) t)
  unfolding write_row
  write_row-here existing id n t h = over (get existing id) refl
    where
      shard : ℕ
      shard = shard_index_of is_space hash settings id

      P : Subscription → Type 0
      P = Serves is_assignable n shard

      put_here : (r : Subscription) → P r → HasRow P id (put t id r)
      put_here r p = put-HasRow P id t id r (λ _. p) (λ other. absurd (never other))
        where
          never : str_eq id id ≡ false → ⊥
          never other = let same = (eq_iff id id).1 refl in cc

      reused : (r s : Subscription) → P (reuse (revived r.state r.state_reason) n shard now s)
      reused r s = (refl, refl, revived-live r.state r.state_reason, refl)

      new :
          (old : Option Subscription)
          → get t id ≡ old
          → get existing id ≡ none
          → HasRow P id (upsert_row t id (new_row n shard now) (count_again n shard now) old)
      new none e absent = put_here (new_row n shard now) (refl, refl, refl, refl)
      new (some r) e absent = elim h [
        | inl same ↦ absurd cc
        | inr (r', e', p) ↦
            let same =
              ap (λ o. elim o as (λ _. Subscription) [ none ↦ r | some x ↦ x ]) (sym e' ∙ e) in
            let k = subst P same p in put_here (count_again n shard now r) (refl, refl, k.2, k.3)
      ]

      old :
          (r : Subscription) (row : Option Subscription)
          → get t id ≡ row
          → get existing id ≡ some r
          → HasRow P id (set_row t id (reuse (revived r.state r.state_reason) n shard now) row)
      old r (some s) e present =
          put_here (reuse (revived r.state r.state_reason) n shard now s) (reused r s)
      old r none e present = elim h [ inl same ↦ absurd cc | inr (r', e', p) ↦ absurd cc ]

      over :
          (row : Option Subscription)
          → get existing id ≡ row
          → HasRow P id (write_row is_space hash settings id n now row t)
      over none absent = new (get t id) refl absent
      over (some r) present = old r (get t id) refl present

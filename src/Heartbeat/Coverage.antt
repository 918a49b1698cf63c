-- ===== src/Heartbeat/Coverage.antt =====
-- `shard_coverage`: a healthy role has each of its shards held by exactly one live worker.
use radio_broadcast_analysis.Prelude.{
  ℕ, zero, suc, ◌+◌, ◌≤◌, ◌<◌, String, Bool, true, false, ◌&&◌, List, [], ◌∷◌, map, ◌≡◌, refl, sym,
  ◌∙◌, inl, inr, arith, ltb, leb, nat_eq, nat_eq_iff, filterb, count, nat_Eq, string_Eq, str_eq,
  Bool-cases,
}
use radio_broadcast_analysis.Prelude.Sort.{sort_by, count-sort_by}
use radio_broadcast_analysis.Prelude.Dict.{Dict, get, put, contains, get-put, contains-put}
use radio_broadcast_analysis.Outbox.{or_zero}
use radio_broadcast_analysis.Heartbeat.{
  Worker, worker_before, is_live, snapshot, holders, greatest_count, tally, absent_from,
  is_none_left, coverage_of, shard_coverage,
}

abbrev pub holds_index : ℕ → Worker → Bool
holds_index i w = nat_eq w.shard_index i

get-tally :
    (seen : Dict ℕ ℕ) (ws : List Worker) (i : ℕ)
    → or_zero (get (tally seen ws) i) ≡ or_zero (get seen i) + count (holds_index i) ws
unfolding tally
get-tally seen [] i = omega arith
get-tally seen (w ∷ ws) i = ground (
  arith,
  get-put seen w.shard_index i (or_zero (get seen w.shard_index) + 1),
  get-tally (put seen w.shard_index (or_zero (get seen w.shard_index) + 1)) ws i,
)

contains-tally :
    (seen : Dict ℕ ℕ) (ws : List Worker) (i : ℕ)
    → contains (tally seen ws) i ≡ true
    → contains seen i ≡ false
    → 0 < count (holds_index i) ws
unfolding tally
contains-tally seen [] i h k = absurd (cc)
contains-tally seen (w ∷ ws) i h k = ground (
  arith,
  contains-put seen w.shard_index i (or_zero (get seen w.shard_index) + 1),
  contains-tally (put seen w.shard_index (or_zero (get seen w.shard_index) + 1)) ws i h,
)

absent_from-none :
    (seen : Dict ℕ ℕ) (from n i : ℕ)
    → is_none_left (absent_from seen from n) ≡ true
    → from ≤ i
    → i < from + n
    → contains seen i ≡ true
unfolding absent_from
absent_from-none seen from zero i h lo hi = absurd (omega arith)
absent_from-none seen from (suc n) i h lo hi = elim (Bool-cases (nat_eq from i)) [
  | inl here ↦ let e : from ≡ i = (nat_eq_iff from i).0 here in ground (arith, h, e)
  | inr further ↦ ground (arith, h, absent_from-none seen (suc from) n i)
]

count-none : (xs : List ℕ) → is_none_left xs ≡ true → count (λ x. true) xs ≡ 0
count-none [] h = refl
count-none (x ∷ xs) h = absurd (cc)

count-duplicated :
    (seen : Dict ℕ ℕ) (i : ℕ)
    → count (λ x. true) (map (λ slot. slot.0) (filterb (λ slot. ltb 1 slot.1) seen)) ≡ 0
    → or_zero (get seen i) ≤ 1
unfolding get
count-duplicated [] i h = omega arith
count-duplicated ((j, n) ∷ seen) i h = ground (arith, count-duplicated seen i)

coverage_of-healthy :
    (ws : List Worker) (i : ℕ)
    → (coverage_of ws).healthy ≡ true
    → i < (coverage_of ws).expected
    → count (holds_index i) ws ≡ 1
unfolding coverage_of
coverage_of-healthy [] i h lt = absurd (cc)
coverage_of-healthy (w ∷ ws) i h lt =
    let seen = tally [] (w ∷ ws) in
    let repeated = map (λ slot. slot.0) (filterb (λ slot. ltb 1 slot.1) seen) in
    let parts : (is_none_left (absent_from seen 0 (greatest_count (w ∷ ws))) ≡ true)
        × (is_none_left (sort_by leb repeated) ≡ true) =
      ground (arith, h) in
    let some_holder =
      contains-tally [] (w ∷ ws) i
        (absent_from-none seen 0 (greatest_count (w ∷ ws)) i parts.0 (omega arith)
          (omega (arith, lt)))
        (unfold contains in refl) in
    let few =
      count-duplicated seen i
        (sym (count-sort_by leb (λ x. true) repeated) ∙ count-none _ parts.1) in
    let unknown : or_zero (get {K = ℕ} {V = ℕ} [] i) ≡ 0 = unfold get in refl in
    omega (arith, some_holder, few, get-tally [] (w ∷ ws) i, unknown)

-- Where `shard_coverage` reports a role as healthy, every shard up to the number it expects is held
-- by exactly one of the role's workers that are neither stale nor stopped.
pub shard_coverage-healthy :
    (stale_after now : ℕ) (role : String) (rows : List Worker) (i : ℕ)
    → (shard_coverage stale_after now role rows).healthy ≡ true
    → i < (shard_coverage stale_after now role rows).expected
    → count (λ w. holds_index i w && (str_eq w.role role && is_live stale_after now w)) rows ≡ 1
unfolding shard_coverage holders snapshot
shard_coverage-healthy stale_after now role rows i h lt =
    sym (count-sort_by worker_before _ rows)
    ∙ sym (
        count-both (holds_index i) (λ w. str_eq w.role role && is_live stale_after now w)
          (sort_by worker_before rows))
    ∙ coverage_of-healthy (holders stale_after now role rows) i h lt
  where
    count-both :
        (p q : Worker → Bool) (ws : List Worker)
        → count p (filterb q ws) ≡ count (λ w. p w && q w) ws
    count-both p q [] = refl
    count-both p q (w ∷ ws) = ground (arith, count-both p q ws)

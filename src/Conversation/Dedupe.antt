-- ===== src/Conversation/Dedupe.antt =====
-- `_deduplicate_matches`: one row for each keyword, and that the strongest.
use radio_broadcast_analysis.Prelude.{
  ℕ, ◌+◌, ◌≤◌, ◌<◌, String, Bool, true, ◌&&◌, Option, none, some, List, [], ◌∷◌, map, ◌≡◌, refl, ap,
  ◌∙◌, inl, inr, arith, if◌then◌else◌, ltb, leb, anyb, count, All, All-imp, nat_Eq, string_Eq,
  eq_iff, str_eq, Bool-cases,
}
use radio_broadcast_analysis.Prelude.Dict.{
  Dict, get, contains, put, get-put, contains-put, All-put, contains-get,
}
use radio_broadcast_analysis.Prelude.Sort.{count-sort_by, All-sort_by}
use radio_broadcast_analysis.Matching.Data.{KeywordMatch}
use radio_broadcast_analysis.Conversation.Text.{
  keep_stronger, strongest, deduplicate_matches, match_leb,
}

abbrev Best : Type 0
Best = Dict String KeywordMatch

abbrev values : Best → List KeywordMatch
values d = map (λ slot. slot.1) d

abbrev is_keyword : String → KeywordMatch → Bool
is_keyword k m = str_eq m.keyword_id k

-- Each slot stands under its keyword, and no keyword has two.
record IsLedger (d : Best) : Type 0 where
  keyed : All (λ slot. slot.0 ≡ slot.1.keyword_id) d
  once : (k : String) → count (is_keyword k) (values d) ≡ (if contains d k then 1 else 0)

count-values-put :
    (d : Best) (m : KeywordMatch) (k : String)
    → All (λ slot. slot.0 ≡ slot.1.keyword_id) d
    → count (is_keyword k) (values (put d m.keyword_id m)) ≡ (
        if contains d m.keyword_id
        then count (is_keyword k) (values d)
        else count (is_keyword k) (values d) + (if is_keyword k m then 1 else 0))
unfolding contains put
count-values-put [] m k h = ground arith
count-values-put ((j, x) ∷ d) m k h =
    ground (arith, eq_iff j m.keyword_id, eq_iff m.keyword_id k, count-values-put d m k h.1)

put-IsLedger : (d : Best) (m : KeywordMatch) → IsLedger d → IsLedger (put d m.keyword_id m)
put-IsLedger d m v = record {
  keyed = All-put (λ slot. slot.0 ≡ slot.1.keyword_id) d m.keyword_id m v.keyed refl;
  once = λ k. ground (
    arith,
    v.once k,
    count-values-put d m k v.keyed,
    contains-put d m.keyword_id k m,
    eq_iff m.keyword_id k,
  );
}

keep_stronger-IsLedger :
    (d : Best) (m : KeywordMatch) (current : Option KeywordMatch)
    → IsLedger d
    → IsLedger (keep_stronger d m current)
unfolding keep_stronger
keep_stronger-IsLedger d m none v = put-IsLedger d m v
keep_stronger-IsLedger d m (some x) v = elim (Bool-cases (ltb x.confidence m.confidence)) [
  | inl above ↦ rw (above) (put-IsLedger d m v)
  | inr below ↦ rw (below) v
]

strongest-IsLedger : (d : Best) (ms : List KeywordMatch) → IsLedger d → IsLedger (strongest d ms)
unfolding strongest
strongest-IsLedger d [] v = v
strongest-IsLedger d (m ∷ ms) v =
    strongest-IsLedger (keep_stronger d m (get d m.keyword_id)) ms
      (keep_stronger-IsLedger d m (get d m.keyword_id) v)

-- The keyword has a row of at least this confidence.
abbrev Reaches : ℕ → Option KeywordMatch → Type 0
Reaches c none = ⊥
Reaches c (some x) = c ≤ x.confidence

Reaches-step :
    (c : ℕ) (k : String) (d : Best) (m : KeywordMatch)
    → Reaches c (get d k)
    → Reaches c (get (keep_stronger d m (get d m.keyword_id)) k)
unfolding keep_stronger
Reaches-step c k d m h = ground (arith, get-put d m.keyword_id k m, eq_iff m.keyword_id k)

Reaches-new :
    (d : Best) (m : KeywordMatch)
    → Reaches m.confidence (get (keep_stronger d m (get d m.keyword_id)) m.keyword_id)
unfolding keep_stronger
Reaches-new d m =
    ground (arith, get-put d m.keyword_id m.keyword_id m, eq_iff m.keyword_id m.keyword_id)

Reaches-strongest :
    (c : ℕ) (k : String) (d : Best) (ms : List KeywordMatch)
    → Reaches c (get d k)
    → Reaches c (get (strongest d ms) k)
unfolding strongest
Reaches-strongest c k d [] h = h
Reaches-strongest c k d (m ∷ ms) h =
    Reaches-strongest c k (keep_stronger d m (get d m.keyword_id)) ms (Reaches-step c k d m h)

all_reached :
    (d : Best) (ms : List KeywordMatch)
    → All (λ m. Reaches m.confidence (get (strongest d ms) m.keyword_id)) ms
unfolding strongest
all_reached d [] = tt
all_reached d (m ∷ ms) = (
  Reaches-strongest m.confidence m.keyword_id (keep_stronger d m (get d m.keyword_id)) ms
      (Reaches-new d m),
  all_reached (keep_stronger d m (get d m.keyword_id)) ms,
)

-- A row of the keyword that is at least as strong as the match.
abbrev pub is_stronger : KeywordMatch → KeywordMatch → Bool
is_stronger m x = is_keyword m.keyword_id x && leb m.confidence x.confidence

found :
    (d : Best) (m : KeywordMatch)
    → All (λ slot. slot.0 ≡ slot.1.keyword_id) d
    → Reaches m.confidence (get d m.keyword_id)
    → 0 < count (is_stronger m) (values d)
unfolding get
found [] m v h = absurd h
found ((j, x) ∷ d) m v h =
    ground (arith, eq_iff j m.keyword_id, eq_iff x.keyword_id m.keyword_id, found d m v.1)

values-put :
    (P : KeywordMatch → Type 0) (d : Best) (m : KeywordMatch)
    → All P (values d)
    → P m
    → All P (values (put d m.keyword_id m))
unfolding put
values-put P [] m h p = (p, tt)
values-put P ((j, x) ∷ d) m h p = ground (arith, values-put P d m h.1 p)

values-strongest :
    (P : KeywordMatch → Type 0) (d : Best) (ms : List KeywordMatch)
    → All P (values d)
    → All P ms
    → All P (values (strongest d ms))
unfolding strongest keep_stronger
values-strongest P d [] h hs = h
values-strongest P d (m ∷ ms) h hs =
    values-strongest P (keep_stronger d m (get d m.keyword_id)) ms
      (ground (arith, values-put P d m h hs.0)) hs.1

present :
    (k : String) (d : Best) (ms : List KeywordMatch)
    → contains (strongest d ms) k ≡ (if contains d k then true else anyb (is_keyword k) ms)
unfolding strongest keep_stronger
present k d [] = ground arith
present k d (m ∷ ms) = ground (
  arith,
  contains-put d m.keyword_id k m,
  contains-get d m.keyword_id,
  eq_iff m.keyword_id k,
  present k (keep_stronger d m (get d m.keyword_id)) ms,
)

-- Of the matches of a conversation one is kept for each keyword that occurs, and none for another;
-- some kept match of its keyword is at least as strong as each match; and those kept have every
-- property that all the matches have.
pub deduplicate_matches_lem :
    (ms : List KeywordMatch)
    → ((k : String)
        → count (λ x. str_eq x.keyword_id k) (deduplicate_matches ms)
          ≡ (if anyb (λ x. str_eq x.keyword_id k) ms then 1 else 0))
      × All (λ m. 0 < count (is_stronger m) (deduplicate_matches ms)) ms
      × ((P : KeywordMatch → Type 0) → All P ms → All P (deduplicate_matches ms))
unfolding deduplicate_matches contains
deduplicate_matches_lem ms = (
  λ k.
      count-sort_by match_leb (is_keyword k) rows
      ∙ ledger.once k
      ∙ ap (λ b. if b then 1 else 0) (present k [] ms),
  All-imp {Q = λ m. 0 < count (is_stronger m) (deduplicate_matches ms)}
      (λ m reached.
        rw (count-sort_by match_leb (is_stronger m) rows)
          (found (strongest [] ms) m ledger.keyed reached))
      ms (all_reached [] ms),
  λ P h. All-sort_by match_leb P rows (values-strongest P [] ms tt h),
)
  where
    rows : List KeywordMatch
    rows = values (strongest [] ms)

    ledger : IsLedger (strongest [] ms)
    ledger = strongest-IsLedger [] ms (record { keyed = tt; once = λ k. refl })

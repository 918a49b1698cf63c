-- ===== src/Matching/Strongest.antt =====
-- `_deduplicate`: every match has a kept one in its place that is at least as long and as sure.
use radio_broadcast_analysis.Prelude.{
  ◌≤◌, ◌<◌, Bool, true, false, ◌&&◌, ◌||◌, List, [], ◌∷◌, ◌≡◌, refl, sym, ap, ◌∙◌, inl, inr, arith,
  ◌==◌, if◌then◌else◌, anyb, count, All, All-imp, All-zip, nat_Eq, string_Eq, eq_iff, Bool-cases,
  if_both, if_cases,
}
use radio_broadcast_analysis.Prelude.Dict.{get}
use radio_broadcast_analysis.Prelude.Sort.{
  insert_by, sort_by, Ordered, sort_by-Ordered, count-sort_by, anyb-sort_by, All-insert_by,
  All-sort_by, All-sort_by_inv,
}
use radio_broadcast_analysis.Matching.Data.{KeywordMatch}
use radio_broadcast_analysis.Matching.Selection.{
  rank_leb, weight_leb, place_leb, span, hits, is_taken, keep_ranked, deduplicate,
}
use radio_broadcast_analysis.Matching.Ranking.{rank_same, rank_leb_total, rank_leb_trans}
use radio_broadcast_analysis.Matching.Kept.{
  Claimed, is_blocked, after_keep, after_skip, skip-blocked, keep-blocked, keep_ranked-Separate,
  clashes, Separate,
}

-- `k` is of the keyword of `m`, overlaps it, and is longer, or as long and surer, or as sure and
-- no later.
abbrev pub covers : KeywordMatch → KeywordMatch → Bool
covers k m = clashes k m && weight_leb k m

abbrev pub is_covered : List KeywordMatch → KeywordMatch → Bool
is_covered kept m = anyb (λ k. covers k m) kept

abbrev pub HasLength : KeywordMatch → Type 0
HasLength m = m.start_char < m.end_char

covers_self : (m : KeywordMatch) → HasLength m → covers m m ≡ true
covers_self m h = ground (arith, h, (eq_iff m.keyword_id m.keyword_id).1 refl)

covers_later : (m x : KeywordMatch) → rank_leb m x ≡ true → clashes m x ≡ true → covers m x ≡ true
covers_later m x r c =
    let same : (m.keyword_id == x.keyword_id) ≡ true = ground (arith, c) in
    let w : weight_leb m x ≡ true =
      sym (rank_same m x ((eq_iff m.keyword_id x.keyword_id).0 same)) ∙ r in
    ap (λ b. b && weight_leb m x) c ∙ w

-- A kept match takes over what it overlaps.
or_covered :
    (a c v r : Bool)
    → ((a || c) || r) ≡ true
    → (c ≡ true → v ≡ true)
    → (a || (if v then true else r)) ≡ true
or_covered true c v r h k = refl
or_covered false true v r h k = ap (λ b. if b then true else r) (k refl)
or_covered false false true r h k = refl
or_covered false false false r h k = h

-- What comes later in the order of the ranks is blocked, or covered by a match that is kept.
keep_ranked-covered :
    (claimed : Claimed) (ranked : List KeywordMatch)
    → Ordered rank_leb ranked
    → All HasLength ranked
    → All (λ x. (is_blocked claimed x || is_covered (keep_ranked claimed ranked) x) ≡ true) ranked
unfolding keep_ranked
keep_ranked-covered claimed [] o l = tt
keep_ranked-covered claimed (m ∷ ranked) o l =
    let skipped = keep_ranked (after_skip claimed m) ranked in
    let later = keep_ranked (after_keep claimed m) ranked in
    if_cases
      (λ (ks : List KeywordMatch).
        All (λ x. (is_blocked claimed x || is_covered ks x) ≡ true) (m ∷ ranked))
      (is_blocked claimed m) skipped (m ∷ later)
      (λ h. (
        ap (λ b. b || is_covered skipped m) h,
        All-imp (λ x k. ap (λ b. b || is_covered skipped x) (sym (skip-blocked claimed m x)) ∙ k)
            ranked (keep_ranked-covered (after_skip claimed m) ranked o.1 l.1),
      ))
      (λ h. (
        ap (λ b. b || is_covered (m ∷ later) m) h
            ∙ ap (λ b. if b then true else is_covered later m) (covers_self m l.0),
        All-zip
            (λ x r k.
              or_covered (is_blocked claimed x) (clashes m x) (covers m x) (is_covered later x)
                (ap (λ b. b || is_covered later x) (sym (keep-blocked claimed m x)) ∙ k)
                (covers_later m x r))
            ranked o.0 (keep_ranked-covered (after_keep claimed m) ranked o.1 l.1),
      ))

clashes_sym : (a x : KeywordMatch) → clashes a x ≡ false → clashes x a ≡ false
clashes_sym a x h = elim (Bool-cases (x.keyword_id == a.keyword_id)) [
  | inl e ↦
      let e' : (a.keyword_id == x.keyword_id) ≡ true =
        (eq_iff a.keyword_id x.keyword_id).1 (sym ((eq_iff x.keyword_id a.keyword_id).0 e)) in
      ground (arith, h, e, e')
  | inr n ↦ ap (λ b. b && hits (span x) a) n
]

insert_by-Separate :
    (a : KeywordMatch) (xs : List KeywordMatch)
    → All (λ x. clashes a x ≡ false) xs
    → Separate xs
    → Separate (insert_by place_leb a xs)
unfolding insert_by
insert_by-Separate a [] h s = (tt, tt)
insert_by-Separate a (x ∷ xs) h s =
    let turned : clashes x a ≡ false = clashes_sym a x h.0 in
    if_both Separate (place_leb a x) (a ∷ x ∷ xs) (x ∷ insert_by place_leb a xs) (h, s)
      (
        All-insert_by place_leb (λ y. clashes x y ≡ false) a xs turned s.0,
        insert_by-Separate a xs h.1 s.1,
      )

sort_by-Separate : (xs : List KeywordMatch) → Separate xs → Separate (sort_by place_leb xs)
unfolding sort_by
sort_by-Separate [] s = tt
sort_by-Separate (a ∷ xs) s =
    insert_by-Separate a (sort_by place_leb xs)
      (All-sort_by place_leb (λ x. clashes a x ≡ false) xs s.0) (sort_by-Separate xs s.1)

keep_ranked-count-le :
    (p : KeywordMatch → Bool) (claimed : Claimed) (ranked : List KeywordMatch)
    → count p (keep_ranked claimed ranked) ≤ count p ranked
unfolding keep_ranked
keep_ranked-count-le p claimed [] = omega arith
keep_ranked-count-le p claimed (m ∷ ranked) =
    if_both (λ (ks : List KeywordMatch). count p ks ≤ count p (m ∷ ranked)) (is_blocked claimed m)
      (keep_ranked (after_skip claimed m) ranked) (m ∷ keep_ranked (after_keep claimed m) ranked)
      (ground (arith, keep_ranked-count-le p (after_skip claimed m) ranked))
      (ground (arith, keep_ranked-count-le p (after_keep claimed m) ranked))

-- Where each match is longer than nothing: no two matches that `_deduplicate` keeps overlap if they
-- are of one keyword; every match is covered by a kept one, which is of its keyword, overlaps it,
-- and is longer, or as long and surer, or as long, as sure and no later; and none is kept more
-- often than it was found.
pub deduplicate_lem :
    (matches : List KeywordMatch)
    → All HasLength matches
    → Separate (deduplicate matches)
      × All (λ m. is_covered (deduplicate matches) m ≡ true) matches
      × ((p : KeywordMatch → Bool) → count p (deduplicate matches) ≤ count p matches)
unfolding deduplicate get is_taken
deduplicate_lem matches long =
    let ranked = sort_by rank_leb matches in
    let kept = keep_ranked [] ranked in
    let covered : All (λ m. is_covered kept m ≡ true) ranked =
      keep_ranked-covered [] ranked (sort_by-Ordered rank_leb rank_leb_total rank_leb_trans matches)
        (All-sort_by rank_leb HasLength matches long) in
    (
      sort_by-Separate kept (keep_ranked-Separate [] ranked),
      All-imp (λ m h. anyb-sort_by place_leb (λ k. covers k m) kept ∙ h) matches
          (All-sort_by_inv rank_leb (λ m. is_covered kept m ≡ true) matches covered),
      λ p. omega (
        arith,
        count-sort_by place_leb p kept,
        keep_ranked-count-le p [] ranked,
        count-sort_by rank_leb p matches,
      ),
    )

-- ===== src/Queue/Selection.antt =====
-- What `sorted` and the selection loop of `receive` do to a list of waiting entries.
use radio_broadcast_analysis.Prelude.{
  ℕ, zero, suc, ◌+◌, ◌≤◌, ◌<◌, String, Bool, List, [], ◌∷◌, ◌≡◌, refl, arith, if◌then◌else◌, nat_eq,
  member, count, All, string_Eq, eq_iff, str_eq,
}
use radio_broadcast_analysis.Queue.{
  Entry, deliver, select, remove, remove_all, insert_by_sequence, sort_by_sequence,
}

-- How many entries of the list have this sequence number.
abbrev pub count_seq : ℕ → List Entry → ℕ
count_seq s = count (λ e. nat_eq e.sequence s)

-- How many entries of the list belong to this group.
abbrev pub count_group : String → List Entry → ℕ
count_group g = count (λ e. str_eq e.group_id g)

pub count-insert_by_sequence :
    (p : Entry → Bool) (e : Entry) (es : List Entry)
    → count p (insert_by_sequence e es) ≡ count p (e ∷ es)
unfolding insert_by_sequence
count-insert_by_sequence p e [] = refl
count-insert_by_sequence p e (x ∷ xs) = ground (arith, count-insert_by_sequence p e xs)

pub count-sort_by_sequence :
    (p : Entry → Bool) (es : List Entry) → count p (sort_by_sequence es) ≡ count p es
unfolding sort_by_sequence
count-sort_by_sequence p [] = refl
count-sort_by_sequence p (e ∷ es) =
    ground (arith, count-insert_by_sequence p e (sort_by_sequence es), count-sort_by_sequence p es)

module _ (P : Entry → Type 0) where
  All-insert_by_sequence :
      (e : Entry) (es : List Entry) → P e → All P es → All P (insert_by_sequence e es)
  unfolding insert_by_sequence
  All-insert_by_sequence e [] h hs = (h, tt)
  All-insert_by_sequence e (x ∷ xs) h hs = ground (arith, All-insert_by_sequence e xs h hs.1)

  pub All-sort_by_sequence : (es : List Entry) → All P es → All P (sort_by_sequence es)
  unfolding sort_by_sequence
  All-sort_by_sequence [] hs = tt
  All-sort_by_sequence (e ∷ es) hs =
      All-insert_by_sequence e (sort_by_sequence es) hs.0 (All-sort_by_sequence es hs.1)

  All-of-insert : (e : Entry) (es : List Entry) → All P (insert_by_sequence e es) → P e × All P es
  unfolding insert_by_sequence
  All-of-insert e [] h = h
  All-of-insert e (x ∷ xs) h = ground (arith, All-of-insert e xs)

  pub All-of-sort : (es : List Entry) → All P (sort_by_sequence es) → All P es
  unfolding sort_by_sequence
  All-of-sort [] h = tt
  All-of-sort (e ∷ es) h =
      let (he, hs) = All-of-insert e (sort_by_sequence es) h in (he, All-of-sort es hs)

abbrev pub IsSorted : List Entry → Type 0
IsSorted [] = Unit
IsSorted (e ∷ es) = All (λ x. e.sequence ≤ x.sequence) es × IsSorted es

All-le_trans :
    (m n : ℕ) (es : List Entry)
    → m ≤ n
    → All (λ x. n ≤ x.sequence) es
    → All (λ x. m ≤ x.sequence) es
All-le_trans m n [] h hs = tt
All-le_trans m n (e ∷ es) h hs = (omega arith, All-le_trans m n es h hs.1)

insert_by_sequence-IsSorted :
    (e : Entry) (es : List Entry) → IsSorted es → IsSorted (insert_by_sequence e es)
unfolding insert_by_sequence
insert_by_sequence-IsSorted e [] s = (tt, tt)
insert_by_sequence-IsSorted e (x ∷ xs) s = ground (
  arith,
  All-le_trans e.sequence x.sequence xs,
  All-insert_by_sequence (λ y. x.sequence ≤ y.sequence) e xs,
  insert_by_sequence-IsSorted e xs,
)

pub sort_by_sequence-IsSorted : (es : List Entry) → IsSorted (sort_by_sequence es)
unfolding sort_by_sequence
sort_by_sequence-IsSorted [] = tt
sort_by_sequence-IsSorted (e ∷ es) =
    insert_by_sequence-IsSorted e (sort_by_sequence es) (sort_by_sequence-IsSorted es)

-- The loop takes entries out of the list, each at most as often as it is there.
pub count_seq-select-le :
    (s visible_at room : ℕ) (blocked : List String) (es : List Entry)
    → count_seq s (select visible_at room blocked es) ≤ count_seq s es
unfolding select deliver
count_seq-select-le s v zero b es = omega arith
count_seq-select-le s v (suc r) b [] = omega arith
count_seq-select-le s v (suc r) b (e ∷ es) =
    ground
      (arith, count_seq-select-le s v (suc r) b es, count_seq-select-le s v r (e.group_id ∷ b) es)

-- No group is selected twice, nor one that was blocked.
pub count_group-select-le :
    (g : String) (visible_at room : ℕ) (blocked : List String) (es : List Entry)
    → count_group g (select visible_at room blocked es) ≤ (if member blocked g then 0 else 1)
unfolding select deliver
count_group-select-le g v zero b es = omega arith
count_group-select-le g v (suc r) b [] = omega arith
count_group-select-le g v (suc r) b (e ∷ es) = ground (
  arith,
  eq_iff e.group_id g,
  count_group-select-le g v (suc r) b es,
  count_group-select-le g v r (e.group_id ∷ b) es,
)

count_seq-remove :
    (s t : ℕ) (es : List Entry)
    → 0 < count_seq s es
    → count_seq t (remove s es) + (if nat_eq s t then 1 else 0) ≡ count_seq t es
unfolding remove
count_seq-remove s t [] h = absurd (omega arith)
count_seq-remove s t (e ∷ es) h = ground (arith, count_seq-remove s t es)

-- Taking a part of the entries out leaves the other part.
pub count_seq-remove_all :
    (cs es : List Entry)
    → ((s : ℕ) → count_seq s cs ≤ count_seq s es)
    → (t : ℕ) → count_seq t (remove_all cs es) + count_seq t cs ≡ count_seq t es
unfolding remove_all
count_seq-remove_all [] es h t = omega arith
count_seq-remove_all (c ∷ cs) es h t = ground (
  arith,
  count_seq-remove c.sequence t es here,
  count_seq-remove_all cs (remove c.sequence es)
      (λ s. ground (arith, count_seq-remove c.sequence s es here, h s)) t,
)
  where
    here : 0 < count_seq c.sequence es
    here = ground (arith, h c.sequence)

pub All-remove : (P : Entry → Type 0) (s : ℕ) (es : List Entry) → All P es → All P (remove s es)
unfolding remove
All-remove P s [] h = tt
All-remove P s (e ∷ es) h = ground (arith, All-remove P s es h.1)

pub All-remove_all : (P : Entry → Type 0) (cs es : List Entry) → All P es → All P (remove_all cs es)
unfolding remove_all
All-remove_all P [] es h = h
All-remove_all P (c ∷ cs) es h =
    All-remove_all P cs (remove c.sequence es) (All-remove P c.sequence es h)

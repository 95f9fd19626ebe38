-- ===== src/Es10bIot/Eims.antt =====
-- The eIM associations under AddEim, DeleteEim and UpdateEim of app/es10/es10b_iot.py.
use euicc_simulator.Prelude.{
  ℕ, zero, suc, ◌≤◌, ◌≡◌, refl, ap, ◌∙◌, false, Option, none, some, List, [], ◌∷◌, ◌++◌, Text,
  arith, bytes_eq, bytes_eq→eq, bytes_eq_sym, find_ref, update_at, pop_at, get_elem?, count,
  sum_by-append, bit, if◌then◌else◌,
}
use euicc_simulator.Euicc.{EimAssociation, has_id}
use euicc_simulator.Euicc.Valid.{DistinctEims}

-- The association of an identifier, as a client sees it.
abbrev pub assoc_of : Text → List EimAssociation → Option EimAssociation
assoc_of eim_id [] = none
assoc_of eim_id (a ∷ as') = if has_id eim_id a then some a else assoc_of eim_id as'

pub assoc_of-find :
    (eim_id : Text) (xs : List EimAssociation) (i : ℕ) (a : EimAssociation)
    → find_ref (has_id eim_id) xs ≡ some (i, a)
    → assoc_of eim_id xs ≡ some a
unfolding find_ref
assoc_of-find eim_id [] i a h = absurd (cc)
assoc_of-find eim_id (x ∷ xs) zero a h = ground arith
assoc_of-find eim_id (x ∷ xs) (suc i) a h = ground (arith, assoc_of-find eim_id xs i a)

pub assoc_of-find_none :
    (eim_id : Text) (xs : List EimAssociation)
    → find_ref (has_id eim_id) xs ≡ none
    → assoc_of eim_id xs ≡ none
unfolding find_ref
assoc_of-find_none eim_id [] h = refl
assoc_of-find_none eim_id (x ∷ xs) h = ground (arith, assoc_of-find_none eim_id xs)

pub assoc_of-append_old :
    (eim_id : Text) (xs ys : List EimAssociation) (a : EimAssociation)
    → assoc_of eim_id xs ≡ some a
    → assoc_of eim_id (xs ++ ys) ≡ some a
assoc_of-append_old eim_id [] ys a h = absurd (cc)
assoc_of-append_old eim_id (x ∷ xs) ys a h = ground (arith, assoc_of-append_old eim_id xs ys a)

pub assoc_of-append_new :
    (eim_id : Text) (xs ys : List EimAssociation)
    → assoc_of eim_id xs ≡ none
    → assoc_of eim_id (xs ++ ys) ≡ assoc_of eim_id ys
assoc_of-append_new eim_id [] ys h = refl
assoc_of-append_new eim_id (x ∷ xs) ys h = ground (arith, assoc_of-append_new eim_id xs ys)

-- An assignment that keeps the identifier is seen under that identifier only.
module _ (f : EimAssociation → EimAssociation)
    (keeps : (a : EimAssociation) → (f a).eim_id ≡ a.eim_id) where
  keeps_test : (eim_id : Text) (a : EimAssociation) → has_id eim_id (f a) ≡ has_id eim_id a
  keeps_test eim_id a = ap (λ t. bytes_eq t eim_id) (keeps a)

  pub assoc_of-update_self :
      (eim_id : Text) (xs : List EimAssociation) (i : ℕ) (a : EimAssociation)
      → find_ref (has_id eim_id) xs ≡ some (i, a)
      → assoc_of eim_id (update_at i f xs) ≡ some (f a)
  unfolding find_ref update_at
  assoc_of-update_self eim_id [] i a h = absurd (cc)
  assoc_of-update_self eim_id (x ∷ xs) zero a h = ground (arith, keeps_test eim_id x)
  assoc_of-update_self eim_id (x ∷ xs) (suc i) a h =
      ground (arith, assoc_of-update_self eim_id xs i a)

  pub assoc_of-update_other :
      (eim_id : Text) (xs : List EimAssociation) (i : ℕ) (a : EimAssociation)
      → get_elem? xs i ≡ some a
      → has_id eim_id a ≡ false
      → assoc_of eim_id (update_at i f xs) ≡ assoc_of eim_id xs
  unfolding update_at
  assoc_of-update_other eim_id [] i a h d = refl
  assoc_of-update_other eim_id (x ∷ xs) zero a h d =
      let e : x ≡ a = cc in ground (arith, keeps_test eim_id x, ap (has_id eim_id) e)
  assoc_of-update_other eim_id (x ∷ xs) (suc i) a h d =
      ground (arith, assoc_of-update_other eim_id xs i a h d)

  count-update_at :
      (eim_id : Text) (xs : List EimAssociation) (i : ℕ)
      → count (has_id eim_id) (update_at i f xs) ≡ count (has_id eim_id) xs
  unfolding update_at
  count-update_at eim_id [] i = refl
  count-update_at eim_id (x ∷ xs) zero = rw (keeps_test eim_id x)
  count-update_at eim_id (x ∷ xs) (suc i) = rw (count-update_at eim_id xs i)

  pub DistinctEims-update_at :
      (xs : List EimAssociation) (i : ℕ) → DistinctEims xs → DistinctEims (update_at i f xs)
  unfolding update_at
  DistinctEims-update_at [] i h = h
  DistinctEims-update_at (x ∷ xs) zero h = (rw (keeps x) h.0, h.1)
  DistinctEims-update_at (x ∷ xs) (suc i) h =
      (count-update_at x.eim_id xs i ∙ h.0, DistinctEims-update_at xs i h.1)

pub assoc_of-pop_other :
    (eim_id : Text) (xs : List EimAssociation) (i : ℕ) (a : EimAssociation)
    → get_elem? xs i ≡ some a
    → has_id eim_id a ≡ false
    → assoc_of eim_id (pop_at i xs) ≡ assoc_of eim_id xs
unfolding pop_at
assoc_of-pop_other eim_id [] i a h d = refl
assoc_of-pop_other eim_id (x ∷ xs) zero a h d =
    let e : x ≡ a = cc in ground (arith, ap (has_id eim_id) e)
assoc_of-pop_other eim_id (x ∷ xs) (suc i) a h d =
    ground (arith, assoc_of-pop_other eim_id xs i a h d)

-- In a list with distinct identifiers the one that is popped is gone.
pub assoc_of-count :
    (eim_id : Text) (xs : List EimAssociation)
    → count (has_id eim_id) xs ≡ 0
    → assoc_of eim_id xs ≡ none
assoc_of-count eim_id [] h = refl
assoc_of-count eim_id (x ∷ xs) h = ground (arith, assoc_of-count eim_id xs)

pub assoc_of-pop_self :
    (eim_id : Text) (xs : List EimAssociation) (i : ℕ) (a : EimAssociation)
    → DistinctEims xs
    → find_ref (has_id eim_id) xs ≡ some (i, a)
    → assoc_of eim_id (pop_at i xs) ≡ none
unfolding find_ref pop_at
assoc_of-pop_self eim_id [] i a d h = refl
assoc_of-pop_self eim_id (x ∷ xs) zero a d h =
    let same : x.eim_id ≡ eim_id = bytes_eq→eq x.eim_id eim_id (ground arith) in
    assoc_of-count eim_id xs (rw same at (d.0))
assoc_of-pop_self eim_id (x ∷ xs) (suc i) a d h =
    ground (arith, assoc_of-pop_self eim_id xs i a d.1)

count-pop_at :
    (eim_id : Text) (xs : List EimAssociation) (i : ℕ)
    → count (has_id eim_id) (pop_at i xs) ≤ count (has_id eim_id) xs
unfolding pop_at
count-pop_at eim_id [] i = omega arith
count-pop_at eim_id (x ∷ xs) zero = omega arith
count-pop_at eim_id (x ∷ xs) (suc i) = omega (arith, count-pop_at eim_id xs i)

pub DistinctEims-pop_at :
    (xs : List EimAssociation) (i : ℕ) → DistinctEims xs → DistinctEims (pop_at i xs)
unfolding pop_at
DistinctEims-pop_at [] i h = h
DistinctEims-pop_at (x ∷ xs) zero h = h.1
DistinctEims-pop_at (x ∷ xs) (suc i) h =
    (omega (arith, count-pop_at x.eim_id xs i, h.0), DistinctEims-pop_at xs i h.1)

pub DistinctEims-append :
    (xs : List EimAssociation) (a : EimAssociation)
    → DistinctEims xs
    → count (has_id a.eim_id) xs ≡ 0
    → DistinctEims (xs ++ a ∷ [])
DistinctEims-append [] a h e = (refl, tt)
DistinctEims-append (x ∷ xs) a h e = (
  (rw (sum_by-append (λ y. bit (has_id x.eim_id y)) xs (a ∷ []))
      (ground (arith, h.0, bytes_eq_sym a.eim_id x.eim_id, e))),
  DistinctEims-append xs a h.1 (ground arith),
)

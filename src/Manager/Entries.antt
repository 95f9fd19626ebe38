-- ===== src/Manager/Entries.antt =====
-- The dictionary of app/services/euicc_manager.py: an instance put in place of one, and properties of
-- all instances.
use euicc_simulator.Prelude.{
  ◌≡◌, inl, inr, refl, sym, subst, true, false, none, some, [], ◌∷◌, ◌++◌, Text, arith, bytes_eq,
  bytes_eq→eq, bytes_eq_refl, Bool-cases,
}
use euicc_simulator.Manager.{EuiccInstance, Instances, get_euicc, put_instance}

pub get_euicc-put_instance_other :
    (key other : Text) (i : EuiccInstance) (m : Instances)
    → bytes_eq key other ≡ false
    → get_euicc other (put_instance key i m) ≡ get_euicc other m
unfolding get_euicc put_instance
get_euicc-put_instance_other key other i [] differ = refl
get_euicc-put_instance_other key other i ((k, j) ∷ m) differ = elim (Bool-cases (bytes_eq k key)) [
  | inl same ↦
      let is_key = bytes_eq→eq k key same in
      let apart : bytes_eq k other ≡ false =
        subst (λ x. bytes_eq x other ≡ false) (sym is_key) differ in
      rw (same, apart) refl
  | inr no_match ↦ rw (no_match, get_euicc-put_instance_other key other i m differ) refl
]

-- A property of every instance.
abbrev pub Every : (EuiccInstance → Type 0) → Instances → Type 0
Every P [] = Unit {0}
Every P ((key, i) ∷ m) = P i × Every P m

-- A dictionary's keys are distinct.
abbrev pub DistinctKeys : Instances → Type 0
DistinctKeys [] = Unit {0}
DistinctKeys ((key, i) ∷ m) = (get_euicc key m ≡ none) × DistinctKeys m

module _ (P : EuiccInstance → Type 0) where
  pub Every-get :
      (eid : Text) (m : Instances) (i : EuiccInstance) → get_euicc eid m ≡ some i → Every P m → P i
  unfolding get_euicc
  Every-get eid [] i h v = absurd (ground (arith, h))
  Every-get eid ((key, j) ∷ m) i h (p, v) = elim (Bool-cases (bytes_eq key eid)) [
    | inl same ↦ subst P (ground (arith, same, h)) p
    | inr other ↦ Every-get eid m i (ground (arith, other, h)) v
  ]

  pub Every-put_instance :
      (eid : Text) (i : EuiccInstance) (m : Instances)
      → P i
      → Every P m
      → Every P (put_instance eid i m)
  unfolding put_instance
  Every-put_instance eid i [] p v = v
  Every-put_instance eid i ((key, j) ∷ m) p (q, v) = elim (Bool-cases (bytes_eq key eid)) [
    | inl same ↦ rw same (p, v)
    | inr other ↦ rw other (q, Every-put_instance eid i m p v)
  ]

  pub Every-append :
      (m : Instances) (eid : Text) (i : EuiccInstance)
      → P i
      → Every P m
      → Every P (m ++ (eid, i) ∷ [])
  Every-append [] eid i p v = (p, tt)
  Every-append ((key, j) ∷ m) eid i p (q, v) = (q, Every-append m eid i p v)

get_euicc-put_instance-none :
    (key eid : Text) (i : EuiccInstance) (m : Instances)
    → get_euicc key m ≡ none
    → get_euicc key (put_instance eid i m) ≡ none
unfolding get_euicc put_instance
get_euicc-put_instance-none key eid i [] h = h
get_euicc-put_instance-none key eid i ((k, j) ∷ m) h =
    ground (arith, get_euicc-put_instance-none key eid i m)

pub DistinctKeys-put_instance :
    (eid : Text) (i : EuiccInstance) (m : Instances)
    → DistinctKeys m
    → DistinctKeys (put_instance eid i m)
unfolding put_instance
DistinctKeys-put_instance eid i [] d = d
DistinctKeys-put_instance eid i ((k, j) ∷ m) (new, d) = elim (Bool-cases (bytes_eq k eid)) [
  | inl same ↦ rw same (new, d)
  | inr other ↦
      rw other (get_euicc-put_instance-none k eid i m new, DistinctKeys-put_instance eid i m d)
]

differ_sym : (a b : Text) → bytes_eq a b ≡ false → bytes_eq b a ≡ false
differ_sym a b h = elim (Bool-cases (bytes_eq b a)) [
  | inr apart ↦ apart
  | inl same ↦
      let e : bytes_eq a b ≡ true =
        subst (λ x. bytes_eq a x ≡ true) (sym (bytes_eq→eq b a same)) (bytes_eq_refl a) in
      absurd (ground (arith, e, h))
]

get_euicc-append-none :
    (key eid : Text) (i : EuiccInstance) (m : Instances)
    → bytes_eq eid key ≡ false
    → get_euicc key m ≡ none
    → get_euicc key (m ++ (eid, i) ∷ []) ≡ none
unfolding get_euicc
get_euicc-append-none key eid i [] differ h = rw differ refl
get_euicc-append-none key eid i ((k, j) ∷ m) differ h =
    ground (arith, get_euicc-append-none key eid i m differ)

pub DistinctKeys-append :
    (m : Instances) (eid : Text) (i : EuiccInstance)
    → get_euicc eid m ≡ none
    → DistinctKeys m
    → DistinctKeys (m ++ (eid, i) ∷ [])
unfolding get_euicc
DistinctKeys-append [] eid i h d = (refl, tt)
DistinctKeys-append ((k, j) ∷ m) eid i h (new, d) = elim (Bool-cases (bytes_eq k eid)) [
  | inl same ↦ absurd (ground (arith, same, h))
  | inr other ↦ (
    get_euicc-append-none k eid i m (differ_sym k eid other) new,
    DistinctKeys-append m eid i (ground (arith, other, h)) d,
  )
]

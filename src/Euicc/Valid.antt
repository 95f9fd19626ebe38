-- ===== src/Euicc/Valid.antt =====
-- The well-formedness of an eUICC's state, which every operation keeps, and its parts:
-- app/models/euicc.py.
use euicc_simulator.Prelude.{
  ℕ, zero, suc, ◌+◌, ◌≤◌, ◌<◌, ◌≡◌, refl, Option, List, [], ◌∷◌, ◌++◌, Bytes, Text, arith, pop_at,
  length, count,
}
use euicc_simulator.Prelude.Int.{ℤ}
use euicc_simulator.Euicc.{
  ProfileSlot, EimAssociation, Notification, DownloadSession, Operation, EuiccState, has_id,
  is_enabled, add_notification, new_euicc,
}

-- Sequence numbers rise from above `lo`, and none passes `hi`.
abbrev pub Ascending : ℕ → ℕ → List Notification → Type 0
Ascending lo hi [] = lo ≤ hi
Ascending lo hi (n ∷ ns) = (lo < n.seq_number) × Ascending n.seq_number hi ns

-- No two associations have one eIM identifier.
abbrev pub DistinctEims : List EimAssociation → Type 0
DistinctEims [] = Unit {0}
DistinctEims (a ∷ as') = (count (has_id a.eim_id) as' ≡ 0) × DistinctEims as'

pub record IsValid (s : EuiccState) : Type 0 where
  pub one_enabled : count is_enabled s.profiles ≤ 1
  pub numbered : Ascending 0 s.notification_seq s.notifications
  pub distinct : DistinctEims s.eim_associations
  pub room : length s.profiles ≤ s.max_profiles

pub Ascending-bound : (lo hi : ℕ) (ns : List Notification) → Ascending lo hi ns → lo ≤ hi
Ascending-bound lo hi [] h = h
Ascending-bound lo hi (n ∷ ns) h = omega (arith, Ascending-bound n.seq_number hi ns h.1)

pub Ascending-append :
    (lo hi : ℕ) (ns : List Notification) (n : Notification)
    → Ascending lo hi ns
    → n.seq_number ≡ hi + 1
    → Ascending lo (hi + 1) (ns ++ n ∷ [])
Ascending-append lo hi [] n h e = (omega arith, omega arith)
Ascending-append lo hi (m ∷ ns) n h e = (h.0, Ascending-append m.seq_number hi ns n h.1 e)

Ascending-weaken :
    (lo lo' hi : ℕ) (ns : List Notification) → lo' ≤ lo → Ascending lo hi ns → Ascending lo' hi ns
Ascending-weaken lo lo' hi [] e h = omega arith
Ascending-weaken lo lo' hi (n ∷ ns) e h = (omega arith, h.1)

pub Ascending-pop_at :
    (lo hi : ℕ) (ns : List Notification) (i : ℕ)
    → Ascending lo hi ns
    → Ascending lo hi (pop_at i ns)
unfolding pop_at
Ascending-pop_at lo hi [] i h = h
Ascending-pop_at lo hi (n ∷ ns) zero h = Ascending-weaken n.seq_number lo hi ns (omega arith) h.1
Ascending-pop_at lo hi (n ∷ ns) (suc i) h = (h.0, Ascending-pop_at n.seq_number hi ns i h.1)

-- The queue's numbering survives an `add_notification`.
pub numbered-add_notification :
    (op : Operation) (address : Text) (iccid : Option Bytes) (s : EuiccState)
    → Ascending 0 s.notification_seq s.notifications
    → let s' = add_notification op address iccid s in
      Ascending 0 s'.notification_seq s'.notifications
unfolding add_notification
numbered-add_notification op address iccid s h =
    Ascending-append 0 s.notification_seq s.notifications _ h refl

pub IsValid-new_euicc : (eid : Text) → IsValid (new_euicc eid)
unfolding new_euicc
IsValid-new_euicc eid = record {
  one_enabled = omega arith;
  numbered = omega arith;
  distinct = tt;
  room = omega arith;
}

pub IsValid-add_notification :
    (op : Operation) (address : Text) (iccid : Option Bytes) (s : EuiccState)
    → IsValid s
    → IsValid (add_notification op address iccid s)
unfolding add_notification
IsValid-add_notification op address iccid s v = record {
  one_enabled = v.one_enabled;
  numbered = Ascending-append 0 s.notification_seq s.notifications _ v.numbered refl;
  distinct = v.distinct;
  room = v.room;
}

-- Lists whose profiles differ in what validity does not read.
pub IsValid-with_profiles :
    (s : EuiccState) (ps : List ProfileSlot)
    → IsValid s
    → count is_enabled ps ≤ 1
    → length ps ≤ length s.profiles
    → IsValid (record s { profiles = ps })
IsValid-with_profiles s ps v h l = record {
  one_enabled = h;
  numbered = v.numbered;
  distinct = v.distinct;
  room = let r : length s.profiles ≤ s.max_profiles = v.room in omega arith;
}

-- Validity does not read the free memory.
pub IsValid-with_nvm : (s : EuiccState) (n : ℤ) → IsValid s → IsValid (record s { free_nvm = n })
IsValid-with_nvm s n v = record {
  one_enabled = v.one_enabled;
  numbered = v.numbered;
  distinct = v.distinct;
  room = v.room;
}

-- Nor the session.
pub IsValid-with_session :
    (s : EuiccState) (d : Option DownloadSession)
    → IsValid s
    → IsValid (record s { active_session = d })
IsValid-with_session s d v = record {
  one_enabled = v.one_enabled;
  numbered = v.numbered;
  distinct = v.distinct;
  room = v.room;
}

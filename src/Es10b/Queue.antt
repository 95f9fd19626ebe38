-- ===== src/Es10b/Queue.antt =====
-- `cancel_session`, `remove_notification` and the lists of app/es10/es10b.py: what they do.
use euicc_simulator.Prelude.{
  ℕ, ◌⊎◌, find_ref-none, ◌≡◌, refl, sym, ap, subst, false, Option, none, some, List, [], ◌∷◌, inl,
  inr, Bytes, bytes_eq, find_ref, pop_at, filter, not, count, arith, Option-cases, Bool-cases, ◌==◌,
  zero, suc, ◌<◌,
}
use euicc_simulator.Euicc.{DownloadSession, Notification, EuiccState}
use euicc_simulator.Euicc.Valid.{IsValid, Ascending, Ascending-pop_at, IsValid-with_session}
use euicc_simulator.Es10b.Engine.{Engine}
use euicc_simulator.Es10b.Notifications.{cancel_in, cancel_session, has_number, remove_notification}
use euicc_simulator.Es10b.Sessions.{SessionIsValid}

cancel_in-IsValid :
    (e : Engine) (tid : Bytes) (reason : ℕ) (o : Option DownloadSession) (s : EuiccState)
    → IsValid s
    → IsValid (cancel_in e tid reason o s).1
unfolding cancel_in
cancel_in-IsValid e tid reason none s v = v
cancel_in-IsValid e tid reason (some d) s v = elim (Bool-cases (bytes_eq tid d.transaction_id)) [
  | inr other ↦ rw other v
  | inl same ↦ elim (Option-cases (e.encode_cancel_session_signed tid reason)) [
    | inl fails ↦ rw (same, fails) v
    | inr (tbs, made) ↦ rw (same, made) (IsValid-with_session s none v)
  ]
]

pub cancel_session-IsValid :
    (e : Engine) (tid : Bytes) (reason : ℕ) (s : EuiccState)
    → IsValid s
    → IsValid (cancel_session e tid reason s).1
unfolding cancel_session
cancel_session-IsValid e tid reason s v = cancel_in-IsValid e tid reason s.active_session s v

cancel_in-SessionIsValid :
    (e : Engine) (P : Option Bytes → Type 0) (tid : Bytes) (reason : ℕ) (o : Option DownloadSession)
    (s : EuiccState)
    → o ≡ s.active_session
    → SessionIsValid P o
    → SessionIsValid P (cancel_in e tid reason o s).1.active_session
unfolding cancel_in
cancel_in-SessionIsValid e P tid reason none s here v = subst (SessionIsValid P) here v
cancel_in-SessionIsValid e P tid reason (some d) s here v =
    let kept = subst (SessionIsValid P) here v in
    elim (Bool-cases (bytes_eq tid d.transaction_id)) [
      | inr other ↦ rw (SessionIsValid, other) kept
      | inl same ↦ elim (Option-cases (e.encode_cancel_session_signed tid reason)) [
        | inl fails ↦ rw (SessionIsValid, same, fails) kept
        | inr (tbs, made) ↦ rw (SessionIsValid, same, made) tt
      ]
    ]

pub cancel_session-SessionIsValid :
    (e : Engine) (P : Option Bytes → Type 0) (tid : Bytes) (reason : ℕ) (s : EuiccState)
    → SessionIsValid P s.active_session
    → SessionIsValid P (cancel_session e tid reason s).1.active_session
unfolding cancel_session
cancel_session-SessionIsValid e P tid reason s v =
    cancel_in-SessionIsValid e P tid reason s.active_session s refl v

-- In a queue numbered upwards, at most one notification has a number, and taking it out leaves the
-- others in their order.
below :
    (lo hi n : ℕ) (ns : List Notification)
    → Ascending lo hi ns
    → n < suc lo
    → filter (λ m. not (has_number n m)) ns ≡ ns
below lo hi n [] h l = refl
below lo hi n (m ∷ ns) h l =
    let other : (m.seq_number == n) ≡ false = ground (arith, h.0) in
    rw other (ap (λ t. m ∷ t) (below m.seq_number hi n ns h.1 (omega (arith, h.0))))

pop_at-number :
    (lo hi n i : ℕ) (found : Notification) (ns : List Notification)
    → Ascending lo hi ns
    → find_ref (has_number n) ns ≡ some (i, found)
    → pop_at i ns ≡ filter (λ m. not (has_number n m)) ns
unfolding find_ref pop_at
pop_at-number lo hi n i found [] h f = absurd (cc)
pop_at-number lo hi n zero found (m ∷ ns) h f = elim (Bool-cases (has_number n m)) [
  | inl here ↦ rw here (sym (below m.seq_number hi n ns h.1 (ground arith)))
  | inr not_here ↦ absurd (ground arith)
]
pop_at-number lo hi n (suc i) found (m ∷ ns) h f = elim (Bool-cases (has_number n m)) [
  | inl here ↦ absurd (ground arith)
  | inr not_here ↦
      rw not_here (ap (λ t. m ∷ t) (pop_at-number m.seq_number hi n i found ns h.1 (ground arith)))
]

abbrev pub without_number : ℕ → List Notification → List Notification
without_number n ns = filter (λ m. not (has_number n m)) ns

-- In a valid state, a removal that answers zero leaves exactly the notifications with other
-- numbers, in their order; any other answer is one, for a number that no notification has, and
-- leaves the state. The state stays valid.
pub remove_notification_exact :
    (n : ℕ) (s : EuiccState)
    → IsValid s
    → let (answer, s') = remove_notification n s in
      IsValid s'
      × (((answer ≡ 0) × (s' ≡ record s { notifications = without_number n s.notifications }))
          ⊎ ((answer ≡ 1) × (s' ≡ s) × (count (has_number n) s.notifications ≡ 0)))
unfolding remove_notification
remove_notification_exact n s v = elim (Option-cases (find_ref (has_number n) s.notifications)) [
  | inl absent ↦
      rw (remove_notification, absent)
        (v, inr (refl, refl, find_ref-none (has_number n) s.notifications absent))
  | inr ((i, found), here) ↦
      rw (remove_notification, here)
        (
          record {
            one_enabled = v.one_enabled;
            numbered = Ascending-pop_at 0 s.notification_seq s.notifications i v.numbered;
            distinct = v.distinct;
            room = v.room;
          },
          inl (
            refl,
            ap (λ ns. record s { notifications = ns })
                (pop_at-number 0 s.notification_seq n i found s.notifications v.numbered here),
          ),
        )
]

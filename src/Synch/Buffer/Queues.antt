-- ===== src/Synch/Buffer/Queues.antt =====
-- The queues of the bounded buffer of threads/synch.cc: the threads in them sleep.
use pku_os_lab.Common.{
  ℕ, ◌≡◌, refl, ◌∙◌, ap, Bool, true, false, ◌||◌, List, [], ◌∷◌, ◌++◌, ◌==◌, All, has, Distinct,
  arith, Bool-cases, inl, inr, clash,
}
use pku_os_lab.Synch.{removed}
use pku_os_lab.Synch.Buffer.{Place, move, resumed, wake}

-- The queue holds the threads at places of one kind, each once.
pub record Queued (place : ℕ → Place) (kind : Place → Bool) (queue : List ℕ) : Type 0 where
  pub all : All (λ (t : ℕ). kind (place t) ≡ true) queue
  pub distinct : Distinct queue
  pub listed : (t : ℕ) → kind (place t) ≡ true → has t queue ≡ true

elsewhere :
    (place : ℕ → Place) (kind : Place → Bool) (t : ℕ) (queue : List ℕ)
    → All (λ (u : ℕ). kind (place u) ≡ true) queue
    → kind (place t) ≡ false
    → has t queue ≡ false
elsewhere place kind t [] h not_there = refl
elsewhere place kind t (u ∷ us) h not_there =
    let apart : (u == t) ≡ false = elim (Bool-cases (u == t)) [
      | inr other ↦ other
      | inl same ↦ let e : u ≡ t = ground (arith, same) in clash (rw e at h.0) not_there
    ] in
    rw apart (elsewhere place kind t us h.1 not_there)

All-move :
    (place : ℕ → Place) (kind : Place → Bool) (t : ℕ) (p : Place) (queue : List ℕ)
    → All (λ (u : ℕ). kind (place u) ≡ true) queue
    → has t queue ≡ false
    → All (λ (u : ℕ). kind (move place t p u) ≡ true) queue
All-move place kind t p [] h out = tt
All-move place kind t p (u ∷ us) h out =
    let apart : (t == u) ≡ false = ground (arith, out) in
    (rw apart h.0, All-move place kind t p us h.1 (ground (arith, out)))

-- A thread from another place moves to another place.
pub Queued-move :
    (place : ℕ → Place) (kind : Place → Bool) (t : ℕ) (p : Place) (queue : List ℕ)
    → Queued place kind queue
    → kind (place t) ≡ false
    → kind p ≡ false
    → Queued (move place t p) kind queue
Queued-move place kind t p queue q not_there not_then = record {
  all = All-move place kind t p queue q.all (elsewhere place kind t queue q.all not_there);
  distinct = q.distinct;
  listed = at;
}
  where
    at : (u : ℕ) → kind (move place t p u) ≡ true → has u queue ≡ true
    at u e = elim (Bool-cases (t == u)) [
      | inl same ↦ clash (rw same at e) not_then
      | inr other ↦ q.listed u (rw other at e)
    ]

has-append_one : (t u : ℕ) (queue : List ℕ) → has t (queue ++ (u ∷ [])) ≡ (has t queue || u == t)
has-append_one t u [] = ground arith
has-append_one t u (w ∷ ws) = rw (has-append_one t u ws) (ground arith)

Distinct-append_one :
    (t : ℕ) (queue : List ℕ) → Distinct queue → has t queue ≡ false → Distinct (queue ++ (t ∷ []))
Distinct-append_one t [] d out = (refl, tt)
Distinct-append_one t (u ∷ us) d out = (
  has-append_one u t us ∙ ground (arith, d.0, out),
  Distinct-append_one t us d.1 (ground (arith, out)),
)

All-append_one :
    (place : ℕ → Place) (kind : Place → Bool) (t : ℕ) (queue : List ℕ)
    → All (λ (u : ℕ). kind (place u) ≡ true) queue
    → kind (place t) ≡ true
    → All (λ (u : ℕ). kind (place u) ≡ true) (queue ++ (t ∷ []))
All-append_one place kind t [] h is = (is, tt)
All-append_one place kind t (u ∷ us) h is = (h.0, All-append_one place kind t us h.1 is)

move_self : (place : ℕ → Place) (t : ℕ) (p : Place) → move place t p t ≡ p
move_self place t p = ground arith

-- A thread from another place goes to the end of the queue.
pub Queued-append :
    (place : ℕ → Place) (kind : Place → Bool) (t : ℕ) (p : Place) (queue : List ℕ)
    → Queued place kind queue
    → kind (place t) ≡ false
    → kind p ≡ true
    → Queued (move place t p) kind (queue ++ (t ∷ []))
Queued-append place kind t p queue q not_there is =
    let out = elsewhere place kind t queue q.all not_there in
    record {
      all =
          All-append_one (move place t p) kind t queue (All-move place kind t p queue q.all out)
            (ap kind (move_self place t p) ∙ is);
      distinct = Distinct-append_one t queue q.distinct out;
      listed = at;
    }
  where
    at : (u : ℕ) → kind (move place t p u) ≡ true → has u (queue ++ (t ∷ [])) ≡ true
    at u e = elim (Bool-cases (t == u)) [
      | inl same ↦ has-append_one u t queue ∙ ground (arith, same)
      | inr other ↦ has-append_one u t queue ∙ rw (q.listed u (rw other at e)) refl
    ]

-- The first thread is woken.
pub Queued-removed :
    (place : ℕ → Place) (kind : Place → Bool) (queue : List ℕ)
    → Queued place kind queue
    → ((p : Place) → kind (resumed p) ≡ false)
    → Queued (wake place (removed queue).0) kind (removed queue).1
Queued-removed place kind [] q awake = q
Queued-removed place kind (t ∷ ts) q awake = record {
  all = All-move place kind t (resumed (place t)) ts q.all.1 q.distinct.0;
  distinct = q.distinct.1;
  listed = at;
}
  where
    at : (u : ℕ) → kind (move place t (resumed (place t)) u) ≡ true → has u ts ≡ true
    at u e = elim (Bool-cases (t == u)) [
      | inl same ↦ clash (rw same at e) (awake (place t))
      | inr other ↦
          let there : (t == u || has u ts) ≡ true = q.listed u (rw other at e) in
          ground (arith, there, other)
    ]

-- A thread of another kind is woken.
pub Queued-wake :
    (place : ℕ → Place) (kind other : Place → Bool) (queue woken : List ℕ)
    → Queued place kind queue
    → All (λ (u : ℕ). other (place u) ≡ true) woken
    → ((p : Place) → other p ≡ true → kind p ≡ false)
    → ((p : Place) → kind (resumed p) ≡ false)
    → Queued (wake place (removed woken).0) kind queue
Queued-wake place kind other queue [] q h apart awake = q
Queued-wake place kind other queue (u ∷ us) q h apart awake =
    Queued-move place kind u (resumed (place u)) queue q (apart (place u) h.0) (awake (place u))

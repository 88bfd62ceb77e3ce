-- ===== src/Threads/Messages/Delivery.antt =====
-- What `Send` of threads/thread.cc does, and what `Receive` then gets.
use pku_os_lab.Common.{
  ℕ, zero, suc, ◌+◌, ◌≤◌, ◌<◌, ◌≡◌, refl, ◌≢◌, ◌∙◌, ap, Bool, true, false, not, ◌&&◌, ◌||◌, ◌⊎◌,
  List, Option, none, some, ◌==◌, ltb, leb, if◌then◌else◌, Run, ok, aborted, get_or, set, length,
  get_or-set_self, get_or-set_ne, arith, Bool-cases, inl, inr,
}
use pku_os_lab.Common.Search.{First, at, nowhere, search-First, search-least}
use pku_os_lab.Threads.Messages.{
  Message, no_message, max_content, max_message, count_from, copy, put_message, send, for_thread,
  receive,
}

-- The string in the buffer has `n` characters before its terminating zero.
pub record HasLength (content : ℕ → ℕ) (n : ℕ) : Type 0 where
  pub ends : content n ≡ 0
  pub before : (j : ℕ) → j < n → (content j == 0) ≡ false

count_from-length :
    (content : ℕ → ℕ) (len n i : ℕ)
    → HasLength content len
    → i ≤ len
    → len < i + n
    → count_from content n i ≡ len
unfolding count_from
count_from-length content len zero i h le lt = absurd (omega arith)
count_from-length content len (suc n) i h le lt = elim (Bool-cases (i == len)) [
  | inl same ↦ ground (arith, h.ends)
  | inr other ↦
      rw (h.before i (ground arith))
        (count_from-length content len n (i + 1) h (ground arith) (omega arith))
]

copy-get :
    (from : ℕ → ℕ) (n j : ℕ) (to : ℕ → ℕ) (i : ℕ)
    → copy from n j to i ≡ (if leb j i && ltb i (j + n) then from i else to i)
unfolding copy
copy-get from zero j to i = ground arith
copy-get from (suc n) j to i =
    copy-get from n (j + 1) (λ k. if k == j then from j else to k) i ∙ elim (Bool-cases (i == j)) [
      | inl same ↦ let e : i ≡ j = ground arith in ground (arith, ap from e)
      | inr other ↦ ground arith
    ]

copied : (from : ℕ → ℕ) (n : ℕ) (to : ℕ → ℕ) (j : ℕ) → j ≤ n → copy from (n + 1) 0 to j ≡ from j
copied from n to j h = copy-get from (n + 1) 0 to j ∙ ground arith

count_from-full :
    (content : ℕ → ℕ) (len n i : ℕ)
    → HasLength content len
    → i + n ≤ len
    → count_from content n i ≡ i + n
unfolding count_from
count_from-full content len zero i h le = omega arith
count_from-full content len (suc n) i h le =
    rw (h.before i (omega arith))
      (count_from-full content len n (i + 1) h (omega arith) ∙ omega arith)

-- The message `m` is from `source` to `destination` and holds `n` characters of `content` and a zero.
pub record Carries (m : Message) (source destination : ℕ) (content : ℕ → ℕ) (n : ℕ) : Type 0 where
  pub valid : m.valid ≡ true
  pub from : m.source ≡ source
  pub to : m.destination ≡ destination
  pub size : m.cnt ≡ n + 1
  pub text : (j : ℕ) → j ≤ n → m.content j ≡ content j

-- What `Send` may do with a string of `n` characters.
pub data Sent (messages : List Message) (thread_id destination : ℕ) (content : ℕ → ℕ) (n : ℕ)
    : Run (Bool × List Message) → Type 0 where
  bad_length :
      (n == 0 || leb max_content n) ≡ true → Sent messages thread_id destination content n aborted
  full :
      ((i : ℕ) → i < max_message → (get_or messages i no_message).valid ≡ true)
      → Sent messages thread_id destination content n (ok (false, messages))
  sent :
      (messages' : List Message) (k : ℕ)
      → k < max_message
      → (get_or messages k no_message).valid ≡ false
      → ((i : ℕ) → (k == i) ≡ false → get_or messages' i no_message ≡ get_or messages i no_message)
      → Carries (get_or messages' k no_message) thread_id destination content n
      → Sent messages thread_id destination content n (ok (true, messages'))

module _ (messages : List Message) (thread_id destination n k : ℕ) (content : ℕ → ℕ)
    (size : length messages ≡ max_message) (lt : k < max_message) where
  abbrev new_message : Message
  new_message = record {
    source = thread_id;
    cnt = n + 1;
    valid = true;
    destination = destination;
    content = copy content (n + 1) 0 (get_or messages k no_message).content;
  }

  abbrev with_new : List Message
  with_new = set messages k new_message

  at_slot : get_or with_new k no_message ≡ new_message
  at_slot = get_or-set_self messages k new_message no_message (omega (arith, size))

  at_others :
      (i : ℕ) → (k == i) ≡ false → get_or with_new i no_message ≡ get_or messages i no_message
  at_others i other = get_or-set_ne messages k i new_message no_message (differ other)
    where
      differ : (k == i) ≡ false → k ≢ i
      differ h e = ground arith

  new-Carries : Carries (get_or with_new k no_message) thread_id destination content n
  new-Carries = record {
    valid = ap (λ m. m.valid) at_slot;
    from = ap (λ m. m.source) at_slot;
    to = ap (λ m. m.destination) at_slot;
    size = ap (λ m. m.cnt) at_slot;
    text = λ j h.
        ap (λ m. m.content j) at_slot ∙ copied content n (get_or messages k no_message).content j h;
  }

put_message-Sent :
    (messages : List Message) (thread_id destination n : ℕ) (content : ℕ → ℕ) (o : Option ℕ)
    → length messages ≡ max_message
    → First (λ i. not (get_or messages i no_message).valid) max_message 0 o
    → Sent messages thread_id destination content n
        (ok (put_message messages o thread_id content (n + 1) destination))
put_message-Sent messages thread_id destination n content none size (nowhere all) =
    full (λ i h. ground (arith, all i (omega arith) (omega arith)))
put_message-Sent messages thread_id destination n content (some _) size (at k le lt hit before) =
    sent _ k (omega arith) (ground (arith, hit))
      (at_others messages thread_id destination n k content size (omega arith))
      (new-Carries messages thread_id destination n k content size (omega arith))

fit :
    (n : ℕ)
    → (n == 0) ≡ false
    → leb max_content n ≡ false
    → (ltb 1 (n + 1) && leb (n + 1) max_content) ≡ true
fit n more short = ground arith

unfit : (n : ℕ) → (n == 0) ≡ true → (ltb 1 (n + 1) && leb (n + 1) max_content) ≡ false
unfit n empty = ground arith

-- With a table of `MAX_MESSAGE` messages, `Send` of a string of `n` characters stops at its `ASSERT` if
-- the string is empty or does not fit with its zero into `MAX_CONTENT` characters. Otherwise it fails and
-- changes nothing if every message is valid, and else uses one slot that was not valid and leaves all
-- others; that slot then holds the string with its zero, the sender and the destination.
send-Sent :
    (messages : List Message) (thread_id destination n : ℕ) (content : ℕ → ℕ)
    → length messages ≡ max_message
    → HasLength content n
    → Sent messages thread_id destination content n (send messages thread_id content destination)
unfolding send
send-Sent messages thread_id destination n content size h = elim (Bool-cases (leb max_content n)) [
  | inl long ↦
      rw (count_from-full content n max_content 0 h (ground arith)) (bad_length (ground arith))
  | inr short ↦
      rw (count_from-length content n max_content 0 h (omega arith) (ground arith))
        (elim (Bool-cases (n == 0)) [
          | inl empty ↦ rw (unfit n empty) (bad_length (ground arith))
          | inr more ↦ rw (fit n more short) (
              put_message-Sent messages thread_id destination n content _ size
                (search-First (λ i. not (get_or messages i no_message).valid) max_message 0))
        ])
]

earlier_slots :
    (messages : List Message) (thread_id k : ℕ)
    → ((i : ℕ)
        → i < k
        → ((get_or messages i no_message).valid ≡ false)
          ⊎ (((get_or messages i no_message).destination == thread_id) ≡ false))
    → (i : ℕ) → i < k
    → for_thread (get_or messages i no_message) thread_id ≡ false
earlier_slots messages thread_id k earlier i lt = elim (earlier i lt) [
  | inl free ↦ rw free refl
  | inr other ↦ ground (arith, other)
]

-- `Receive` gets the length and the text of the message in slot `k`, if it is valid and for this thread and the
-- message of each earlier slot is not valid or for another thread.
pub receive-Carries :
    (messages : List Message) (thread_id source n k : ℕ) (content buffer : ℕ → ℕ)
    → k < max_message
    → Carries (get_or messages k no_message) source thread_id content n
    → ((i : ℕ)
        → i < k
        → ((get_or messages i no_message).valid ≡ false)
          ⊎ (((get_or messages i no_message).destination == thread_id) ≡ false))
    → ((receive messages thread_id buffer).0 ≡ n + 1)
      × ((j : ℕ) → j ≤ n → (receive messages thread_id buffer).1 j ≡ content j)
unfolding receive
receive-Carries messages thread_id source n k content buffer lt c earlier =
    rw
      (search-least (λ i. for_thread (get_or messages i no_message) thread_id) max_message k lt
        (ground (arith, c.valid, c.to)) (earlier_slots messages thread_id k earlier))
      (
        c.size,
        λ j h.
            ap (λ (s : ℕ). copy (get_or messages k no_message).content s 0 buffer j) c.size
            ∙ copied (get_or messages k no_message).content n buffer j h
            ∙ c.text j h,
      )

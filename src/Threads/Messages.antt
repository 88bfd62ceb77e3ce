-- ===== src/Threads/Messages.antt =====
-- `Send` and `Receive` of threads/thread.cc, on the table of messages of threads/system.cc. A buffer of
-- characters is a function from its index; `Receive` gets `source` by value, so the caller never sees
-- what it assigns.
pub mod Delivery
mod Tests
use pku_os_lab.Common.{
  ℕ, zero, suc, ◌+◌, Bool, true, false, not, ◌&&◌, List, [], ◌∷◌, Option, none, some, ◌==◌, ltb,
  leb, if◌then◌else◌, Run, ok, ◌>>=◌, ◌>>◌, assert, get_or, set,
}
use pku_os_lab.Common.Search.{search}

-- `MAX_CONTENT` and `MAX_MESSAGE`
abbrev pub max_content : ℕ
max_content = 20

abbrev pub max_message : ℕ
max_message = 20

pub record Message : Type 0 where
  pub source : ℕ
  pub cnt : ℕ
  pub valid : Bool
  pub destination : ℕ
  pub content : ℕ → ℕ

abbrev pub no_message : Message
no_message = record { source = 0; cnt = 0; valid = true; destination = 0; content = λ j. 0 }

-- `for (count = 0; count < MAX_CONTENT; ++count) if (content[count] == '\0') break;`
pub count_from : (ℕ → ℕ) → ℕ → ℕ → ℕ
count_from content zero count = count
count_from content (suc n) count =
    let rest = count_from content n (count + 1) in if content count == 0 then count else rest

-- `for (j = 0; j < n; ++j) to[j] = from[j];`, with `n` rounds left
pub copy : (ℕ → ℕ) → ℕ → ℕ → (ℕ → ℕ) → ℕ → ℕ
copy from zero j to = to
copy from (suc n) j to = copy from n (j + 1) (λ i. if i == j then from j else to i)

-- The message in the slot that is found.
abbrev pub put_message : List Message → Option ℕ → ℕ → (ℕ → ℕ) → ℕ → ℕ → Bool × List Message
put_message messages none thread_id content count destination = (false, messages)
put_message messages (some i) thread_id content count destination = (
  true,
  set messages i (record {
    source = thread_id;
    cnt = count;
    valid = true;
    destination = destination;
    content = copy content count 0 (get_or messages i no_message).content;
  }),
)

-- `Send`, on the thread `thread_id`
pub send : List Message → ℕ → (ℕ → ℕ) → ℕ → Run (Bool × List Message)
send messages thread_id content destination = do
  let count = count_from content max_content 0 + 1
  assert (ltb 1 count && leb count max_content)
  ok (
      put_message messages (search (λ i. not (get_or messages i no_message).valid) max_message 0)
        thread_id content count destination)

abbrev pub for_thread : Message → ℕ → Bool
for_thread m thread_id = m.valid && m.destination == thread_id

abbrev pub take_message : List Message → Option ℕ → (ℕ → ℕ) → ℕ × (ℕ → ℕ)
take_message messages none content = (0, content)
take_message messages (some i) content =
    let m = get_or messages i no_message in (m.cnt, copy m.content m.cnt 0 content)

-- `Receive`, on the thread `thread_id`, into the buffer `content`: the length and the buffer
pub receive : List Message → ℕ → (ℕ → ℕ) → ℕ × (ℕ → ℕ)
receive messages thread_id content =
    take_message messages
      (search (λ i. for_thread (get_or messages i no_message) thread_id) max_message 0) content

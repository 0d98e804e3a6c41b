-- ===== src/Edge/Server/LocalCache.antt =====
-- `readFromLocalCache` (edge/server/server_services.go) against `redirectStreamToClient`, as interleaved steps. All messages
-- are slices of one buffer, so a message on the channel is only a length: its bytes are those of the buffer when it is
-- sent to the client. Taking a message from the channel and sending it is one step. An error
-- of the opening or of a read stands beside the steps: it is the last message.
pub mod Sizes
pub mod Overwritten
pub mod Whole
mod Tests
use sdcc_project.Base.{
  ℕ, zero, suc, ◌<◌, Bool, true, false, List, [], ◌∷◌, ◌++◌, Option, none, some, ltb, if◌then◌else◌,
  length, take, drop, String, map, ◌&&◌, not,
}
use sdcc_project.Edge.Channel.{Message}
use sdcc_project.Edge.Server.{failure_message}

pub record Local : Type 0 where
  pub unread : List ℕ
  pub buffer : List ℕ
  pub read_bytes : Option ℕ
  pub queue : List ℕ
  pub received : List (List ℕ)
  pub closed : Bool

-- `make([]byte, n)`
abbrev pub zeros : ℕ → List ℕ
zeros zero = []
zeros (suc n) = 0 ∷ zeros n

abbrev pub start : ℕ → List ℕ → Local
start chunk_size content = record {
  unread = content;
  buffer = zeros chunk_size;
  read_bytes = none;
  queue = [];
  received = [];
  closed = false;
}

pub data Action : Type 0 where
  read_file : Action
  send_message : Action
  finish : Action
  deliver : Action

-- `localFile.Read(buffer)`: the bytes overwrite the front of the buffer.
abbrev pub overwrite : List ℕ → Local → Local
overwrite bs s = record s {
  buffer = bs ++ drop (length bs) s.buffer;
  read_bytes = some (length bs);
}

-- A step, if it can be made.
abbrev pub reading : ℕ → Option ℕ → List ℕ → Local → Option Local
reading chunk_size (some n) unread s = none
reading chunk_size none [] s = none
reading chunk_size none (x ∷ xs) s =
    some (overwrite (take chunk_size (x ∷ xs)) (record s { unread = drop chunk_size (x ∷ xs) }))

abbrev pub sending : ℕ → Option ℕ → Local → Option Local
sending capacity none s = none
sending capacity (some n) s =
    if ltb (length s.queue) capacity
    then some (record s { queue = s.queue ++ (n ∷ []); read_bytes = none })
    else none

abbrev pub finishing : Option ℕ → List ℕ → Local → Option Local
finishing (some n) unread s = none
finishing none [] s = some (record s { closed = true })
finishing none (x ∷ xs) s = none

abbrev pub delivering : List ℕ → Local → Option Local
delivering [] s = none
delivering (n ∷ rest) s =
    some (record s { queue = rest; received = s.received ++ (take n s.buffer ∷ []) })

unfoldable pub step : ℕ → ℕ → Action → Local → Option Local
step chunk_size capacity read_file s =
    if s.closed then none else reading chunk_size s.read_bytes s.unread s
step chunk_size capacity send_message s = sending capacity s.read_bytes s
step chunk_size capacity finish s = finishing s.read_bytes s.unread s
step chunk_size capacity deliver s = delivering s.queue s

abbrev pub and_then : Option Local → (Local → Option Local) → Option Local
and_then none f = none
and_then (some s) f = f s

unfoldable pub run : ℕ → ℕ → List Action → Local → Option Local
unfolding step
run chunk_size capacity [] s = some s
run chunk_size capacity (a ∷ rest) s =
    and_then (step chunk_size capacity a s) (run chunk_size capacity rest)

-- A file under `FILES_PATH`, the errors that reading it meets, and the order of the steps.
pub record LocalRead : Type 0 where
  pub open_error : Option String
  pub chunk_size : ℕ
  pub capacity : ℕ
  pub content : List ℕ
  pub actions : List Action
  pub read_error : Option String

abbrev pub body_message : List ℕ → Message
body_message bytes = record { body = bytes; failure = none }

abbrev is_empty {ℓ} : {A : Type ℓ} → List A → Bool
is_empty [] = true
is_empty (x ∷ xs) = false

abbrev nothing_read : Option ℕ → Bool
nothing_read none = true
nothing_read (some n) = false

-- Whether all that went over the channel has been taken from it, and the reader has closed it, or is at a read that fails.
abbrev pub is_drained : Option String → Local → Bool
is_drained none s = is_empty s.queue && s.closed
is_drained (some e) s = is_empty s.queue && (nothing_read s.read_bytes && not s.closed)

abbrev pub last_message : Option String → List Message
last_message none = []
last_message (some e) = failure_message e ∷ []

-- The messages that come out of the channel, and whether there are more to come.
abbrev pub read_messages : Option String → Option Local → Option (List Message × Bool)
read_messages read_error none = none
read_messages read_error (some s) =
    if is_drained read_error s
    then some (map body_message s.received ++ last_message read_error, true)
    else some (map body_message s.received, false)

-- A file that cannot be opened gives one message, with the error.
abbrev pub after_open : Option String → Option (List Message × Bool) → Option (List Message × Bool)
after_open none rest = rest
after_open (some e) rest = some (failure_message e ∷ [], true)

-- `readFromLocalCache`
unfoldable pub read_from_local_cache : LocalRead → Option (List Message × Bool)
unfolding run
read_from_local_cache f = after_open f.open_error (
    read_messages f.read_error
      (run f.chunk_size f.capacity f.actions (start f.chunk_size f.content)))

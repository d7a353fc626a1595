-- ===== src/Webhook/Listener.antt =====
-- backend/src/webhook/horizon.listener.ts: what an event of the stream is, and the waits between
-- connections. Texts are lists of character codes.
use carbonledger.Base.{
  ℕ, ◌*◌, min, Bool, true, false, ◌&&◌, ◌||◌, Option, none, some, List, [], ◌∷◌, ◌++◌, ◌==◌,
  if◌then◌else◌,
}

pub data EventType : Type 0 where
  credit_minted credit_retired project_verified unknown : EventType

abbrev pub starts_with : List ℕ → List ℕ → Bool
starts_with [] s = true
starts_with (c ∷ word) [] = false
starts_with (c ∷ word) (d ∷ s) = c == d && starts_with word s

-- `s.includes(word)`
abbrev pub includes : List ℕ → List ℕ → Bool
includes word [] = starts_with word []
includes word (c ∷ s) = starts_with word (c ∷ s) || includes word s

-- `topics.join(',')`
abbrev pub join : List (List ℕ) → List ℕ
join [] = []
join (topic ∷ []) = topic
join (topic ∷ next ∷ topics) = topic ++ b',' ∷ join (next ∷ topics)

abbrev pub minted_word : List ℕ
minted_word = b'm' ∷ b'i' ∷ b'n' ∷ b't' ∷ b'e' ∷ b'd' ∷ []

abbrev pub retired_word : List ℕ
retired_word = b'r' ∷ b'e' ∷ b't' ∷ b'i' ∷ b'r' ∷ b'e' ∷ b'd' ∷ []

abbrev pub verified_word : List ℕ
verified_word = b'v' ∷ b'e' ∷ b'r' ∷ b'i' ∷ b'f' ∷ b'i' ∷ b'e' ∷ b'd' ∷ []

-- The type that `parseHorizonEvent` finds in the topics.
unfoldable pub parse_type : List (List ℕ) → Option EventType
parse_type topics =
    let topic_str = join topics in
    if includes minted_word topic_str
    then some credit_minted
    else if includes retired_word topic_str
    then some credit_retired
    else if includes verified_word topic_str
    then some project_verified
    else none

-- What the listener keeps: its delay in ms, and the types that it has queued.
pub record State : Type 0 where
  pub reconnect_delay : ℕ
  pub queued : List EventType

abbrev pub initial : State
initial = record { reconnect_delay = 1000; queued = [] }

-- What comes from the stream: a line that is no JSON, an event with its topics, or the end of the
-- stream, clean or not.
pub data Input : Type 0 where
  heartbeat : Input
  raw_event : List (List ℕ) → Input
  stream_end : Input

unfoldable pub handle_raw_event : List (List ℕ) → State → State
unfolding parse_type
handle_raw_event topics s = elim (parse_type topics) [
  | none ↦ s
  | some type_ ↦ record s { reconnect_delay = 1000; queued = s.queued ++ type_ ∷ [] }
]

-- The timer of `scheduleReconnect`, once it goes off.
unfoldable pub reconnect : State → State
reconnect s = record s { reconnect_delay = min (s.reconnect_delay * 2) 30000 }

unfoldable pub step : Input → State → State
unfolding handle_raw_event reconnect
step heartbeat s = s
step (raw_event topics) s = handle_raw_event topics s
step stream_end s = reconnect s

unfoldable pub run : List Input → State → State
unfolding step
run [] s = s
run (input ∷ inputs) s = run inputs (step input s)

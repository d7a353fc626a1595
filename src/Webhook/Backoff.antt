-- ===== src/Webhook/Backoff.antt =====
-- backend/src/webhook/horizon.listener.ts: the waits between connections.
use carbonledger.Base.{
  ℕ, zero, suc, ◌*◌, ◌^◌, ◌≤◌, min, List, [], ◌∷◌, ◌≡◌, ◌∙◌, arith, replicate, Option-cases,
  Bool-cases, inl, inr, leb,
}
use native.Mathlib.Numerals.{unary_clauses}
use carbonledger.Webhook.Listener.{
  State, Input, heartbeat, raw_event, stream_end, parse_type, handle_raw_event, reconnect, step,
  run,
}

abbrev pub IsPaced : State → Type 0
IsPaced s = (1000 ≤ s.reconnect_delay) × (s.reconnect_delay ≤ 30000)

pub step-IsPaced : (input : Input) (s : State) → IsPaced s → IsPaced (step input s)
unfolding step handle_raw_event reconnect
step-IsPaced heartbeat s h = h
step-IsPaced (raw_event topics) s h = ground (arith, Option-cases (parse_type topics))
step-IsPaced stream_end s h = ground arith

-- Whatever comes from the stream, the wait before a connection is a second at least and half a
-- minute at most.
pub run-IsPaced : (inputs : List Input) (s : State) → IsPaced s → IsPaced (run inputs s)
unfolding run
run-IsPaced [] s h = h
run-IsPaced (input ∷ inputs) s h = run-IsPaced inputs (step input s) (step-IsPaced input s h)

le_times : (a p : ℕ) → 1 ≤ p → a ≤ a * p
le_times a zero h = absurd (omega arith)
le_times a (suc p) h = omega arith

pow_pos : (n : ℕ) → 1 ≤ 2 ^ n
pow_pos zero = omega arith
pow_pos (suc n) = omega (arith, pow_pos n)

capped : (d p : ℕ) → 1 ≤ p → min (min (d * 2) 30000 * p) 30000 ≡ min (d * (p * 2)) 30000
capped d p h = elim (Bool-cases (leb (d * 2) 30000)) [
  | inl small ↦ let e : min (d * 2) 30000 ≡ d * 2 = ground arith in rw e (omega arith)
  | inr large ↦
      let e : min (d * 2) 30000 ≡ 30000 = ground arith in
      rw e (ground (arith, le_times (d * 2) p h))
]

-- After `n` ends of the stream with no event between, the wait has doubled `n` times, up to half a
-- minute.
pub backoff_doubles :
    (n : ℕ) (s : State)
    → s.reconnect_delay ≤ 30000
    → (run (replicate n stream_end) s).reconnect_delay ≡ min (s.reconnect_delay * 2 ^ n) 30000
unfolding run step reconnect
backoff_doubles zero s h = ground arith
backoff_doubles (suc n) s h =
    backoff_doubles n (reconnect s) (ground arith)
    ∙ simp unary_clauses (capped s.reconnect_delay (2 ^ n) (pow_pos n))

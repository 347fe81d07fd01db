-- ===== src/Witnesses/Guarded.antt =====
-- The guard around a provider at concrete inputs (internal/governance/provider.go).
use model_gate.Prelude.{
  not, ◌||◌, ℕ, ◌+◌, ◌≤◌, ◌<◌, ◌≡◌, ◌⊎◌, refl, arith, true, false, ◌||◌, [], ◌∷◌, none, some,
}
use model_gate.Errors.{Error, Result, ok, err, sentinel, eof}
use model_gate.Requests.{ChatResponse}
use model_gate.Semaphore.{takes_slot, sees_done}
use model_gate.Breaker.{state_closed}
use model_gate.Governance.{
  Shared, Surroundings, StreamSurroundings, Guard, ManagedStream, waits, returns, chat, chat_stream,
}
use model_gate.Governance.Calls.{Holds, IsFair, Asked, entered, chat_lem}
use model_gate.Governance.Streams.{
  IsFairStream, IsManaged, Opened, receives, closes, use_stream, use_stream_lem, chat_stream_lem,
}
use model_gate.Witnesses.Circuit.{fresh}
use model_gate.Witnesses.Upstream.{usual, usual_policy, usual-new}
use model_gate.Witnesses.Service.{hello_back}

-- The world counts the slots that the other requests hold.
abbrev taken : ℕ → ℕ
taken n = n

abbrev one_of_two : Shared ℕ
one_of_two = record {
  semaphore = record { in_flight = 1; capacity = 2 };
  breaker = fresh;
  world = 1;
}

abbrev guard : Guard
guard = record { name = "deepseek"; policy = usual_policy }

-- While the provider answers, another request comes in and takes a slot.
abbrev busy : {A : Type 0} → A → Surroundings ℕ A
busy a = record {
  call = λ timeout s. (
    ok (some a),
    record {
      semaphore = record s.semaphore { in_flight = s.semaphore.in_flight + 1 };
      breaker = s.breaker;
      world = s.world + 1;
    },
  );
  context_error = λ s. (none, s);
  jitter = λ d s. (d, s);
  wait = λ d s. (none, s);
  clock = λ s. 7;
}

busy-IsFair : {A : Type 0} (a : A) → IsFair taken (busy a)
busy-IsFair a = record {
  call = λ timeout n s h. omega (arith, h);
  context_error = λ n s h. h;
  jitter = λ d n s h. h;
  wait = λ d n s h. h;
}

chat_lem_example :
    ((takes_slot ≡ takes_slot)
      × (2 ≤ 1)
      × (chat guard (busy hello_back) takes_slot one_of_two ≡ waits))
    ⊎ ((e : Error) × (takes_slot ≡ sees_done e)
        × (chat guard (busy hello_back) takes_slot one_of_two ≡ returns (err e, one_of_two)))
    ⊎ ((takes_slot ≡ takes_slot)
        × (1 < 2)
        × ((r : Result ChatResponse) × (t : Shared ℕ) × (chat guard
                (busy hello_back)
                takes_slot
                one_of_two
              ≡ returns (r, t))
            × Asked taken guard (busy hello_back) (entered one_of_two) r t
            × Holds taken 0 t))
chat_lem_example =
    chat_lem taken guard (busy hello_back) (busy-IsFair hello_back) usual usual-new takes_slot
      one_of_two refl

-- A stream that has nothing to send.
abbrev exhausted : StreamSurroundings ℕ ℕ ℕ
exhausted = record {
  recv = λ i s. ((none, some (sentinel eof)), i + 1, s);
  close = λ i s. (none, i, s);
  clock = λ s. 9;
}

exhausted-IsFair : IsFairStream taken exhausted
exhausted-IsFair = record { recv = λ i n s h. h; close = λ i n s h. h }

chat_stream_lem_example :
    (r : Result (ManagedStream ℕ)) × (t : Shared ℕ) × (chat_stream guard
        (busy {A = ℕ} 0)
        takes_slot
        one_of_two
      ≡ returns (r, t))
    × Opened taken guard (busy {A = ℕ} 0) r t
chat_stream_lem_example =
    chat_stream_lem taken guard (busy {A = ℕ} 0) (busy-IsFair {A = ℕ} 0) usual usual-new one_of_two
      refl (omega arith)

abbrev stream : ManagedStream ℕ
stream = record {
  provider_name = "deepseek";
  inner = 0;
  circuit = record { state = state_closed; generation = 0; used = false };
  concurrency = record { used = false };
  cancel = some 1;
  ended = false;
  cancelled = 0;
}

abbrev streaming : Shared ℕ
streaming = record one_of_two { semaphore = record { in_flight = 2; capacity = 2 } }

stream-IsManaged : IsManaged taken stream streaming
stream-IsManaged = record { slot = refl; circuit = refl; cancelled = refl; held = refl }

use_stream_lem_example :
    (n : ManagedStream ℕ) × (t : Shared ℕ) × (use_stream exhausted
        (receives ∷ receives ∷ closes ∷ closes ∷ [])
        (stream, streaming)
      ≡ returns (n, t))
    × IsManaged taken n t
    × (n.ended || not true ≡ true)
use_stream_lem_example =
    use_stream_lem taken exhausted exhausted-IsFair (receives ∷ receives ∷ closes ∷ closes ∷ [])
      stream streaming stream-IsManaged

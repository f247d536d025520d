-- ===== src/Serialize/Tests.antt =====
-- Runs of internal/serialize/serialize.go, and the properties at concrete histories.
use ocu_mcp_gateway.Base.{
  ◌≡◌, ◌↔◌, ◌≤◌, refl, inr, List, [], ◌∷◌, none, pos, Str, lookup, insert, delete, str_eq, length,
  arith,
}
use ocu_mcp_gateway.Serialize.{
  Event, enters, wakes, releases, step, run, start, acquire, release, wake, broadcast, refused,
  holding, waiting, roused, done, contended,
}
use ocu_mcp_gateway.Serialize.Slots.{live}
use ocu_mcp_gateway.Serialize.Order.{
  Pending, arrival_order, turn_comes, queue_bounded, refused_iff, contended_idle,
}

abbrev chat : Str
chat = 7 ∷ []

abbrev tool : Str
tool = 9 ∷ []

-- Two calls of one session: the second waits until the first is released and the waiter wakes.
abbrev two_calls : List Event
two_calls = enters chat tool ∷ enters chat tool ∷ []

abbrev handed_over : List Event
handed_over = enters chat tool ∷ enters chat tool ∷ releases 0 ∷ releases 0 ∷ wakes 1 ∷ []

abbrev finished : List Event
finished = enters chat tool ∷ releases 0 ∷ []

two_calls-run :
    (run (start (pos 2) none) two_calls).calls ≡ holding chat 0 0 ∷ waiting chat 0 1 ∷ []
unfolding run step start acquire release broadcast lookup insert delete str_eq
two_calls-run = refl

handed_over-run :
    (run (start (pos 2) none) handed_over).calls ≡ done chat 0 0 ∷ holding chat 0 1 ∷ []
unfolding run step start acquire release broadcast wake lookup insert delete str_eq
handed_over-run = refl

third_refused : (acquire (run (start (pos 2) none) two_calls).serializer chat tool).1 ≡ refused
unfolding run step start acquire release broadcast lookup insert delete str_eq
third_refused = refl

arrival_order_example : ¬ Pending chat (done chat 0 0)
unfolding run step start acquire release broadcast wake lookup insert delete str_eq
arrival_order_example =
    arrival_order 1 none handed_over (omega arith) chat 0 1 0 1 (done chat 0 0) refl (omega arith)
      refl

abbrev released : List Event
released = enters chat tool ∷ enters chat tool ∷ releases 0 ∷ []

turn_comes_example :
    (roused chat 0 1 ≡ roused chat 0 1)
    × (wake (run (start (pos 2) none) released).serializer (roused chat 0 1) ≡ holding chat 0 1)
unfolding run step start acquire release broadcast lookup insert delete str_eq
turn_comes_example =
    turn_comes 1 none released (omega arith) chat 1 0 1 (roused chat 0 1) refl (inr refl)
      ((λ p. elim p [ ]), tt)

-- A wake-up before the release moves nothing.
woken_early :
    (run (start (pos 2) none) (enters chat tool ∷ enters chat tool ∷ wakes 1 ∷ [])).calls
    ≡ holding chat 0 0 ∷ waiting chat 0 1 ∷ []
unfolding run step start acquire wake lookup insert delete str_eq
woken_early = refl

queue_bounded_example :
    let s = run (start (pos 2) none) two_calls in
    (length (live chat s.calls) ≤ 2)
    × ((lookup chat s.serializer.gates ≡ none) ↔ (live chat s.calls ≡ []))
queue_bounded_example = queue_bounded 1 none two_calls (omega arith) chat

refused_iff_example :
    let s = run (start (pos 2) none) two_calls in
    ((acquire s.serializer chat tool).1 ≡ refused) ↔ (length (live chat s.calls) ≡ 2)
unfolding run step start acquire release broadcast lookup insert delete str_eq
refused_iff_example = refused_iff 1 none two_calls (omega arith) chat tool refl

contended_idle_example : contended (run (start (pos 2) none) finished).serializer ≡ 0
unfolding run step start acquire release broadcast lookup insert delete str_eq live
contended_idle_example = contended_idle 1 none finished (omega arith) (λ h. refl)

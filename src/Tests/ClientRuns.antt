-- ===== src/Tests/ClientRuns.antt =====
-- The client's requests.
use ohmcp.Base.Maps.{remove, discard, insert, contains, lookup}
use ohmcp.Client.Receive.{resolve_shm, take_response, route_kind, route, recv_loop, recv_response}
use ohmcp.Client.Multiplex.{Gets, recv_response-recv_response}
use ohmcp.Client.Mail.{first_for, Awaits}
use ohmcp.Core.MsgType.{call_tool_result}
use ohmcp.Client.Sorted.{recv_response-Sorted, FitsResult}
use ohmcp.Pipeline.{frame_of}
use ohmcp.Client.State.{Incoming, new_client, OhmcpClient, arrived}
use ohmcp.Core.Frame.{Frame}
use ohmcp.Base.{Option, none, arith, ◌++◌, ◌∷◌, [], List, refl, ◌≡◌, ok}
use ohmcp.Fixtures.Host.{host_outside}

abbrev mine : Frame
mine = frame_of 0 call_tool_result 1 (7 ∷ [])

abbrev theirs : Frame
theirs = frame_of 0 call_tool_result 2 (8 ∷ [])

-- Requests 1 and 2 wait; the response to 2 comes first.
abbrev two_wait : OhmcpClient
two_wait = record (new_client (arrived theirs ∷ arrived mine ∷ [])) {
  pending = 1 ∷ 2 ∷ [];
  receivers = 1 ∷ 2 ∷ [];
}

abbrev one_served : OhmcpClient
one_served = record (new_client []) { receivers = 2 ∷ []; mailbox = (2, theirs) ∷ [] }

served : recv_response host_outside 5 1 two_wait ≡ (ok mine, one_served)
unfolding recv_response recv_loop route route_kind take_response resolve_shm lookup insert contains
    discard remove
served = refl

recv_response-recv_response_example :
    (consumed : List Incoming) × (two_wait.incoming ≡ consumed ++ [])
    × Gets host_outside 5 1 2 (omega arith) (first_for 2 consumed) one_served
unfolding contains lookup
recv_response-recv_response_example =
    recv_response-recv_response host_outside 5 1 2 (omega arith) two_wait mine one_served
      (refl, (refl, tt)) (refl, refl, refl) served

recv_response-Sorted_example :
    FitsResult host_outside 5 1 (recv_response host_outside 5 1 two_wait)
    × (got : Option Frame) × Awaits 2 (recv_response host_outside 5 1 two_wait).1 got
unfolding lookup contains
recv_response-Sorted_example =
    recv_response-Sorted host_outside 5 1 2 two_wait none (λ i f e. ground arith) (omega arith)
      (refl, refl, refl)

-- The response to a request that has given up is lost.
given_up : (recv_response host_outside 5 1 (record two_wait { receivers = 1 ∷ [] })).1.mailbox ≡ []
unfolding recv_response recv_loop route route_kind take_response resolve_shm lookup insert contains
    discard remove
given_up = refl

-- ===== src/Capture/Portal/Tests.antt =====
-- The portal at concrete inputs.
use smooth_demon.Prelude.{ℕ, ◌≡◌, refl, true, false, List, [], ◌∷◌, ◌++◌, some, length}
use smooth_demon.Text.{codes, text_eq}
use smooth_demon.Text.Decimal.{show}
use smooth_demon.Capture.Portal.{
  unique_name_to_sender, make_token, text_value, streams_value, Results, Arrival, early, late,
  Answers, PortalSession, PortalCall, portal_session, close_session, close_fd, succeeds, fails,
  hangs, request_screen_cast, destroy,
}
use smooth_demon.Capture.Portal.Protocol.{protocol, is_success, handle_of, node_of, grants}
use smooth_demon.Capture.Portal.Leaks.{
  requests, opens, closes, fds_of, copies, last_copy, requests_leak,
}
use smooth_demon.Capture.Portal.Granted.{request_screen_cast-protocol}

names_sender : unique_name_to_sender (codes ":1.42") ≡ codes "1_42"
unfolding unique_name_to_sender
names_sender = refl

makes_token : make_token (codes "create") 0 ≡ codes "smoothdemon_create_1"
unfolding make_token show
makes_token = refl

abbrev results : Results
results key = elim (text_eq key (codes "streams")) [
  | true ↦ some (streams_value (57 ∷ []))
  | false ↦ some (text_value (codes "/session/1"))
]

abbrev answers : Arrival → Answers
answers start_response = record {
  unique_name = codes ":1.42";
  creates = true;
  create_response = late 0 results;
  selects = true;
  select_response = late 0 results;
  starts = true;
  start_response = start_response;
  remote = some 6;
  dup_fd = some 7;
}

abbrev granted : PortalSession
granted = record { session_handle = codes "/session/1"; pw_fd = some 7; node_id = 57 }

grants_cast : (request_screen_cast 0 (answers (late 0 results)) portal_session).1 ≡ granted
unfolding request_screen_cast portal_session text_eq
grants_cast = refl

cancels : (request_screen_cast 0 (answers (late 1 results)) portal_session).0 ≡ fails
unfolding request_screen_cast portal_session text_eq
cancels = refl

-- A response that comes before its handler is lost.
waits_for_ever : (request_screen_cast 0 (answers (early 0 results)) portal_session).0 ≡ hangs
unfolding request_screen_cast portal_session text_eq
waits_for_ever = refl

closes_both : (destroy granted).1 ≡ close_session (codes "/session/1") ∷ close_fd 7 ∷ []
unfolding destroy
closes_both = refl

request_screen_cast-protocol_example :
    let (outcome, s', calls) = request_screen_cast 0 (answers (late 0 results)) portal_session in
    let all = protocol (unique_name_to_sender (codes ":1.42")) s'.session_handle 0 (some 7) in
    ((rest : List PortalCall) × (calls ++ rest ≡ all))
    × (is_success outcome ≡ grants (answers (late 0 results)))
    × (outcome ≡ succeeds
        → (calls ≡ all)
          × (handle_of (answers (late 0 results)) ≡ some s'.session_handle)
          × (node_of (answers (late 0 results)) ≡ some s'.node_id)
          × (some 7 ≡ s'.pw_fd))
request_screen_cast-protocol_example =
    request_screen_cast-protocol 0 (answers (late 0 results)) portal_session

abbrev asked : ℕ × Answers
asked = (0, answers (late 0 results))

asked-Granted : grants (answers (late 0 results)) ≡ true
unfolding grants handle_of node_of text_eq
asked-Granted = refl

-- A second request, whose copy is another descriptor.
abbrev asked_again : ℕ × Answers
asked_again = (3, record (answers (late 0 results)) { dup_fd = some 9 })

asked_again-Granted : grants asked_again.1 ≡ true
unfolding grants handle_of node_of text_eq
asked_again-Granted = refl

-- Two requests on one session: the first descriptor stays open.
requests_leak_example :
    let (end, calls) = requests (asked ∷ asked_again ∷ []) portal_session in
    let all = calls ++ (destroy end).1 in
    (fds_of opens all ≡ 7 ∷ 9 ∷ [])
    × (fds_of closes all ≡ 9 ∷ [])
    × (fds_of closes calls ≡ [])
    × (length (copies (asked ∷ asked_again ∷ [])) ≡ 2)
unfolding copies last_copy
requests_leak_example =
    requests_leak asked (asked_again ∷ []) portal_session (asked-Granted, (asked_again-Granted, tt))

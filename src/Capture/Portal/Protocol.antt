-- ===== src/Capture/Portal/Protocol.antt =====
-- The calls of a request for a screen cast come in the order of the portal's protocol.
use smooth_demon.Prelude.{
  ℕ, ◌+◌, Bool, true, false, ◌&&◌, List, [], ◌∷◌, Option, none, some, if◌then◌else◌, ◌==◌,
}
use smooth_demon.Text.{Text, codes}
use smooth_demon.Capture.Portal.{
  make_token, request_path, Variant, text_value, streams_value, Results, Arrival, early, late,
  never, Answers, PortalCall, create_session, select_sources, start, open_pipe_wire_remote, awaits,
  dups, Outcome, succeeds,
}

-- The calls of a request that is granted, for a sender, a handle, `n` tokens made before and the copied descriptor: each
-- wait is for the path of the token that the call before it has passed.
abbrev pub dup_calls : Option ℕ → List PortalCall
dup_calls none = []
dup_calls (some fd) = dups fd ∷ []

abbrev pub remote_calls : Text → Option ℕ → List PortalCall
remote_calls handle copy = open_pipe_wire_remote handle ∷ dup_calls copy

abbrev pub start_calls : Text → Text → ℕ → Option ℕ → List PortalCall
start_calls sender handle n copy =
    start handle (make_token (codes "start") n)
    ∷ awaits (request_path sender (make_token (codes "start") n))
    ∷ remote_calls handle copy

abbrev pub select_calls : Text → Text → ℕ → Option ℕ → List PortalCall
select_calls sender handle n copy =
    select_sources handle (make_token (codes "select") n)
    ∷ awaits (request_path sender (make_token (codes "select") n))
    ∷ start_calls sender handle (n + 1) copy

unfoldable pub protocol : Text → Text → ℕ → Option ℕ → List PortalCall
protocol sender handle n copy =
    create_session (make_token (codes "create") n) (make_token (codes "session") (n + 1))
    ∷ awaits (request_path sender (make_token (codes "create") n))
    ∷ select_calls sender handle (n + 2) copy

abbrev pub is_success : Outcome → Bool
is_success succeeds = true
is_success _ = false

abbrev pub is_some {ℓ} : {A : Type ℓ} → Option A → Bool
is_some none = false
is_some (some a) = true

-- The results of a response that comes behind its handler, with code 0.
abbrev pub answer_of : Arrival → Option Results
answer_of (early code results) = none
answer_of (late code results) = if code == 0 then some results else none
answer_of never = none

abbrev pub text_of : Option Variant → Option Text
text_of (some (text_value t)) = some t
text_of _ = none

abbrev pub first_of : Option Variant → Option ℕ
first_of (some (streams_value (node ∷ nodes))) = some node
first_of _ = none

abbrev pub value_in : Text → Option Results → Option Variant
value_in key none = none
value_in key (some results) = results key

-- The handle and the node that the responses give, if they come after their handler, with code 0.
unfoldable pub handle_of : Answers → Option Text
handle_of a = text_of (value_in (codes "session_handle") (answer_of a.create_response))

unfoldable pub node_of : Answers → Option ℕ
node_of a = first_of (value_in (codes "streams") (answer_of a.start_response))

-- Every method succeeds, every response comes and gives what it should, and so does `dup`.
unfoldable pub grants : Answers → Bool
grants a =
    a.creates
    && (is_some (handle_of a)
        && (a.selects
            && (is_some (answer_of a.select_response)
                && (a.starts && (is_some (node_of a) && (is_some a.remote && is_some a.dup_fd))))))

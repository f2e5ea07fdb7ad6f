-- ===== src/Capture/Portal.antt =====
-- `PortalSession` of src/capture/PortalSession.cpp and include/capture/PortalSession.h. What D-Bus
-- answers is an argument. The counter of `make_token`, a static variable, is passed on.
pub mod Protocol
pub mod Follows
pub mod Granted
pub mod Leaks
mod Tests
use smooth_demon.Prelude.{
  ℕ, ◌+◌, Bool, true, false, List, [], ◌∷◌, ◌++◌, map, Option, none, some, ◌==◌, if◌then◌else◌,
}
use smooth_demon.Text.{Text, codes}
use smooth_demon.Text.Decimal.{show}

-- The unique name without its ':', and with '_' for '.'.
pub unique_name_to_sender : Text → Text
unique_name_to_sender [] = []
unique_name_to_sender (c ∷ s) =
    map (λ x. if x == b'.' then b'_' else x) (if c == b':' then s else c ∷ s)

-- The token behind `n` others.
pub make_token : Text → ℕ → Text
make_token tag n = codes "smoothdemon_" ++ (tag ++ (codes "_" ++ show (n + 1)))

pub request_path : Text → Text → Text
request_path sender token =
    codes "/org/freedesktop/portal/desktop/request/" ++ (sender ++ (codes "/" ++ token))

-- The values that the program reads, and the node ids of streams.
pub data Variant : Type 0 where
  text_value : Text → Variant
  streams_value : List ℕ → Variant
  other_value : Variant

abbrev pub Results : Type 0
Results = Text → Option Variant

-- A response, which may be sent before the handler of the signal is there, and then is lost.
pub data Arrival : Type 0 where
  early late : ℕ → Results → Arrival
  never : Arrival

-- What the calls give: of a method, whether it throws no error.
pub record Answers : Type 0 where
  pub unique_name : Text
  pub creates : Bool
  pub create_response : Arrival
  pub selects : Bool
  pub select_response : Arrival
  pub starts : Bool
  pub start_response : Arrival
  pub remote : Option ℕ
  pub dup_fd : Option ℕ

pub record PortalSession : Type 0 where
  pub session_handle : Text
  pub pw_fd : Option ℕ
  pub node_id : ℕ

-- The constructor.
pub portal_session : PortalSession
portal_session = record { session_handle = []; pw_fd = none; node_id = 0 }

-- The methods, with the handle of the session and the tokens, and the waits, with a path.
pub data PortalCall : Type 0 where
  create_session : Text → Text → PortalCall
  select_sources start : Text → Text → PortalCall
  open_pipe_wire_remote : Text → PortalCall
  awaits : Text → PortalCall
  close_session : Text → PortalCall
  close_fd : ℕ → PortalCall
  -- A descriptor that `dup` has given.
  dups : ℕ → PortalCall

pub data Outcome : Type 0 where
  succeeds fails hangs throws : Outcome

pub data Awaited : Type 0 where
  responds : Results → Awaited
  refused no_response : Awaited

-- `AwaitPortalResponse`: the handler is installed behind the call of the method.
pub await_portal_response : Arrival → Awaited
await_portal_response (early code results) = no_response
await_portal_response (late code results) = if code == 0 then responds results else refused
await_portal_response never = no_response

abbrev pub Requested : Type 0
Requested = Outcome × PortalSession × List PortalCall

abbrev pub after_calls : List PortalCall → Requested → Requested
after_calls calls (outcome, s, rest) = (outcome, s, calls ++ rest)

duplicate : Option ℕ → PortalSession → Requested
duplicate none s = (fails, record s { pw_fd = none }, [])
duplicate (some fd) s = (succeeds, record s { pw_fd = some fd }, dups fd ∷ [])

pub open_remote : Answers → PortalSession → Requested
unfolding duplicate
open_remote a s =
    after_calls (open_pipe_wire_remote s.session_handle ∷ [])
      (elim a.remote as (λ _. Requested) [ none ↦ (fails, s, []) | some fd ↦ duplicate a.dup_fd s ])

pub read_streams : Option Variant → Answers → PortalSession → Requested
unfolding open_remote
read_streams none a s = (fails, s, [])
read_streams (some (streams_value [])) a s = (fails, s, [])
read_streams (some (streams_value (node ∷ nodes))) a s = open_remote a (record s { node_id = node })
read_streams (some (text_value t)) a s = (throws, s, [])
read_streams (some other_value) a s = (throws, s, [])

pub start_answered : Awaited → Answers → PortalSession → Requested
unfolding read_streams
start_answered no_response a s = (hangs, s, [])
start_answered refused a s = (fails, s, [])
start_answered (responds results) a s = read_streams (results (codes "streams")) a s

pub request_start : Bool → ℕ → Answers → PortalSession → Requested
unfolding start_answered await_portal_response unique_name_to_sender make_token request_path
request_start starts n a s =
    let token = make_token (codes "start") n in
    after_calls (start s.session_handle token ∷ []) (
      if starts
      then after_calls (awaits (request_path (unique_name_to_sender a.unique_name) token) ∷ [])
          (start_answered (await_portal_response a.start_response) a s)
      else (fails, s, []))

pub select_answered : Awaited → ℕ → Answers → PortalSession → Requested
unfolding request_start
select_answered no_response n a s = (hangs, s, [])
select_answered refused n a s = (fails, s, [])
select_answered (responds results) n a s = request_start a.starts n a s

pub request_select : Bool → ℕ → Answers → PortalSession → Requested
unfolding select_answered
request_select selects n a s =
    let token = make_token (codes "select") n in
    after_calls (select_sources s.session_handle token ∷ []) (
      if selects
      then after_calls (awaits (request_path (unique_name_to_sender a.unique_name) token) ∷ [])
          (select_answered (await_portal_response a.select_response) (n + 1) a s)
      else (fails, s, []))

pub read_handle : Option Variant → ℕ → Answers → PortalSession → Requested
unfolding request_select
read_handle none n a s = (fails, s, [])
read_handle (some (text_value handle)) n a s =
    request_select a.selects n a (record s { session_handle = handle })
read_handle (some (streams_value nodes)) n a s = (throws, s, [])
read_handle (some other_value) n a s = (throws, s, [])

pub create_answered : Awaited → ℕ → Answers → PortalSession → Requested
unfolding read_handle
create_answered no_response n a s = (hangs, s, [])
create_answered refused n a s = (fails, s, [])
create_answered (responds results) n a s = read_handle (results (codes "session_handle")) n a s

-- With `n` tokens made before.
pub request_screen_cast : ℕ → Answers → PortalSession → Requested
unfolding create_answered
request_screen_cast n a s =
    let token = make_token (codes "create") n in
    after_calls (create_session token (make_token (codes "session") (n + 1)) ∷ []) (
      if a.creates
      then after_calls (awaits (request_path (unique_name_to_sender a.unique_name) token) ∷ [])
          (create_answered (await_portal_response a.create_response) (n + 2) a s)
      else (fails, s, []))

close_handle : Text → List PortalCall
close_handle [] = []
close_handle (c ∷ handle) = close_session (c ∷ handle) ∷ []

close_pw_fd : Option ℕ → List PortalCall
close_pw_fd none = []
close_pw_fd (some fd) = close_fd fd ∷ []

-- The destructor.
pub destroy : PortalSession → PortalSession × List PortalCall
unfolding close_handle close_pw_fd
destroy s = (record s { pw_fd = none }, close_handle s.session_handle ++ close_pw_fd s.pw_fd)

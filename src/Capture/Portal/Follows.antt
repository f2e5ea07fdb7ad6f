-- ===== src/Capture/Portal/Follows.antt =====
-- The parts of a request, from the last to the selection of the sources.
use smooth_demon.Prelude.{
  ℕ, ◌+◌, ◌≡◌, refl, sym, ap, ◌∙◌, Bool, true, false, ◌&&◌, List, [], ◌∷◌, ◌++◌, Option, none, some,
  Bool-cases, inl, inr, ◌==◌,
}
use smooth_demon.Text.{Text, codes}
use smooth_demon.Capture.Portal.{
  unique_name_to_sender, make_token, request_path, Variant, text_value, streams_value, other_value,
  Results, Arrival, early, late, never, Answers, PortalSession, PortalCall, select_sources, start,
  open_pipe_wire_remote, awaits, Outcome, succeeds, fails, hangs, throws, Awaited, responds,
  refused, no_response, await_portal_response, Requested, after_calls, duplicate, open_remote,
  read_streams, start_answered, request_start, select_answered, request_select,
}
use smooth_demon.Capture.Portal.Protocol.{
  dup_calls, remote_calls, start_calls, select_calls, is_success, is_some, answer_of, first_of,
  node_of,
}

-- A part of the request: its calls begin those of the protocol, it succeeds exactly if it should,
-- and then makes all the calls, and has the node and the descriptor.
pub record Follows (r : Requested) (s : PortalSession) (a : Answers) (all : List PortalCall)
    (ok : Bool) : Type 0 where
  pub rest : List PortalCall
  pub calls : r.2 ++ rest ≡ all
  pub outcome : is_success r.0 ≡ ok
  pub complete : r.0 ≡ succeeds → rest ≡ []
  pub handle : r.1.session_handle ≡ s.session_handle
  pub gives : r.0 ≡ succeeds → (node_of a ≡ some r.1.node_id) × (r.1.pw_fd ≡ a.dup_fd)

pub no_success : {A : Type 0} (o : Outcome) → is_success o ≡ false → o ≡ succeeds → A
no_success o bad good = let e : true ≡ false = rw good at bad in cc

-- An end without success.
ends :
    (o : Outcome) (s t : PortalSession) (a : Answers) (all : List PortalCall)
    → is_success o ≡ false
    → t.session_handle ≡ s.session_handle
    → Follows (o, t, []) s a all false
ends o s t a all bad same = record {
  rest = all;
  calls = refl;
  outcome = bad;
  complete = no_success o bad;
  handle = same;
  gives = no_success o bad;
}

-- A call before a part.
calls_first :
    (call : PortalCall) (r : Requested) (s : PortalSession) (a : Answers) (all : List PortalCall)
    (ok : Bool)
    → Follows r s a all ok
    → Follows (after_calls (call ∷ []) r) s a (call ∷ all) ok
calls_first call (o, t, calls) s a all ok f = record {
  rest = f.rest;
  calls = ap (λ cs. call ∷ cs) f.calls;
  outcome = f.outcome;
  complete = f.complete;
  handle = f.handle;
  gives = f.gives;
}

-- A part from a session with the same handle.
from_same :
    (r : Requested) (t s : PortalSession) (a : Answers) (all : List PortalCall) (ok : Bool)
    → t.session_handle ≡ s.session_handle
    → Follows r t a all ok
    → Follows r s a all ok
from_same r t s a all ok same f = record {
  rest = f.rest;
  calls = f.calls;
  outcome = f.outcome;
  complete = f.complete;
  handle = f.handle ∙ same;
  gives = f.gives;
}

duplicate-Follows :
    (d : Option ℕ) (a : Answers) (s : PortalSession)
    → a.dup_fd ≡ d
    → node_of a ≡ some s.node_id
    → Follows (duplicate d s) s a (dup_calls d) (is_some d)
unfolding duplicate
duplicate-Follows none a s e node = ends fails s (record s { pw_fd = none }) a [] refl refl
duplicate-Follows (some fd) a s e node = record {
  rest = [];
  calls = refl;
  outcome = refl;
  complete = λ _. refl;
  handle = refl;
  gives = λ _. (node, sym e);
}

open_remote-Follows :
    (a : Answers) (s : PortalSession)
    → node_of a ≡ some s.node_id
    → Follows
        (open_remote a s)
        s
        a
        (remote_calls s.session_handle a.dup_fd)
        (is_some a.remote && is_some a.dup_fd)
unfolding open_remote
open_remote-Follows a s node =
    calls_first (open_pipe_wire_remote s.session_handle) _ s a (dup_calls a.dup_fd) _
      (by_remote a.remote)
  where
    by_remote :
        (remote : Option ℕ)
        → Follows
            (elim remote as (λ _. Requested) [
              | none ↦ (fails, s, [])
              | some fd ↦ duplicate a.dup_fd s
            ])
            s
            a
            (dup_calls a.dup_fd)
            (is_some remote && is_some a.dup_fd)
    by_remote none = ends fails s s a (dup_calls a.dup_fd) refl refl
    by_remote (some fd) = duplicate-Follows a.dup_fd a s refl node

read_streams-Follows :
    (v : Option Variant) (a : Answers) (s : PortalSession)
    → node_of a ≡ first_of v
    → Follows
        (read_streams v a s)
        s
        a
        (remote_calls s.session_handle a.dup_fd)
        (is_some (first_of v) && (is_some a.remote && is_some a.dup_fd))
unfolding read_streams
read_streams-Follows none a s e = ends fails s s a _ refl refl
read_streams-Follows (some (streams_value [])) a s e = ends fails s s a _ refl refl
read_streams-Follows (some (streams_value (node ∷ nodes))) a s e =
    from_same _ (record s { node_id = node }) s a _ _ refl
      (open_remote-Follows a (record s { node_id = node }) e)
read_streams-Follows (some (text_value t)) a s e = ends throws s s a _ refl refl
read_streams-Follows (some other_value) a s e = ends throws s s a _ refl refl

abbrev pub results_of : Awaited → Option Results
results_of (responds results) = some results
results_of refused = none
results_of no_response = none

pub await_portal_response_lem : (x : Arrival) → results_of (await_portal_response x) ≡ answer_of x
unfolding await_portal_response
await_portal_response_lem (early code results) = refl
await_portal_response_lem (late code results) = elim (Bool-cases (code == 0)) [
  | inl zero_code ↦ rw zero_code refl
  | inr other_code ↦ rw other_code refl
]
await_portal_response_lem never = refl

start_answered-Follows :
    (w : Awaited) (a : Answers) (s : PortalSession)
    → results_of w ≡ answer_of a.start_response
    → Follows
        (start_answered w a s)
        s
        a
        (remote_calls s.session_handle a.dup_fd)
        (is_some (node_of a) && (is_some a.remote && is_some a.dup_fd))
unfolding start_answered node_of
start_answered-Follows no_response a s e = rw (← e) (ends hangs s s a _ refl refl)
start_answered-Follows refused a s e = rw (← e) (ends fails s s a _ refl refl)
start_answered-Follows (responds results) a s e =
    rw (← e) (read_streams-Follows (results (codes "streams")) a s (rw (← e) refl))

unfoldable pub sender_of : Answers → Text
sender_of a = unique_name_to_sender a.unique_name

request_start-Follows :
    (starts : Bool) (n : ℕ) (a : Answers) (s : PortalSession)
    → Follows
        (request_start starts n a s)
        s
        a
        (start_calls (sender_of a) s.session_handle n a.dup_fd)
        (starts && (is_some (node_of a) && (is_some a.remote && is_some a.dup_fd)))
unfolding request_start sender_of
request_start-Follows false n a s =
    calls_first (start s.session_handle (make_token (codes "start") n)) (fails, s, []) s a _ _
      (ends fails s s a _ refl refl)
request_start-Follows true n a s =
    calls_first (start s.session_handle (make_token (codes "start") n)) _ s a _ _ (
      calls_first (awaits (request_path (sender_of a) (make_token (codes "start") n))) _ s a _ _ (
        start_answered-Follows (await_portal_response a.start_response) a s
          (await_portal_response_lem a.start_response)))

select_answered-Follows :
    (w : Awaited) (n : ℕ) (a : Answers) (s : PortalSession)
    → results_of w ≡ answer_of a.select_response
    → Follows
        (select_answered w n a s)
        s
        a
        (start_calls (sender_of a) s.session_handle n a.dup_fd)
        (is_some (answer_of a.select_response)
          && (a.starts && (is_some (node_of a) && (is_some a.remote && is_some a.dup_fd))))
unfolding select_answered
select_answered-Follows no_response n a s e = rw (← e) (ends hangs s s a _ refl refl)
select_answered-Follows refused n a s e = rw (← e) (ends fails s s a _ refl refl)
select_answered-Follows (responds results) n a s e = rw (← e) (request_start-Follows a.starts n a s)

pub request_select-Follows :
    (selects : Bool) (n : ℕ) (a : Answers) (s : PortalSession)
    → Follows
        (request_select selects n a s)
        s
        a
        (select_calls (sender_of a) s.session_handle n a.dup_fd)
        (selects
          && (is_some (answer_of a.select_response)
              && (a.starts && (is_some (node_of a) && (is_some a.remote && is_some a.dup_fd)))))
unfolding request_select sender_of
request_select-Follows false n a s =
    calls_first (select_sources s.session_handle (make_token (codes "select") n)) (fails, s, []) s a
      _ _ (ends fails s s a _ refl refl)
request_select-Follows true n a s =
    calls_first (select_sources s.session_handle (make_token (codes "select") n)) _ s a _ _ (
      calls_first (awaits (request_path (sender_of a) (make_token (codes "select") n))) _ s a _ _ (
        select_answered-Follows (await_portal_response a.select_response) (n + 1) a s
          (await_portal_response_lem a.select_response)))

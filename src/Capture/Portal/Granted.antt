-- ===== src/Capture/Portal/Granted.antt =====
-- A whole request, from the creation of the session.
use mathlib.Core.List.{append-nil}
use smooth_demon.Prelude.{
  ℕ, ◌+◌, ◌≡◌, refl, sym, ap, ◌∙◌, Bool, true, false, ◌&&◌, List, [], ◌∷◌, ◌++◌, Option, none, some,
  if◌then◌else◌,
}
use smooth_demon.Text.{Text, codes}
use smooth_demon.Capture.Portal.{
  unique_name_to_sender, make_token, request_path, Variant, text_value, streams_value, other_value,
  Answers, PortalSession, PortalCall, create_session, awaits, Outcome, succeeds, fails, hangs,
  throws, Awaited, responds, refused, no_response, await_portal_response, Requested, after_calls,
  read_handle, create_answered, request_screen_cast,
}
use smooth_demon.Capture.Portal.Protocol.{
  select_calls, is_success, is_some, answer_of, text_of, handle_of, node_of, protocol, grants,
}
use smooth_demon.Capture.Portal.Follows.{
  Follows, no_success, sender_of, request_select-Follows, results_of, await_portal_response_lem,
}

-- As `Follows`, for the handle that the session ends with.
record Begins (r : Requested) (a : Answers) (all : Text → List PortalCall) (ok : Bool)
    : Type 0 where
  rest : List PortalCall
  calls : r.2 ++ rest ≡ all r.1.session_handle
  outcome : is_success r.0 ≡ ok
  complete : r.0 ≡ succeeds → rest ≡ []
  gives :
      r.0 ≡ succeeds
      → (handle_of a ≡ some r.1.session_handle)
        × (node_of a ≡ some r.1.node_id)
        × (r.1.pw_fd ≡ a.dup_fd)

ends :
    (o : Outcome) (s : PortalSession) (a : Answers) (all : Text → List PortalCall)
    → is_success o ≡ false
    → Begins (o, s, []) a all false
ends o s a all bad = record {
  rest = all s.session_handle;
  calls = refl;
  outcome = bad;
  complete = no_success o bad;
  gives = no_success o bad;
}

calls_first :
    (call : PortalCall) (r : Requested) (a : Answers) (all : Text → List PortalCall) (ok : Bool)
    → Begins r a all ok
    → Begins (after_calls (call ∷ []) r) a (λ handle. call ∷ all handle) ok
calls_first call (o, t, calls) a all ok f = record {
  rest = f.rest;
  calls = ap (λ cs. call ∷ cs) f.calls;
  outcome = f.outcome;
  complete = f.complete;
  gives = f.gives;
}

with_handle :
    (r : Requested) (s : PortalSession) (a : Answers) (all : Text → List PortalCall) (ok : Bool)
    → handle_of a ≡ some s.session_handle
    → Follows r s a (all s.session_handle) ok
    → Begins r a all ok
with_handle r s a all ok e f = record {
  rest = f.rest;
  calls = f.calls ∙ ap all (sym f.handle);
  outcome = f.outcome;
  complete = f.complete;
  gives = λ good. let (node, fd) = f.gives good in (e ∙ ap some (sym f.handle), node, fd);
}

abbrev rest_granted : Answers → Bool
rest_granted a =
    a.selects
    && (is_some (answer_of a.select_response)
        && (a.starts && (is_some (node_of a) && (is_some a.remote && is_some a.dup_fd))))

read_handle-Begins :
    (v : Option Variant) (n : ℕ) (a : Answers) (s : PortalSession)
    → handle_of a ≡ text_of v
    → Begins
        (read_handle v n a s)
        a
        (λ handle. select_calls (sender_of a) handle n a.dup_fd)
        (is_some (text_of v) && rest_granted a)
unfolding read_handle
read_handle-Begins none n a s e = ends fails s a _ refl
read_handle-Begins (some (text_value handle)) n a s e =
    with_handle _ (record s { session_handle = handle }) a _ _ e
      (request_select-Follows a.selects n a (record s { session_handle = handle }))
read_handle-Begins (some (streams_value nodes)) n a s e = ends throws s a _ refl
read_handle-Begins (some other_value) n a s e = ends throws s a _ refl

create_answered-Begins :
    (w : Awaited) (n : ℕ) (a : Answers) (s : PortalSession)
    → results_of w ≡ answer_of a.create_response
    → Begins
        (create_answered w n a s)
        a
        (λ handle. select_calls (sender_of a) handle n a.dup_fd)
        (is_some (handle_of a) && rest_granted a)
unfolding create_answered handle_of
create_answered-Begins no_response n a s e = rw (← e) (ends hangs s a _ refl)
create_answered-Begins refused n a s e = rw (← e) (ends fails s a _ refl)
create_answered-Begins (responds results) n a s e =
    rw (← e) (read_handle-Begins (results (codes "session_handle")) n a s (rw (← e) refl))

request_screen_cast-Begins :
    (n : ℕ) (a : Answers) (s : PortalSession)
    → Begins
        (request_screen_cast n a s)
        a
        (λ handle. protocol (sender_of a) handle n a.dup_fd)
        (grants a)
unfolding request_screen_cast sender_of protocol grants
request_screen_cast-Begins n a s = calls_first (create_session _ _) _ a _ _ (by_create a.creates)
  where
    token : Text
    token = make_token (codes "create") n

    by_create :
        (creates : Bool)
        → Begins
            (if creates
              then after_calls
                  (awaits (request_path (unique_name_to_sender a.unique_name) token) ∷ [])
                  (create_answered (await_portal_response a.create_response) (n + 2) a s)
              else (fails, s, []))
            a
            (λ handle.
              awaits (request_path (sender_of a) token)
              ∷ select_calls (sender_of a) handle (n + 2) a.dup_fd)
            (creates && (is_some (handle_of a) && rest_granted a))
    by_create false = ends fails s a _ refl
    by_create true = calls_first (awaits (request_path (sender_of a) token)) _ a _ _ (
        create_answered-Begins (await_portal_response a.create_response) (n + 2) a s
          (await_portal_response_lem a.create_response))

-- A request makes a first part of the protocol's calls, in their order and with the handle that the
-- session ends with, whatever the portal answers. It succeeds exactly if every method succeeds, every
-- response comes behind its handler with code 0 and the value that is read, and `dup` succeeds; then
-- it has made all the calls, and the session has the handle, the first node and the descriptor that
-- were given.
pub request_screen_cast-protocol :
    (n : ℕ) (a : Answers) (s : PortalSession)
    → let (outcome, s', calls) = request_screen_cast n a s in
      let all = protocol (unique_name_to_sender a.unique_name) s'.session_handle n a.dup_fd in
      ((rest : List PortalCall) × (calls ++ rest ≡ all))
      × (is_success outcome ≡ grants a)
      × (outcome ≡ succeeds
          → (calls ≡ all)
            × (handle_of a ≡ some s'.session_handle)
            × (node_of a ≡ some s'.node_id)
            × (a.dup_fd ≡ s'.pw_fd))
unfolding sender_of
request_screen_cast-protocol n a s =
    let (outcome, s', calls) = request_screen_cast n a s in
    let b = request_screen_cast-Begins n a s in
    (
      (b.rest, b.calls),
      b.outcome,
      λ good.
          let (handle, node, fd) = b.gives good in
          (
            sym (append-nil calls) ∙ ap (λ cs. calls ++ cs) (sym (b.complete good)) ∙ b.calls,
            handle,
            node,
            sym fd,
          ),
    )

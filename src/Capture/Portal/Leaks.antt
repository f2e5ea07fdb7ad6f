-- ===== src/Capture/Portal/Leaks.antt =====
-- The descriptors of a session that is asked for a screen cast more than once.
use mathlib.Core.List.{append-nil, append_assoc}
use smooth_demon.Prelude.{
  suc, ℕ, ◌+◌, ◌≡◌, refl, sym, ap, ◌∙◌, true, false, List, [], ◌∷◌, ◌++◌, Option, none, some,
  length, arith, All, Option-cases, inl, inr,
}
use smooth_demon.Text.{Text}
use smooth_demon.Capture.Portal.{
  unique_name_to_sender, Answers, PortalSession, PortalCall, dups, close_fd, request_screen_cast,
  close_handle, close_pw_fd, destroy, succeeds, Outcome,
}
use smooth_demon.Capture.Portal.Protocol.{protocol, is_success, is_some, grants}
use smooth_demon.Capture.Portal.Granted.{request_screen_cast-protocol}

-- One request after the other, each with the number of tokens made before it.
unfoldable pub requests : List (ℕ × Answers) → PortalSession → PortalSession × List PortalCall
requests [] s = (s, [])
requests (r ∷ rs) s =
    let (outcome, s', calls) = request_screen_cast r.0 r.1 s in
    let (end, rest) = requests rs s' in (end, calls ++ rest)

-- The descriptor that a call opens.
abbrev pub opens : PortalCall → List ℕ
opens (dups fd) = fd ∷ []
opens _ = []

-- The descriptor that a call closes.
abbrev pub closes : PortalCall → List ℕ
closes (close_fd fd) = fd ∷ []
closes _ = []

-- The descriptors of all calls, in order.
unfoldable pub fds_of : (PortalCall → List ℕ) → List PortalCall → List ℕ
fds_of f [] = []
fds_of f (c ∷ cs) = f c ++ fds_of f cs

fds_of-append :
    (f : PortalCall → List ℕ) (cs ds : List PortalCall)
    → fds_of f (cs ++ ds) ≡ fds_of f cs ++ fds_of f ds
unfolding fds_of
fds_of-append f [] ds = refl
fds_of-append f (c ∷ cs) ds =
    ap (λ (xs : List ℕ). f c ++ xs) (fds_of-append f cs ds)
    ∙ sym (append_assoc (f c) (fds_of f cs) (fds_of f ds))

-- The descriptor that a copy gives.
abbrev pub given : Option ℕ → List ℕ
given none = []
given (some fd) = fd ∷ []

-- The descriptors that `dup` gives to the requests, in order.
unfoldable pub copies : List (ℕ × Answers) → List ℕ
copies [] = []
copies (r ∷ rs) = given (r.1).dup_fd ++ copies rs

-- The one that `dup` gives to the last request.
unfoldable pub last_copy : ℕ × Answers → List (ℕ × Answers) → Option ℕ
last_copy r [] = (r.1).dup_fd
last_copy r (q ∷ rs) = last_copy q rs

abbrev Granted : ℕ × Answers → Type 0
Granted (n, a) = grants a ≡ true

protocol-fds :
    (sender handle : Text) (n fd : ℕ)
    → (fds_of opens (protocol sender handle n (some fd)) ≡ fd ∷ [])
      × (fds_of closes (protocol sender handle n (some fd)) ≡ [])
unfolding fds_of protocol
protocol-fds sender handle n fd = (refl, refl)

succeeded : (o : Outcome) → is_success o ≡ true → o ≡ succeeds
succeeded succeeds e = refl
succeeded Outcome.fails e = cc
succeeded Outcome.hangs e = cc
succeeded Outcome.throws e = cc

granted_copy : (a : Answers) → grants a ≡ true → (fd : ℕ) × (a.dup_fd ≡ some fd)
unfolding grants
granted_copy a g = elim (Option-cases a.dup_fd) [
  | inl without ↦ absurd (no_copy a.dup_fd (ground (arith, g)) without)
  | inr found ↦ found
]
  where
    no_copy : (o : Option ℕ) → is_some o ≡ true → o ≡ none → ⊥
    no_copy none some_fd e = let x : false ≡ true = some_fd in cc
    no_copy (some fd) some_fd e = cc

-- A request that is granted opens the copied descriptor, which the session has then, and closes none.
granted_fds :
    (n : ℕ) (a : Answers) (s : PortalSession)
    → grants a ≡ true
    → let (outcome, s', calls) = request_screen_cast n a s in
      (fds_of opens calls ≡ given a.dup_fd) × (fds_of closes calls ≡ []) × (s'.pw_fd ≡ a.dup_fd)
granted_fds n a s g =
    let (outcome, s', calls) = request_screen_cast n a s in
    let (first, success, result) = request_screen_cast-protocol n a s in
    let (all, handle, node, copied) = result (succeeded outcome (success ∙ g)) in
    let (fd, e) = granted_copy a g in
    let path = λ (copy : Option ℕ).
      protocol (unique_name_to_sender a.unique_name) s'.session_handle n copy in
    let (one, zero) = protocol-fds (unique_name_to_sender a.unique_name) s'.session_handle n fd in
    (
      ap (fds_of opens) (all ∙ ap path e) ∙ one ∙ ap given (sym e),
      ap (fds_of closes) (all ∙ ap path e) ∙ zero,
      sym copied,
    )

requests-fds :
    (rs : List (ℕ × Answers)) (s : PortalSession)
    → All Granted rs
    → (fds_of opens (requests rs s).1 ≡ copies rs) × (fds_of closes (requests rs s).1 ≡ [])
unfolding requests fds_of copies
requests-fds [] s all = (refl, refl)
requests-fds (r ∷ rs) s (g, all) =
    let (outcome, s', calls) = request_screen_cast r.0 r.1 s in
    let (one, zero, copy) = granted_fds r.0 r.1 s g in
    let (opened, closed) = requests-fds rs s' all in
    let rest = (requests rs s').1 in
    (
      fds_of-append opens calls rest
          ∙ ap (λ (xs : List ℕ). xs ++ fds_of opens rest) one
          ∙ ap (λ (xs : List ℕ). given (r.1).dup_fd ++ xs) opened,
      fds_of-append closes calls rest
          ∙ ap (λ (xs : List ℕ). xs ++ fds_of closes rest) zero
          ∙ closed,
    )

requests-last :
    (r : ℕ × Answers) (rs : List (ℕ × Answers)) (s : PortalSession)
    → All Granted (r ∷ rs)
    → (requests (r ∷ rs) s).0.pw_fd ≡ last_copy r rs
unfolding requests last_copy
requests-last r [] s (g, all) = (granted_fds r.0 r.1 s g).2
requests-last r (q ∷ rs) s (g, all) = requests-last q rs (request_screen_cast r.0 r.1 s).1 all

length-copies : (rs : List (ℕ × Answers)) → All Granted rs → length (copies rs) ≡ length rs
unfolding copies
length-copies [] all = refl
length-copies (r ∷ rs) (g, all) =
    let (fd, e) = granted_copy r.1 g in
    ap (λ (o : Option ℕ). length (given o ++ copies rs)) e ∙ ap suc (length-copies rs all)

close_handle-fds :
    (handle : Text)
    → (fds_of opens (close_handle handle) ≡ []) × (fds_of closes (close_handle handle) ≡ [])
unfolding close_handle fds_of
close_handle-fds [] = (refl, refl)
close_handle-fds (c ∷ handle) = (refl, refl)

close_pw_fd-fds :
    (fd : Option ℕ)
    → (fds_of opens (close_pw_fd fd) ≡ []) × (fds_of closes (close_pw_fd fd) ≡ given fd)
unfolding close_pw_fd fds_of
close_pw_fd-fds none = (refl, refl)
close_pw_fd-fds (some fd) = (refl, refl)

destroy-fds :
    (s : PortalSession)
    → (fds_of opens (destroy s).1 ≡ []) × (fds_of closes (destroy s).1 ≡ given s.pw_fd)
unfolding destroy
destroy-fds s =
    let calls = close_handle s.session_handle in
    let last = close_pw_fd s.pw_fd in
    let (none_opened, none_closed) = close_handle-fds s.session_handle in
    let (no_more, one) = close_pw_fd-fds s.pw_fd in
    (
      fds_of-append opens calls last
          ∙ ap (λ (xs : List ℕ). xs ++ fds_of opens last) none_opened
          ∙ no_more,
      fds_of-append closes calls last
          ∙ ap (λ (xs : List ℕ). xs ++ fds_of closes last) none_closed
          ∙ one,
    )

-- However many requests of a session are granted, they open the copies that `dup` gives, one each and
-- in order, and the destructor then closes one descriptor, the copy that the last request was given;
-- no call closes any of the others.
pub requests_leak :
    (first : ℕ × Answers) (more : List (ℕ × Answers)) (s : PortalSession)
    → All Granted (first ∷ more)
    → let (end, calls) = requests (first ∷ more) s in
      let all = calls ++ (destroy end).1 in
      (fds_of opens all ≡ copies (first ∷ more))
      × (fds_of closes all ≡ given (last_copy first more))
      × (fds_of closes calls ≡ [])
      × (length (copies (first ∷ more)) ≡ length more + 1)
requests_leak first more s granted =
    let (end, calls) = requests (first ∷ more) s in
    let (opened, closed) = requests-fds (first ∷ more) s granted in
    let (none_opened, one_closed) = destroy-fds end in
    let last = (destroy end).1 in
    (
      fds_of-append opens calls last
          ∙ ap (λ (xs : List ℕ). fds_of opens calls ++ xs) none_opened
          ∙ append-nil (fds_of opens calls)
          ∙ opened,
      fds_of-append closes calls last
          ∙ ap (λ (xs : List ℕ). xs ++ fds_of closes last) closed
          ∙ one_closed
          ∙ ap given (requests-last first more s granted),
      closed,
      omega (arith, length-copies (first ∷ more) granted),
    )

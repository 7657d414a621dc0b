-- ===== src/TcpMessager/Master/Accepting.antt =====
-- `start` of TCPMasterMessager in src/tcp_messager.cc: the calls of the acceptor, up to `do_accept`.
use group_share_filesystem.Base.{◌≡◌, refl, not, ◌||◌, Bool, true, false, List, [], ◌∷◌, ◌++◌}

pub data AcceptorCall : Type 0 where
  opens sets_reuse_address binds listens : AcceptorCall

-- Which of the calls would report an error.
pub record AcceptorErrors : Type 0 where
  pub at_open : Bool
  pub at_option : Bool
  pub at_bind : Bool
  pub at_listen : Bool

-- `if (!ec)` and a call that sets `ec`; with the calls made before.
try_call : AcceptorCall → Bool → List AcceptorCall × Bool → List AcceptorCall × Bool
try_call call fails (made, true) = (made, true)
try_call call fails (made, false) = (made ++ call ∷ [], fails)

-- The calls made, and whether `do_accept` is reached.
unfoldable pub start_accepting : AcceptorErrors → List AcceptorCall × Bool
unfolding try_call
start_accepting errors =
    let opened : List AcceptorCall × Bool = (opens ∷ [], errors.at_open) in
    let reused = try_call sets_reuse_address errors.at_option opened in
    let bound = try_call binds errors.at_bind reused in
    let (made, ec) = try_call listens errors.at_listen bound in (made, not ec)

abbrev pub any_error : AcceptorErrors → Bool
any_error errors = errors.at_open || errors.at_option || errors.at_bind || errors.at_listen

accepting_unless :
    (a b c d : Bool)
    → (start_accepting (record { at_open = a; at_option = b; at_bind = c; at_listen = d })).1
      ≡ not (a || b || c || d)
unfolding start_accepting
accepting_unless true b c d = refl
accepting_unless false true c d = refl
accepting_unless false false true d = refl
accepting_unless false false false d = refl

pub start_accepting-any_error :
    (errors : AcceptorErrors) → (start_accepting errors).1 ≡ not (any_error errors)
start_accepting-any_error errors =
    accepting_unless errors.at_open errors.at_option errors.at_bind errors.at_listen

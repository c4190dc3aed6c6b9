-- ===== src/Remote/Winsock.antt =====
-- App/remote/RemoteClient_win.cpp: the sockets of RemoteClient on Windows, and Winsock itself.
-- The results of socket, send, select and recv are passed in; SOCKET_ERROR and INVALID_SOCKET are
-- `none`, every other result is a number of octets, of sockets, or a socket.
use cwkeyer.Base.{
  ℕ, zero, suc, ◌+◌, ◌≡◌, refl, Bool, true, false, not, List, [], ◌∷◌, ◌++◌, Option, none, some,
  arith, length, take, drop, if◌then◌else◌, ltb, inl, inr, Option-cases,
}
use cwkeyer.Base.Int.{ℤ, pos, negsuc, ltb_ℤ}
use cwkeyer.Remote.Socket.{send_rest, send_raw, recv_raw, open_connection, Opening, is_zero}

-- m_wsaStarted, with the calls of WSAStartup that succeeded and the calls of WSACleanup.
pub record Winsock : Type 0 where
  pub wsa_started : Bool
  pub startups : ℕ
  pub cleanups : ℕ

-- platformInit; `started` says whether WSAStartup succeeds.
unfoldable pub platform_init : Bool → Winsock → Winsock × Bool
platform_init started w =
    if w.wsa_started
    then (w, true)
    else if not started
    then (w, false)
    else (record w { wsa_started = true; startups = suc w.startups }, true)

-- platformCleanup
unfoldable pub platform_cleanup : Winsock → Winsock
platform_cleanup w =
    if w.wsa_started then record w { wsa_started = false; cleanups = suc w.cleanups } else w

-- openConnection
unfoldable pub open_connection_win : Option ℕ → ℤ → ℤ → Opening
open_connection_win none pton connect = record { kept = none; closed = none }
open_connection_win (some sock) pton connect =
    if not (ltb_ℤ (pos 0) pton)
    then record { kept = none; closed = some (pos sock) }
    else if not (is_zero connect)
    then record { kept = none; closed = some (pos sock) }
    else record { kept = some (pos sock); closed = none }

-- closeConnection: what is left of m_socketFd, and the socket that it closes.
unfoldable pub close_connection_win : Option ℕ → Option ℕ × Option ℕ
close_connection_win fd = (none, fd)

-- The loop of sendRaw, on fuel, with the octets that have gone out.
unfoldable pub send_rest_win :
    (ℕ → List ℕ → Option ℕ) → ℕ → ℕ → List ℕ → List ℕ → Option (Bool × List ℕ)
send_rest_win send fuel call [] gone = some (true, gone)
send_rest_win send zero call (b ∷ bs) gone = none
send_rest_win send (suc fuel) call (b ∷ bs) gone = elim (send call (b ∷ bs)) [
  | none ↦ some (false, gone)
  | some n ↦
      let more = send_rest_win send fuel (suc call) (drop n (b ∷ bs)) (gone ++ take n (b ∷ bs)) in
      if ltb 0 n then more else some (false, gone)
]

unfoldable pub send_raw_win : (ℕ → List ℕ → Option ℕ) → Bool → List ℕ → Option (Bool × List ℕ)
unfolding send_rest_win
send_raw_win send is_connected bytes =
    if is_connected then send_rest_win send (length bytes) 0 bytes [] else some (false, [])

-- The result of a call of recv, as recvRaw gives it on.
unfoldable pub result_of : Option ℕ → ℤ
result_of none = negsuc 0
result_of (some n) = pos n

-- recvRaw behind the wait
unfoldable pub after_select : Option ℕ → Option ℕ → ℤ
unfolding result_of
after_select none received = negsuc 0
after_select (some zero) received = pos 0
after_select (some (suc n)) received = result_of received

unfoldable pub recv_raw_win : Bool → ℤ → Option ℕ → Option ℕ → ℤ
unfolding after_select result_of
recv_raw_win is_connected timeout_ms ready received =
    if not is_connected
    then negsuc 0
    else if ltb_ℤ timeout_ms (pos 0)
    then result_of received
    else after_select ready received

-- The platformInit and platformCleanup calls.
pub data Call : Type 0 where
  inits : Bool → Call
  cleans : Call

unfoldable pub calls : List Call → Winsock → Winsock
unfolding platform_init platform_cleanup
calls [] w = w
calls (inits started ∷ cs) w = calls cs (platform_init started w).0
calls (cleans ∷ cs) w = calls cs (platform_cleanup w)

-- Every start of Winsock is undone once, but for the one that is in force.
abbrev pub IsBalanced : Winsock → Type 0
IsBalanced w = w.startups ≡ w.cleanups + (if w.wsa_started then 1 else 0)

calls-IsBalanced : (cs : List Call) (w : Winsock) → IsBalanced w → IsBalanced (calls cs w)
unfolding calls platform_init platform_cleanup
calls-IsBalanced [] w h = h
calls-IsBalanced (inits started ∷ cs) w h =
    calls-IsBalanced cs (platform_init started w).0 (ground arith)
calls-IsBalanced (cleans ∷ cs) w h = calls-IsBalanced cs (platform_cleanup w) (ground arith)

send_rest_win-same :
    (send : ℕ → List ℕ → Option ℕ) (fuel call : ℕ) (bs gone : List ℕ)
    → send_rest_win send fuel call bs gone
      ≡ send_rest (λ n bytes. result_of (send n bytes)) fuel call bs gone
unfolding send_rest_win send_rest result_of
send_rest_win-same send fuel call [] gone = ground arith
send_rest_win-same send zero call (b ∷ bs) gone = refl
send_rest_win-same send (suc fuel) call (b ∷ bs) gone = elim (Option-cases (send call (b ∷ bs))) [
  | inl e ↦ rw e (ground arith)
  | inr (n, e) ↦ rw e (
      let rest =
        send_rest_win-same send fuel (suc call) (drop n (b ∷ bs)) (gone ++ take n (b ∷ bs)) in
      ground arith)
]

-- As on Linux.
sockets_win-same :
    (send : ℕ → List ℕ → Option ℕ) (is_connected : Bool) (bytes : List ℕ) (timeout_ms : ℤ)
    (ready received sock : Option ℕ) (pton connect : ℤ)
    → (send_raw_win send is_connected bytes
        ≡ send_raw (λ n bytes. result_of (send n bytes)) is_connected bytes)
      × (recv_raw_win is_connected timeout_ms ready received
          ≡ recv_raw is_connected timeout_ms (result_of ready) (result_of received))
      × (open_connection_win sock pton connect ≡ open_connection (result_of sock) pton connect)
unfolding send_raw_win send_raw recv_raw_win recv_raw after_select result_of open_connection_win
    open_connection
sockets_win-same send is_connected bytes timeout_ms ready received sock pton connect =
    (ground (arith, send_rest_win-same send (length bytes) 0 bytes []), ground arith, ground arith)

-- ===== src/Remote/Handshake.antt =====
-- RemoteClient::performWebSocketHandshake and isWebSocketUpgradeResponse
-- (App/remote/RemoteClient.cpp).
-- The answer of the server is the list of the chunks that recvRaw returns: an empty chunk, and the
-- end of the list, is a result that is not positive.
pub mod Accepts
use cwkeyer.Base.{
  ℕ, ◌+◌, Bool, true, false, ◌||◌, ◌&&◌, List, [], ◌∷◌, ◌++◌, length, ltb, ◌==◌, if◌then◌else◌,
}
use cwkeyer.Base.Text.{codes}
use cwkeyer.Remote.Base64.{base64_encode}

-- headers.find(needle) == 0
unfoldable pub starts_with : List ℕ → List ℕ → Bool
starts_with [] s = true
starts_with (n ∷ ns) [] = false
starts_with (n ∷ ns) (c ∷ s) = n == c && starts_with ns s

-- headers.find(needle) != npos
unfoldable pub contains : List ℕ → List ℕ → Bool
contains needle [] = starts_with needle []
contains needle (c ∷ s) = starts_with needle (c ∷ s) || contains needle s

abbrev pub crlf : List ℕ
crlf = 13 ∷ 10 ∷ []

-- isWebSocketUpgradeResponse
unfoldable pub is_web_socket_upgrade_response : List ℕ → Bool
is_web_socket_upgrade_response headers =
    if starts_with (codes "HTTP/1.1 101") headers
    then contains (codes "Upgrade: websocket") headers
      || contains (codes "upgrade: websocket") headers
    else false

-- The text of the request, from the address, the decimal digits of the port and the random bytes.
unfoldable pub request : List ℕ → List ℕ → List ℕ → List ℕ
request server_ip port random_bytes =
    codes "GET / HTTP/1.1"
    ++ crlf
    ++ (codes "Host: " ++ server_ip ++ codes ":" ++ port ++ crlf)
    ++ (codes "Upgrade: websocket" ++ crlf)
    ++ (codes "Connection: Upgrade" ++ crlf)
    ++ (codes "Sec-WebSocket-Key: " ++ base64_encode random_bytes ++ crlf)
    ++ (codes "Sec-WebSocket-Version: 13" ++ crlf ++ crlf)

-- The loop that collects the response, until it holds an empty line.
unfoldable pub receive : List ℕ → List (List ℕ) → Bool
receive response [] =
    if contains (crlf ++ crlf) response then is_web_socket_upgrade_response response else false
receive response ([] ∷ chunks) =
    if contains (crlf ++ crlf) response then is_web_socket_upgrade_response response else false
receive response ((c ∷ cs) ∷ chunks) =
    let longer = response ++ c ∷ cs in
    let more = receive longer chunks in
    if contains (crlf ++ crlf) response
    then is_web_socket_upgrade_response response
    else if ltb 8192 (length longer)
    then false
    else more

-- performWebSocketHandshake; `sent` is the result of sendRaw on the request.
unfoldable pub perform_web_socket_handshake : Bool → List (List ℕ) → Bool
unfolding receive
perform_web_socket_handshake sent chunks = if sent then receive [] chunks else false

-- ===== src/Remote/Handshake/Accepts.antt =====
-- What a successful handshake (App/remote/RemoteClient.cpp) says of the server's answer.
use mathlib.Core.List.{append_assoc}
use cwkeyer.Base.{
  ℕ, ◌≤◌, ◌≡◌, refl, sym, ◌∙◌, ◌⊎◌, inl, inr, Bool, true, false, List, [], ◌∷◌, ◌++◌, arith, length,
  Bool-cases, if◌then◌else◌,
}
use cwkeyer.Base.Text.{codes}
use cwkeyer.Remote.Handshake.{
  starts_with, contains, crlf, is_web_socket_upgrade_response, receive,
  perform_web_socket_handshake,
}

abbrev pub concat : List (List ℕ) → List ℕ
concat [] = []
concat (c ∷ cs) = c ++ concat cs

-- A response is accepted: it is complete, of bounded length, reports status 101 and names the
-- upgrade.
pub record Accepted (response : List ℕ) : Type 0 where
  pub complete : contains (crlf ++ crlf) response ≡ true
  pub bounded : length response ≤ 8192
  pub status : starts_with (codes "HTTP/1.1 101") response ≡ true
  pub upgrade :
      (contains (codes "Upgrade: websocket") response ≡ true)
      ⊎ (contains (codes "upgrade: websocket") response ≡ true)

upgrade-Accepted :
    (response : List ℕ)
    → length response ≤ 8192
    → contains (crlf ++ crlf) response ≡ true
    → is_web_socket_upgrade_response response ≡ true
    → Accepted response
unfolding is_web_socket_upgrade_response
upgrade-Accepted response l c h = record {
  complete = c;
  bounded = l;
  status = ground arith;
  upgrade = ground arith;
}

-- The response that the loop stops with: the first one and a beginning of the chunks.
abbrev Received : List ℕ → Type 0
Received whole = (got : List ℕ) × (later : List ℕ) × (whole ≡ got ++ later) × Accepted got

-- One turn of the loop that stops here if the response is complete.
stop-Received :
    (response rest : List ℕ) (more : Bool)
    → length response ≤ 8192
    → (if contains (crlf ++ crlf) response then is_web_socket_upgrade_response response else more)
      ≡ true
    → (more ≡ true) ⊎ Received (response ++ rest)
stop-Received response rest more l h = elim (Bool-cases (contains (crlf ++ crlf) response)) [
  | inl e ↦ inr (response, rest, refl, upgrade-Accepted response l e (rw e at h))
  | inr e ↦ inl (rw e at h)
]

receive-Received :
    (response : List ℕ) (chunks : List (List ℕ))
    → length response ≤ 8192
    → receive response chunks ≡ true
    → Received (response ++ concat chunks)
unfolding receive
receive-Received response [] l h = elim (stop-Received response [] false l h) [
  | inl e ↦ absurd (cc)
  | inr r ↦ r
]
receive-Received response ([] ∷ chunks) l h =
    elim (stop-Received response (concat chunks) false l h) [ inl e ↦ absurd (cc) | inr r ↦ r ]
receive-Received response ((c ∷ cs) ∷ chunks) l h =
    elim (stop-Received response (concat ((c ∷ cs) ∷ chunks)) _ l h) [
      | inl e ↦
          let (got, later, q, a) =
            receive-Received (response ++ c ∷ cs) chunks (ground arith) (ground arith) in
          (got, later, sym (append_assoc response (c ∷ cs) (concat chunks)) ∙ q, a)
      | inr r ↦ r
    ]

-- A handshake succeeds only if the request was sent and the octets that the server sends begin with
-- a response of at most 8192 octets that has an empty line, starts with the status 101 and names
-- the upgrade to a web socket.
pub handshake-Accepted :
    (sent : Bool) (chunks : List (List ℕ))
    → perform_web_socket_handshake sent chunks ≡ true
    → (sent ≡ true)
      × (got : List ℕ) × (later : List ℕ) × (concat chunks ≡ got ++ later)
      × Accepted got
unfolding perform_web_socket_handshake
handshake-Accepted true chunks h =
    let (got, later, q, a) = receive-Received [] chunks (omega arith) h in (refl, got, later, q, a)
handshake-Accepted false chunks h = absurd (cc)

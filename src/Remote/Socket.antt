-- ===== src/Remote/Socket.antt =====
-- App/remote/RemoteClient_linux.cpp, RemoteClient_win.cpp: the sockets behind RemoteClient.
-- What the system's calls return is passed in: each call of send has a number, and the octets that
-- are still to go.
use mathlib.Core.List.{append-nil, append_assoc}
use cwkeyer.Base.{
  ℕ, zero, suc, ◌≤◌, ◌<◌, ◌≡◌, ◌≢◌, refl, ap, sym, ◌∙◌, ◌⊎◌, inl, inr, Bool, true, false, not, List,
  [], ◌∷◌, ◌++◌, Option, none, some, arith, length, take, drop, Bool-cases, if◌then◌else◌,
}
use cwkeyer.Base.Int.{ℤ, pos, negsuc, ltb_ℤ, pos_part}

-- The loop of sendRaw over what is left, on fuel; the octets that have gone out are collected.
unfoldable pub send_rest : (ℕ → List ℕ → ℤ) → ℕ → ℕ → List ℕ → List ℕ → Option (Bool × List ℕ)
send_rest send fuel call [] gone = some (true, gone)
send_rest send zero call (b ∷ bs) gone = none
send_rest send (suc fuel) call (b ∷ bs) gone =
    let sent = send call (b ∷ bs) in
    let n = pos_part sent in
    let more = send_rest send fuel (suc call) (drop n (b ∷ bs)) (gone ++ take n (b ∷ bs)) in
    if ltb_ℤ (pos 0) sent then more else some (false, gone)

-- sendRaw; every positive result of send shortens the rest, so its length is fuel enough.
unfoldable pub send_raw : (ℕ → List ℕ → ℤ) → Bool → List ℕ → Option (Bool × List ℕ)
send_raw send is_connected bytes =
    if is_connected then send_rest send (length bytes) 0 bytes [] else some (false, [])

-- recvRaw; `ready` is the result of poll or select, `received` that of recv.
unfoldable pub recv_raw : Bool → ℤ → ℤ → ℤ → ℤ
recv_raw is_connected timeout_ms ready received =
    let result = if ltb_ℤ received (pos 0) then negsuc 0 else received in
    if not is_connected
    then negsuc 0
    else if ltb_ℤ timeout_ms (pos 0)
    then result
    else if ltb_ℤ ready (pos 0)
    then negsuc 0
    else if ltb_ℤ (pos 0) ready
    then result
    else pos 0

-- openConnection: the descriptor to keep, and the one that it closes, from the results of socket,
-- inet_pton and connect.
pub record Opening : Type 0 where
  pub kept : Option ℤ
  pub closed : Option ℤ

abbrev pub is_zero : ℤ → Bool
is_zero (pos zero) = true
is_zero _ = false

unfoldable pub open_connection : ℤ → ℤ → ℤ → Opening
open_connection sock pton connect =
    if ltb_ℤ sock (pos 0)
    then record { kept = none; closed = none }
    else if not (ltb_ℤ (pos 0) pton)
    then record { kept = none; closed = some sock }
    else if not (is_zero connect)
    then record { kept = none; closed = some sock }
    else record { kept = some sock; closed = none }

-- A socket that openConnection has opened is kept exactly when inet_pton and connect succeed, and
-- closed again otherwise: none is left open by a failure.
open_connection_lem :
    (sock pton connect : ℤ)
    → ltb_ℤ sock (pos 0) ≡ false
    → let o = open_connection sock pton connect in
      ((o.kept ≡ some sock) × (o.closed ≡ none) × (ltb_ℤ (pos 0) pton ≡ true) × (connect ≡ pos 0))
      ⊎ ((o.kept ≡ none)
          × (o.closed ≡ some sock)
          × ((ltb_ℤ (pos 0) pton ≡ false) ⊎ (connect ≢ pos 0)))
unfolding open_connection
open_connection_lem sock pton connect h = ground arith

length-drop-le : (n : ℕ) (bs : List ℕ) → length (drop n bs) ≤ length bs
length-drop-le zero bs = omega arith
length-drop-le (suc n) [] = omega arith
length-drop-le (suc n) (b ∷ bs) = omega (arith, length-drop-le n bs)

length-drop-lt : (n : ℕ) (b : ℕ) (bs : List ℕ) → 0 < n → length (drop n (b ∷ bs)) ≤ length bs
length-drop-lt zero b bs h = absurd (omega arith)
length-drop-lt (suc n) b bs h = length-drop-le n bs

take-append-drop : (n : ℕ) (xs : List ℕ) → take n xs ++ drop n xs ≡ xs
take-append-drop zero xs = refl
take-append-drop (suc n) [] = refl
take-append-drop (suc n) (x ∷ xs) = ap (◌∷◌ x) (take-append-drop n xs)

positive : (z : ℤ) → ltb_ℤ (pos 0) z ≡ true → 0 < pos_part z
positive z h = ground arith

-- What went out is a beginning of what was to go, and all of it on success.
Sent : List ℕ → Option (Bool × List ℕ) → Type 0
Sent all r =
    (done : Bool) × (gone : List ℕ) × (left : List ℕ) × (r ≡ some (done, gone))
    × (gone ++ left ≡ all)
    × (done ≡ true → left ≡ [])

send_rest-Sent :
    (send : ℕ → List ℕ → ℤ) (fuel call : ℕ) (bs gone : List ℕ)
    → length bs ≤ fuel
    → Sent (gone ++ bs) (send_rest send fuel call bs gone)
unfolding send_rest Sent
send_rest-Sent send fuel call [] gone h = (true, gone, [], refl, refl, λ _. refl)
send_rest-Sent send zero call (b ∷ bs) gone h = absurd (omega arith)
send_rest-Sent send (suc fuel) call (b ∷ bs) gone h =
    let n = pos_part (send call (b ∷ bs)) in
    elim (Bool-cases (ltb_ℤ (pos 0) (send call (b ∷ bs)))) [
      | inl e ↦
          let (done, out, left, r, q, all) =
            send_rest-Sent send fuel (suc call) (drop n (b ∷ bs)) (gone ++ take n (b ∷ bs))
              (omega (arith, length-drop-lt n b bs (positive (send call (b ∷ bs)) e))) in
          (
            done,
            out,
            left,
            rw e r,
            q ∙ append_assoc gone _ _ ∙ ap (◌++◌ gone) (take-append-drop n (b ∷ bs)),
            all,
          )
      | inr e ↦ (false, gone, b ∷ bs, rw e, refl, λ e. cc)
    ]

all_gone :
    (done : Bool) (gone left bytes : List ℕ)
    → gone ++ left ≡ bytes
    → (done ≡ true → left ≡ [])
    → (done ≡ false) ⊎ ((true ≡ true) × (gone ≡ bytes))
all_gone true gone left bytes q all =
    inr (refl, sym (append-nil gone) ∙ ap (λ l. gone ++ l) (sym (all refl)) ∙ q)
all_gone false gone left bytes q all = inl refl

-- sendRaw always comes to an end, whatever send returns: what has gone out is a beginning of the
-- buffer, and if it reports success the socket was open and the whole buffer has gone out.
pub send_raw_lem :
    (send : ℕ → List ℕ → ℤ) (is_connected : Bool) (bytes : List ℕ)
    → (done : Bool) × (gone : List ℕ) × (left : List ℕ) × (send_raw send is_connected bytes
        ≡ some (done, gone))
      × (gone ++ left ≡ bytes)
      × ((done ≡ false) ⊎ ((is_connected ≡ true) × (gone ≡ bytes)))
unfolding send_raw Sent
send_raw_lem send true bytes =
    let (done, gone, left, r, q, all) =
      send_rest-Sent send (length bytes) 0 bytes [] (omega arith) in
    (done, gone, left, r, q, all_gone done gone left bytes q all)
send_raw_lem send false bytes = (false, [], bytes, refl, refl, inl refl)

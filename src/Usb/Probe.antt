-- ===== src/Usb/Probe.antt =====
-- attachDevice, tryToRead and taskRunnable of App/usb/UsbDevice.cpp: the calls of libusb on one
-- interface. What libusb answers is a parameter. A call with a null handle and an assertion that fails
-- end the program.
use cwkeyer.Base.{
  Returns, ℕ, zero, suc, ◌≡◌, refl, ◌⊎◌, inl, inr, Bool, true, false, ◌&&◌, ◌||◌, not, List, [],
  ◌∷◌, ◌++◌, Option, none, some, ltb, if◌then◌else◌, arith, Bool-cases,
}

-- The calls of libusb: a transfer is libusb_interrupt_transfer or the life of a submitted one.
pub data UsbCall : Type 0 where
  opens : UsbCall
  detaches : UsbCall
  claims : UsbCall
  transfers : UsbCall
  releases : UsbCall
  attaches : UsbCall
  closes : UsbCall

-- Whether the device opens, the capability to detach a driver, whether one is active, whether detaching,
-- claiming and attaching again succeed, and of each transfer the number of octets read, or `none` for an error.
pub record Libusb : Type 0 where
  pub opens_handle : Bool
  pub can_detach : Bool
  pub driver_active : Bool
  pub detach_succeeds : Bool
  pub claim_succeeds : Bool
  pub attach_succeeds : Bool
  pub transfer : ℕ → Option ℕ

-- attachDevice: the calls, and whether the driver was detached.
unfoldable pub attach_device : Libusb → List UsbCall × Bool
attach_device u =
    if u.can_detach && u.driver_active then (detaches ∷ [], u.detach_succeeds) else ([], false)

-- The loop of tryToRead, with `left` = 5 - counter before transfer number k: m_readData at its end,
-- and the number of transfers.
unfoldable pub read_loop : (ℕ → Option ℕ) → ℕ → ℕ → Bool → Bool × ℕ
read_loop transfer zero k read_data = (read_data, suc k)
read_loop transfer (suc left) k read_data = elim (transfer k) [
  | none ↦ (read_data, suc k)
  | some n ↦
      let more = read_loop transfer left (suc k) (ltb 0 n) in
      if read_data then (true, suc k) else more
]

abbrev pub times : ℕ → List UsbCall
times zero = []
times (suc n) = transfers ∷ times n

-- The end of tryToRead: its calls, and whether it returns.
unfoldable pub hand_back : Libusb → Bool → List UsbCall × Bool
hand_back u is_detached =
    if is_detached
    then (if u.attach_succeeds
        then (releases ∷ attaches ∷ closes ∷ [], true)
        else (releases ∷ attaches ∷ [], false))
    else (releases ∷ closes ∷ [], true)

-- tryToRead: its calls and its result; `none` where the program ends.
unfoldable pub try_to_read : Libusb → List UsbCall × Option Bool
unfolding attach_device read_loop hand_back
try_to_read u =
    let (detached, is_detached) = attach_device u in
    let (read_data, n) = read_loop u.transfer 5 0 false in
    let (tail, returns) = hand_back u is_detached in
    let reads = if u.claim_succeeds then read_data else false in
    let transferred = if u.claim_succeeds then times n else [] in
    if u.opens_handle
    then (opens ∷ detached ++ claims ∷ transferred ++ tail, if returns then some reads else none)
    else (opens ∷ [], none)

-- The calls of taskRunnable, for a device that is there, until the thread ends.
unfoldable pub task_runnable : Libusb → List UsbCall
unfolding attach_device
task_runnable u =
    let (detached, is_detached) = attach_device u in
    let reattached = if is_detached then attaches ∷ [] else [] in
    if not u.opens_handle
    then opens ∷ []
    else if u.claim_succeeds
    then opens ∷ detached ++ claims ∷ transfers ∷ reattached ++ releases ∷ closes ∷ []
    else opens ∷ detached ++ claims ∷ []

-- Where the interface stands after the calls: whether the handle is open, the driver detached, and
-- the interface claimed. An attach of a claimed interface fails, says libusb, and others may: `none`.
pub record Interface : Type 0 where
  pub is_open : Bool
  pub is_detached : Bool
  pub is_claimed : Bool

unfoldable pub after_call : Libusb → UsbCall → Interface → Option Interface
after_call u opens s = some (record s { is_open = true })
after_call u detaches s = some (record s { is_detached = u.detach_succeeds })
after_call u claims s = some (record s { is_claimed = u.claim_succeeds })
after_call u transfers s = some s
after_call u releases s = some (record s { is_claimed = false })
after_call u attaches s =
    if s.is_claimed || not u.attach_succeeds then none else some (record s { is_detached = false })
after_call u closes s = some (record s { is_open = false })

unfoldable pub after_calls : Libusb → List UsbCall → Interface → Option Interface
after_calls u [] s = some s
after_calls u (c ∷ cs) s = elim (after_call u c s) [ none ↦ none | some s' ↦ after_calls u cs s' ]

abbrev pub untouched : Interface
untouched = record { is_open = false; is_detached = false; is_claimed = false }

after_transfers :
    (u : Libusb) (n : ℕ) (cs : List UsbCall) (s : Interface)
    → after_calls u (times n ++ cs) s ≡ after_calls u cs s
unfolding after_calls after_call
after_transfers u zero cs s = refl
after_transfers u (suc n) cs s = after_transfers u n cs s

try_to_read-restores :
    (u : Libusb)
    → u.opens_handle ≡ true
    → (hand_back u (attach_device u).1).1 ≡ true
    → after_calls u (try_to_read u).0 untouched ≡ some untouched
unfolding try_to_read attach_device hand_back after_calls after_call
try_to_read-restores u up back =
    let n = (read_loop u.transfer 5 0 false).1 in
    ground (
      arith,
      after_transfers u n (releases ∷ closes ∷ [])
          (record { is_open = true; is_detached = false; is_claimed = true }),
      after_transfers u n (releases ∷ attaches ∷ closes ∷ [])
          (record { is_open = true; is_detached = true; is_claimed = true }),
    )

task_runnable-refused :
    (u : Libusb)
    → u.opens_handle ≡ true
    → u.can_detach ≡ true
    → u.driver_active ≡ true
    → u.detach_succeeds ≡ true
    → after_calls u (task_runnable u) untouched ≡ (
        if u.claim_succeeds
        then none
        else some (record { is_open = true; is_detached = true; is_claimed = false }))
unfolding attach_device task_runnable after_calls after_call
task_runnable-refused u up can active ok = ground arith

read_loop-true : (transfer : ℕ → Option ℕ) (left k : ℕ) → (read_loop transfer left k true).0 ≡ true
unfolding read_loop
read_loop-true transfer zero k = refl
read_loop-true transfer (suc left) k = ground arith

pub try_to_read-Returns :
    (u : Libusb) → u.opens_handle ≡ true → u.attach_succeeds ≡ true → Returns (try_to_read u).1
unfolding try_to_read hand_back
try_to_read-Returns u up back =
    ((if u.claim_succeeds then (read_loop u.transfer 5 0 false).0 else false), ground arith)

-- One of the transfers from number k on, before `left` of them, reads octets, and those before it
-- succeed and read none.
abbrev pub ReadsAt : (ℕ → Option ℕ) → ℕ → ℕ → ℕ → Type 0
ReadsAt transfer zero k j = ⊥
ReadsAt transfer (suc left) k zero = (n : ℕ) × (transfer k ≡ some (suc n))
ReadsAt transfer (suc left) k (suc j) = (transfer k ≡ some 0) × ReadsAt transfer left (suc k) j

read_loop-Reads :
    (transfer : ℕ → Option ℕ) (left k : ℕ)
    → ((read_loop transfer left k false).0 ≡ false) ⊎ ((j : ℕ) × ReadsAt transfer left k j)
unfolding read_loop
read_loop-Reads transfer zero k = inl refl
read_loop-Reads transfer (suc left) k =
    reads_next (transfer k) refl (read_loop-Reads transfer left (suc k))
  where
    reads_next :
        (o : Option ℕ)
        → transfer k ≡ o
        → ((read_loop transfer left (suc k) false).0 ≡ false)
          ⊎ ((j : ℕ) × ReadsAt transfer left (suc k) j)
        → ((read_loop transfer (suc left) k false).0 ≡ false)
          ⊎ ((j : ℕ) × ReadsAt transfer (suc left) k j)
    reads_next none e h = inl (ground arith)
    reads_next (some (suc n)) e h = inr (0, (n, e))
    reads_next (some zero) e (inl h) = inl (ground arith)
    reads_next (some zero) e (inr (j, r)) = inr (suc j, (e, r))

-- If the device opens, and a driver that was detached can be attached again once nothing is claimed,
-- tryToRead returns, however the other calls of libusb end, and puts the interface back: the handle
-- closed, nothing claimed and no driver detached. It reports data only if the interface was claimed and
-- one of the first five transfers read octets, all transfers before it having succeeded.
pub try_to_read_lem :
    (u : Libusb)
    → u.opens_handle ≡ true
    → u.attach_succeeds ≡ true
    → (after_calls u (try_to_read u).0 untouched ≡ some untouched)
      × (((try_to_read u).1 ≡ some false)
          ⊎ (((try_to_read u).1 ≡ some true)
              × (u.claim_succeeds ≡ true)
              × ((j : ℕ) × ReadsAt u.transfer 5 0 j)))
unfolding try_to_read hand_back
try_to_read_lem u up back = (
  try_to_read-restores u up (ground arith),
  elim (read_loop-Reads u.transfer 5 0) [
    | inl h ↦ inl (ground arith)
    | inr (j, r) ↦ elim (Bool-cases u.claim_succeeds) [
      | inl e ↦ elim (Bool-cases (read_loop u.transfer 5 0 false).0) [
        | inl t ↦ inr (ground arith, e, (j, r))
        | inr f ↦ inl (ground arith)
      ]
      | inr e ↦ inl (ground arith)
    ]
  ],
)

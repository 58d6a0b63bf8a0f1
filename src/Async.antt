-- ===== src/Async.antt =====
-- The mailbox of async/Mailbox.go and async/async_error.go: callbacks that wait for the errors of functions
-- that run elsewhere. An AsyncError is an address in `cell`, since a goroutine sets it while the mailbox
-- goes through its messages: `meanwhile` says, for each message, which calls of SetValue were made since the
-- message before it was read, those of earlier callbacks included. A callback is a number, and `spawns` says for
-- which callbacks it asks the mailbox in turn when it is invoked with an error, or nil as `none`.
pub mod Values
pub mod Delivery
mod Tests
use scoot.Base.{
  ℕ, suc, String, Bool, true, false, Option, none, some, List, [], ◌∷◌, ◌++◌, ◌==◌, if◌then◌else◌,
}

-- An error that SetValue has not set yet, one that waits in the channel, and one that was read.
pub data AsyncError : Type 0 where
  pending : AsyncError
  sent : Option String → AsyncError
  done : Option String → AsyncError

pub record Message : Type 0 where
  pub address : ℕ
  pub callback : ℕ

-- `invoked` has the callbacks so far, with what each was given.
pub record Mailbox : Type 0 where
  pub msgs : List Message
  pub cell : ℕ → AsyncError
  pub next : ℕ
  pub invoked : List (ℕ × Option String)

abbrev pub new_mailbox : Mailbox
new_mailbox = record { msgs = []; cell = λ a. pending; next = 0; invoked = [] }

abbrev pub write : (ℕ → AsyncError) → ℕ → AsyncError → ℕ → AsyncError
write cell a e b = if a == b then e else cell b

unfoldable pub new_async_error : Mailbox → ℕ → Mailbox
new_async_error bx callback = record bx {
  msgs = bx.msgs ++ (record { address = bx.next; callback = callback } ∷ []);
  cell = write bx.cell bx.next pending;
  next = suc bx.next;
}

-- SetValue; a second one panics, on the closed channel or as `none`.
abbrev pub set : AsyncError → Option String → Option AsyncError
set pending value = some (sent value)
set _ value = none

-- The errors after a call of SetValue. One that panics changes nothing.
abbrev pub set_value : (ℕ → AsyncError) → ℕ → Option String → ℕ → AsyncError
set_value cell a value = elim (set (cell a) value) [ none ↦ cell | some e ↦ write cell a e ]

abbrev pub set_values : (ℕ → AsyncError) → List (ℕ × Option String) → ℕ → AsyncError
set_values cell [] = cell
set_values cell ((a, value) ∷ more) = set_values (set_value cell a value) more

-- The value, and the error after the read.
abbrev pub try_get_value : AsyncError → Option (Option String) × AsyncError
try_get_value pending = (none, pending)
try_get_value (sent value) = (some value, done value)
try_get_value (done value) = (some value, done value)

-- The calls of NewAsyncError that a callback makes.
abbrev pub register : Mailbox → List ℕ → Mailbox
register bx [] = bx
register bx (callback ∷ more) = register (new_async_error bx callback) more

abbrev pub read : Mailbox → Message → Mailbox
read bx msg = record bx { cell = write bx.cell msg.address (try_get_value (bx.cell msg.address)).1 }

-- The callback runs to its end before the loop goes on.
abbrev pub invoke : (ℕ → Option String → List ℕ) → Mailbox → ℕ → Option String → Mailbox
invoke spawns bx callback value =
    register (record bx { invoked = bx.invoked ++ ((callback, value) ∷ []) })
      (spawns callback value)

abbrev pub deliver :
    (ℕ → Option String → List ℕ) → Mailbox → Message → Option (Option String) → Mailbox
deliver spawns bx msg none = bx
deliver spawns bx msg (some value) = invoke spawns bx msg.callback value

abbrev pub keep : Message → Option (Option String) → List Message → List Message
keep msg none rest = msg ∷ rest
keep msg (some value) rest = rest

-- What a goroutine may have set since the last read.
abbrev pub Meanwhile : Type 0
Meanwhile = Message → List (ℕ × Option String)

abbrev pub arrive : Meanwhile → Mailbox → Message → Mailbox
arrive meanwhile bx msg = record bx { cell = set_values bx.cell (meanwhile msg) }

-- The loop over the messages that were there at its start: the mailbox, and those not completed.
unfoldable pub process :
    (ℕ → Option String → List ℕ) → Meanwhile → Mailbox → List Message → Mailbox × List Message
process spawns meanwhile bx [] = (bx, [])
process spawns meanwhile bx (msg ∷ msgs) =
    let now = arrive meanwhile bx msg in
    let value = (try_get_value (now.cell msg.address)).0 in
    let (after, rest) = process spawns meanwhile (deliver spawns (read now msg) msg value) msgs in
    (after, keep msg value rest)

unfoldable pub process_messages : (ℕ → Option String → List ℕ) → Meanwhile → Mailbox → Mailbox
process_messages spawns meanwhile bx =
    let (after, rest) = process spawns meanwhile bx bx.msgs in record after { msgs = rest }

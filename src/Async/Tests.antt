-- ===== src/Async/Tests.antt =====
-- A mailbox on small inputs: a run of async/Mailbox.go, and the theorem at it.
use scoot.Base.{
  ℕ, ◌≡◌, refl, String, Option, none, some, List, [], ◌∷◌, ◌++◌, arith, All, ◌==◌, if◌then◌else◌,
}
use scoot.Async.{
  sent, Message, Mailbox, new_mailbox, new_async_error, write, process, process_messages,
}
use mathlib.Core.List.{Memᴰ}
use scoot.Async.Values.{values_of, kept, told_all}
use scoot.Async.Delivery.{process_messages-kept}

-- Two functions run, with the callbacks 7 and 8; the first has failed.
abbrev first_message : Message
first_message = record { address = 0; callback = 7 }

abbrev second_message : Message
second_message = record { address = 1; callback = 8 }

abbrev running : Mailbox
running = record new_mailbox {
  msgs = first_message ∷ second_message ∷ [];
  cell = write new_mailbox.cell 0 (sent (some "down"));
  next = 2;
}

-- A callback that is given an error asks for the callback 9 in turn, as for another try.
abbrev retry : ℕ → Option String → List ℕ
retry callback none = []
retry callback (some e) = 9 ∷ []

-- The second function fails while the loop is at the first message.
abbrev late : Message → List (ℕ × Option String)
late msg = if msg.address == 1 then (1, some "late") ∷ [] else []

lost_retry : (process_messages retry (λ msg. []) running).msgs ≡ second_message ∷ []
unfolding process_messages process new_async_error
lost_retry = refl

delivered_late :
    (process_messages (λ callback value. []) late running).invoked
    ≡ (7, some "down") ∷ (8, some "late") ∷ []
unfolding process_messages process
delivered_late = refl

process_messages-kept_example :
    let after = process_messages retry late running in
    let values = values_of running.cell in
    (after.msgs ≡ kept late values running.msgs)
    × (after.invoked ≡ [] ++ told_all late values running.msgs)
    × All
        (λ m.
          (value : Option String)
          → values m.address ≡ some value
          → Memᴰ (m.callback, value) (told_all late values running.msgs))
        running.msgs
    × All (λ m. values m.address ≡ none) after.msgs
process_messages-kept_example =
    process_messages-kept retry late running (ground arith, (ground arith, tt))

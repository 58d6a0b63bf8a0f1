-- ===== src/Async/Delivery.antt =====
-- What async/Mailbox.go's ProcessMessages delivers, and what it keeps.
use mathlib.Core.List.{Memᴰ}
use scoot.Base.{
  ℕ, ◌<◌, ◌≡◌, refl, sym, subst, String, Option, none, some, List, [], ◌∷◌, ◌++◌, ==_iff, arith,
  All, All-map, inl, inr, Option-cases,
}
use scoot.Async.{Message, Mailbox, Meanwhile, process_messages}
use scoot.Async.Values.{Values, values_of, given, given_all, kept, told, told_all, process-kept}

given_all-some :
    (v : Values) (xs : List (ℕ × Option String)) (a : ℕ) (value : Option String)
    → v a ≡ some value
    → given_all v xs a ≡ some value
given_all-some v [] a value h = h
given_all-some v ((b, new) ∷ xs) a value h =
    given_all-some (given v b new) xs a value (ground (arith, ==_iff b a, h))

given_all-none :
    (v : Values) (xs : List (ℕ × Option String)) (a : ℕ) → given_all v xs a ≡ none → v a ≡ none
given_all-none v xs a h = elim (Option-cases (v a)) [
  | inl e ↦ e
  | inr (value, e) ↦ absurd (ground (arith, given_all-some v xs a value e))
]

told-Mem :
    (x : ℕ × Option String) (m : Message) (value : Option (Option String))
    (rest : List (ℕ × Option String))
    → Memᴰ x rest
    → Memᴰ x (told m value rest)
told-Mem x m none rest h = h
told-Mem x m (some value) rest h = Memᴰ.tail h

-- A message that was completed when the loop began is told its value.
told_all-Mem :
    (meanwhile : Meanwhile) (v w : Values) (msgs : List Message)
    → ((a : ℕ) (value : Option String) → v a ≡ some value → w a ≡ some value)
    → All
        (λ m.
          (value : Option String)
          → v m.address ≡ some value
          → Memᴰ (m.callback, value) (told_all meanwhile w msgs))
        msgs
unfolding told_all
told_all-Mem meanwhile v w [] h = tt
told_all-Mem meanwhile v w (m ∷ msgs) h =
    let now = given_all w (meanwhile m) in
    let later : (a : ℕ) (value : Option String) → v a ≡ some value → now a ≡ some value =
      λ a value e. given_all-some w (meanwhile m) a value (h a value e) in
    (
      λ value e. rw (later m.address value e) (Memᴰ.head refl),
      All-map _ _ msgs
          (λ x f value e.
            told-Mem (x.callback, value) m (now m.address) (told_all meanwhile now msgs)
              (f value e))
          (told_all-Mem meanwhile v now msgs later),
    )

-- A message that is kept was not completed when the loop began.
kept-none :
    (meanwhile : Meanwhile) (v w : Values) (msgs : List Message)
    → ((a : ℕ) → w a ≡ none → v a ≡ none)
    → All (λ m. v m.address ≡ none) (kept meanwhile w msgs)
unfolding kept
kept-none meanwhile v w [] h = tt
kept-none meanwhile v w (m ∷ msgs) h =
    let now = given_all w (meanwhile m) in
    let earlier : (a : ℕ) → now a ≡ none → v a ≡ none =
      λ a e. h a (given_all-none w (meanwhile m) a e) in
    let rest = kept-none meanwhile v now msgs earlier in
    elim (Option-cases (now m.address)) [
      | inl e ↦ rw e (earlier m.address e, rest)
      | inr (value, e) ↦ rw e rest
    ]

-- ProcessMessages invokes, once each and in order, the callbacks of exactly the messages that are completed when
-- the loop comes to them, with the first value that each was given, and keeps exactly the others, whatever is
-- completed meanwhile and whatever the callbacks ask for in turn. So a message that was completed when the call
-- began has its callback invoked with its value, and a message that is kept was not completed then; one that a
-- callback adds to the mailbox is not kept. The messages were made by NewAsyncError of the mailbox.
pub process_messages-kept :
    (spawns : ℕ → Option String → List ℕ) (meanwhile : Meanwhile) (bx : Mailbox)
    → All (λ m. m.address < bx.next) bx.msgs
    → let after = process_messages spawns meanwhile bx in
      let values = values_of bx.cell in
      (after.msgs ≡ kept meanwhile values bx.msgs)
      × (after.invoked ≡ bx.invoked ++ told_all meanwhile values bx.msgs)
      × All
          (λ m.
            (value : Option String)
            → values m.address ≡ some value
            → Memᴰ (m.callback, value) (told_all meanwhile values bx.msgs))
          bx.msgs
      × All (λ m. values m.address ≡ none) after.msgs
unfolding process_messages
process_messages-kept spawns meanwhile bx l =
    let values = values_of bx.cell in
    let (k, t) =
      process-kept spawns meanwhile bx.next values bx bx.msgs
        (record { grown = omega arith; same = λ a b. refl }) l in
    (
      k,
      t,
      told_all-Mem meanwhile values values bx.msgs (λ a value e. e),
      subst (λ ms. All (λ m. values m.address ≡ none) ms) (sym k)
          (kept-none meanwhile values values bx.msgs (λ a e. e)),
    )

-- ===== src/Async/Values.antt =====
-- What async/Mailbox.go's ProcessMessages reads from the AsyncErrors, while goroutines set them.
use mathlib.Core.List.{append_assoc, append-nil}
use scoot.Base.{
  ℕ, ◌≤◌, ◌<◌, ◌≡◌, refl, sym, subst, ◌∙◌, ap, String, Option, none, some, List, [], ◌∷◌, ◌++◌,
  ◌==◌, ==_iff, arith, All, inl, inr, Bool-cases, if◌then◌else◌,
}
use scoot.Async.{
  AsyncError, Message, Mailbox, Meanwhile, new_async_error, try_get_value, process, deliver, read,
  register, keep, arrive, set_value, set_values,
}

-- The value of each AsyncError, if any.
abbrev pub Values : Type 0
Values = ℕ → Option (Option String)

abbrev pub values_of : (ℕ → AsyncError) → Values
values_of cell a = (try_get_value (cell a)).0

-- The first value that an AsyncError is given stays.
abbrev pub completed : Option (Option String) → Option String → Option (Option String)
completed none value = some value
completed (some old) value = some old

abbrev pub given : Values → ℕ → Option String → Values
given values a value b = if a == b then completed (values a) value else values b

abbrev pub given_all : Values → List (ℕ × Option String) → Values
given_all values [] = values
given_all values ((a, value) ∷ more) = given_all (given values a value) more

-- The messages that have no value when the loop comes to them.
unfoldable pub kept : Meanwhile → Values → List Message → List Message
kept meanwhile values [] = []
kept meanwhile values (msg ∷ msgs) =
    let now = given_all values (meanwhile msg) in
    keep msg (now msg.address) (kept meanwhile now msgs)

abbrev pub told :
    Message → Option (Option String) → List (ℕ × Option String) → List (ℕ × Option String)
told msg none rest = rest
told msg (some value) rest = (msg.callback, value) ∷ rest

-- The callbacks of the others, with the value that each has then.
unfoldable pub told_all : Meanwhile → Values → List Message → List (ℕ × Option String)
told_all meanwhile values [] = []
told_all meanwhile values (msg ∷ msgs) =
    let now = given_all values (meanwhile msg) in
    told msg (now msg.address) (told_all meanwhile now msgs)

-- The same values below an address.
abbrev SameBelow : ℕ → Values → Values → Type 0
SameBelow n v w = (a : ℕ) → a < n → v a ≡ w a

set_value-given :
    (cell : ℕ → AsyncError) (a : ℕ) (value : Option String) (b : ℕ)
    → values_of (set_value cell a value) b ≡ given (values_of cell) a value b
set_value-given cell a value b = ground arith

given-SameBelow :
    (n a : ℕ) (value : Option String) (v w : Values)
    → SameBelow n v w
    → SameBelow n (given v a value) (given w a value)
given-SameBelow n a value v w h b l = elim (Bool-cases (a == b)) [
  | inl e ↦ ground (arith, ==_iff a b, e, l, h a)
  | inr e ↦ rw e (h b l)
]

given_all-SameBelow :
    (n : ℕ) (v w : Values) (xs : List (ℕ × Option String))
    → SameBelow n v w
    → SameBelow n (given_all v xs) (given_all w xs)
given_all-SameBelow n v w [] h = h
given_all-SameBelow n v w ((a, value) ∷ xs) h =
    given_all-SameBelow n (given v a value) (given w a value) xs (given-SameBelow n a value v w h)

set_values-given_all :
    (cell : ℕ → AsyncError) (xs : List (ℕ × Option String))
    → values_of (set_values cell xs) ≡ given_all (values_of cell) xs
set_values-given_all cell [] = refl
set_values-given_all cell ((a, value) ∷ xs) =
    set_values-given_all (set_value cell a value) xs
    ∙ ap (λ v. given_all v xs) (λ i b. set_value-given cell a value b i)

-- A mailbox that has at least n errors, of which the first n have these values.
pub record Has (n : ℕ) (v : Values) (bx : Mailbox) : Type 0 where
  pub grown : n ≤ bx.next
  pub same : SameBelow n (values_of bx.cell) v

register-Has :
    (n : ℕ) (v : Values) (bx : Mailbox) (callbacks : List ℕ)
    → Has n v bx
    → Has n v (register bx callbacks) × ((register bx callbacks).invoked ≡ bx.invoked)
unfolding new_async_error
register-Has n v bx [] h = (h, refl)
register-Has n v bx (callback ∷ more) h =
    register-Has n v (new_async_error bx callback) more (record {
      grown = omega (arith, h.grown);
      same = λ a l. ground (arith, h.same a l, h.grown, l);
    })

read-Has : (n : ℕ) (v : Values) (bx : Mailbox) (m : Message) → Has n v bx → Has n v (read bx m)
read-Has n v bx m h = record { grown = h.grown; same = λ a l. ground (arith, h.same a l) }

deliver-Has :
    (spawns : ℕ → Option String → List ℕ) (n : ℕ) (v : Values) (bx : Mailbox) (m : Message)
    (value : Option (Option String))
    → Has n v bx
    → Has n v (deliver spawns bx m value)
      × ((deliver spawns bx m value).invoked ≡ bx.invoked ++ told m value [])
deliver-Has spawns n v bx m none h = (h, sym (append-nil bx.invoked))
deliver-Has spawns n v bx m (some value) h =
    register-Has n v (record bx { invoked = bx.invoked ++ ((m.callback, value) ∷ []) })
      (spawns m.callback value) (record { grown = h.grown; same = h.same })

told-append :
    (m : Message) (value : Option (Option String)) (earlier rest : List (ℕ × Option String))
    → (earlier ++ told m value []) ++ rest ≡ earlier ++ told m value rest
told-append m none earlier rest = ap (λ x. x ++ rest) (append-nil earlier)
told-append m (some value) earlier rest = append_assoc earlier ((m.callback, value) ∷ []) rest

pub process-kept :
    (spawns : ℕ → Option String → List ℕ) (meanwhile : Meanwhile) (n : ℕ) (v : Values)
    (bx : Mailbox) (msgs : List Message)
    → Has n v bx
    → All (λ m. m.address < n) msgs
    → ((process spawns meanwhile bx msgs).1 ≡ kept meanwhile v msgs)
      × ((process spawns meanwhile bx msgs).0.invoked ≡ bx.invoked ++ told_all meanwhile v msgs)
unfolding process kept told_all
process-kept spawns meanwhile n v bx [] h l = (refl, sym (append-nil bx.invoked))
process-kept spawns meanwhile n v bx (m ∷ msgs) h l =
    let now = arrive meanwhile bx m in
    let w = given_all v (meanwhile m) in
    let here : Has n w now = record {
      grown = h.grown;
      same =
          subst (λ u. SameBelow n u w) (sym (set_values-given_all bx.cell (meanwhile m)))
            (given_all-SameBelow n (values_of bx.cell) v (meanwhile m) h.same);
    } in
    let e = here.same m.address l.0 in
    let value = values_of now.cell m.address in
    let (after, i) = deliver-Has spawns n w (read now m) m value (read-Has n w now m here) in
    let (k, t) =
      process-kept spawns meanwhile n w (deliver spawns (read now m) m value) msgs after l.1 in
    (
      ap (λ x. keep m value x) k ∙ ap (λ u. keep m u (kept meanwhile w msgs)) e,
      t
          ∙ ap (λ x. x ++ told_all meanwhile w msgs) i
          ∙ told-append m value bx.invoked (told_all meanwhile w msgs)
          ∙ ap (λ u. bx.invoked ++ told m u (told_all meanwhile w msgs)) e,
    )
